-- ===== src/Icmpd/Tables.antt =====
-- The table of the clients and the set for select(2).
use cosc.Prelude.{
  ℕ, zero, suc, ◌+◌, ◌≤◌, ◌≡◌, refl, ap, sym, ◌∙◌, Bool, true, false, Option, none, some, List, [],
  ◌∷◌, ltb, ◌==◌, ◌||◌, ◌>>=◌, if◌then◌else◌, arith, length, none_some, ltb-false,
}
use mathlib.Core.Path.{subst}
use native.Mathlib.Decide.{ℕ_discrete}
use cosc.Prelude.Int.{ℤ}
use cosc.Icmpd.{fd_setsize, Entry, Icmpd, Sockets, place, fd_set, greater, readable_listen, admit}

abbrev pub one_if : Bool → ℕ
one_if b = if b then 1 else 0

-- How often a descriptor is among the connections of the clients.
abbrev pub one : ℕ → Entry → ℕ
one x e = elim e.connfd [ none ↦ 0 | some fd ↦ one_if (fd == x) ]

abbrev pub count : ℕ → List Entry → ℕ
count x [] = 0
count x (e ∷ es) = one x e + count x es

-- The entries behind the first `k` are free.
abbrev pub FreeFrom : ℕ → List Entry → Type 0
FreeFrom k [] = Unit
FreeFrom zero (e ∷ es) = (e.connfd ≡ none) × FreeFrom zero es
FreeFrom (suc k) (e ∷ es) = FreeFrom k es

-- The set has the descriptors that `b` counts and the connections of the clients, each once.
pub record Tracks (b : ℕ → ℕ) (es : List Entry) (all : ℕ → Bool) : Type 0 where
  pub watched : (x : ℕ) → all x ≡ ltb 0 (b x + count x es)
  pub single : (x : ℕ) → b x + count x es ≤ 1

-- The first free entry gets the connection.
pub record IsPlaced (fd k : ℕ) (es ds : List Entry) (i : ℕ) : Type 0 where
  pub size : length ds ≡ length es
  pub more : (x : ℕ) → count x ds ≡ count x es + one_if (fd == x)
  pub free : FreeFrom (greater k (suc i)) ds

greater-suc : (k i : ℕ) → greater (suc k) (suc i) ≡ suc (greater k i)
greater-suc k i = ground arith

free_here :
    (k : ℕ) (d e : Entry) (es : List Entry) → FreeFrom k (e ∷ es) → FreeFrom (greater k 1) (d ∷ es)
free_here zero d e es f = f.1
free_here (suc k) d e es f = rw (ltb-false (suc k) 1 (omega arith)) f

abbrev pub PlacedBy : ℕ → ℕ → List Entry → Option (List Entry × ℕ) → Type 0
PlacedBy fd k es none = Unit
PlacedBy fd k es (some (ds, i)) = IsPlaced fd k es ds i

place_there :
    (fd k : ℕ) (e : Entry) (es : List Entry) (m : Option (List Entry × ℕ))
    → PlacedBy fd k es m
    → PlacedBy fd (suc k) (e ∷ es) (m >>= (λ r. some (e ∷ r.0, suc r.1)))
place_there fd k e es none h = tt
place_there fd k e es (some (ds, i)) h = record {
  size = ap suc h.size;
  more = λ x. let a = h.more x in omega arith;
  free = subst (λ n. FreeFrom n (e ∷ ds)) (sym (greater-suc k (suc i))) h.free;
}

place_step :
    (fd k : ℕ) (o : Option ℕ) (family : ℕ) (lport : ℤ) (es : List Entry)
    → let e : Entry = record { connfd = o; family = family; lport = lport } in
      FreeFrom k (e ∷ es)
      → ((m : ℕ) → FreeFrom m es → PlacedBy fd m es (place fd es))
      → PlacedBy fd k (e ∷ es) (place fd (e ∷ es))
unfolding place
place_step fd k none family lport es f h = record {
  size = refl;
  more = λ x. omega arith;
  free =
      free_here k (record { connfd = some fd; family = family; lport = lport })
        (record { connfd = none; family = family; lport = lport }) es f;
}
place_step fd zero (some x) family lport es f h = none_some (sym f.0)
place_step fd (suc k) (some x) family lport es f h = place_there fd k _ es (place fd es) (h k f)

pub place-PlacedBy : (fd k : ℕ) (es : List Entry) → FreeFrom k es → PlacedBy fd k es (place fd es)
unfolding place
place-PlacedBy fd k [] f = tt
place-PlacedBy fd k (e ∷ es) f =
    place_step fd k e.connfd e.family e.lport es f (λ m g. place-PlacedBy fd m es g)

-- The descriptors of the daemon itself.
abbrev pub own : Sockets → ℕ → ℕ
own f x = one_if (x == f.fd4) + one_if (x == f.fd6) + one_if (x == f.listenfd)

pub record IsValid (f : Sockets) (s : Icmpd) : Type 0 where
  pub size : length s.client ≡ fd_setsize
  pub free : FreeFrom s.top s.client
  pub tracks : Tracks (own f) s.client s.allset
  pub below : (x : ℕ) → s.allset x ≡ true → x ≤ s.maxfd

fd_set_one :
    (x fd c : ℕ) (a : Bool)
    → (x ≡ fd → a ≡ false)
    → a ≡ ltb 0 c
    → c ≤ 1
    → (((x == fd) || a) ≡ ltb 0 (c + one_if (fd == x))) × (c + one_if (fd == x) ≤ 1)
fd_set_one x fd c a n w s = elim (ℕ_discrete x fd) [
  | yes e ↦ let none_yet = n e in ground (arith, none_yet, w, s, e)
  | no d ↦ ground (arith, w, s, d)
]

fd_set_below :
    (x fd m : ℕ) (a : Bool) → (a ≡ true → x ≤ m) → ((x == fd) || a) ≡ true → x ≤ greater m fd
fd_set_below x fd m true b h = let c = b refl in ground arith
fd_set_below x fd m false b h = ground (arith, h)

fd_set-Tracks :
    (b : ℕ → ℕ) (es ds : List Entry) (all : ℕ → Bool) (fd : ℕ)
    → Tracks b es all
    → all fd ≡ false
    → ((x : ℕ) → count x ds ≡ count x es + one_if (fd == x))
    → Tracks b ds (fd_set fd all)
fd_set-Tracks b es ds all fd t fresh h = record {
  watched = λ x.
      (fd_set_one x fd _ (all x) (λ e. ap all e ∙ fresh) (t.watched x) (t.single x)).0
      ∙ ap (ltb 0) (let m = h x in omega arith);
  single = λ x.
      let s = (fd_set_one x fd _ (all x) (λ e. ap all e ∙ fresh) (t.watched x) (t.single x)).1 in
      let m = h x in omega arith;
}

admit-IsValid :
    (f : Sockets) (fd : ℕ) (s : Icmpd) (m : Option (List Entry × ℕ))
    → IsValid f s
    → s.allset fd ≡ false
    → PlacedBy fd s.top s.client m
    → IsValid f (admit fd s m).0
admit-IsValid f fd s none v fresh p = v
admit-IsValid f fd s (some (ds, i)) v fresh p = record {
  size = p.size ∙ v.size;
  free = p.free;
  tracks = fd_set-Tracks (own f) s.client ds s.allset fd v.tracks fresh p.more;
  below = λ x h. fd_set_below x fd s.maxfd (s.allset x) (v.below x) h;
}

-- A connection on a new descriptor keeps the daemon valid.
pub readable_listen-IsValid :
    (f : Sockets) (fd : ℕ) (s : Icmpd)
    → IsValid f s
    → s.allset fd ≡ false
    → IsValid f (readable_listen fd s).0
unfolding readable_listen
readable_listen-IsValid f fd s v fresh =
    admit-IsValid f fd s _ v fresh (place-PlacedBy fd s.top s.client v.free)
