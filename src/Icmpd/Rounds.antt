-- ===== src/Icmpd/Rounds.antt =====
-- The daemon stays well-formed in every round.
use cosc.Prelude.{
  ℕ, zero, suc, ◌-◌, ◌≤◌, ◌≡◌, ◌≢◌, refl, ap, ◌∙◌, inl, inr, Bool, true, false, Option, none, some,
  List, ltb, leb, ◌==◌, ◌||◌, if◌then◌else◌, ◌>>=◌, arith, length, Bool-cases, replicate,
}
use mathlib.Core.Path.{subst}
use cosc.Prelude.Int.{pos}
use cosc.Icmpd.{fd_setsize, Entry, Icmpd, Sockets, Action, Kernel, greater, readable_listen, start}
use cosc.Icmpd.Tables.{count, FreeFrom, own, IsValid, readable_listen-IsValid}
use cosc.Icmpd.Serving.{serve-IsServed}
use cosc.Icmpd.Daemon.{behind, serve_all, from_v6, from_v4, ready_in, round}

abbrev ValidBy : Sockets → Option (Icmpd × List Action) → Type 0
ValidBy f none = Unit
ValidBy f (some r) = IsValid f r.0

behind-ValidBy :
    (f : Sockets) (a : List Action) (m : Option (Icmpd × List Action))
    → ValidBy f m
    → ValidBy f (behind a m)
behind-ValidBy f a none v = tt
behind-ValidBy f a (some (s, acts)) v = v

serve_all-IsValid :
    (f : Sockets) (k : Kernel) (ready : ℕ → Bool) (n : ℕ) (s : Icmpd)
    → IsValid f s
    → IsValid f (serve_all k ready n s).0
unfolding serve_all
serve_all-IsValid f k ready n s v =
    let r = serve-IsServed k ready s.top n s.client s.allset (own f) v.free v.tracks in
    record {
      size = r.size ∙ v.size;
      free = r.free;
      tracks = r.tracks;
      below = λ x h. v.below x (r.fewer x h);
    }

-- What is behind a raw socket in a round, once it has been read.
told-ValidBy :
    (f : Sockets) (s : Icmpd) (n : ℕ) (m : Option (List Action))
    (rest : Option (Icmpd × List Action))
    → IsValid f s
    → ValidBy f rest
    → ValidBy f (m >>= (λ a. if leb n 1 then some (s, a) else behind a rest))
told-ValidBy f s n none rest v w = tt
told-ValidBy f s n (some a) rest v w = elim (Bool-cases (leb n 1)) [
  | inl q ↦ rw q v
  | inr q ↦ rw q (behind-ValidBy f a rest w)
]

from_v6-ValidBy :
    (f : Sockets) (k : Kernel) (ready : ℕ → Bool) (n : ℕ) (s : Icmpd)
    → IsValid f s
    → ValidBy f (from_v6 f k ready n s)
unfolding from_v6
from_v6-ValidBy f k ready n s v = elim (Bool-cases (ready f.fd6)) [
  | inl q ↦ rw q (
      told-ValidBy f s n _ (some (serve_all k ready (n - 1) s)) v
        (serve_all-IsValid f k ready (n - 1) s v))
  | inr q ↦ rw q (serve_all-IsValid f k ready n s v)
]

from_v4-ValidBy :
    (f : Sockets) (k : Kernel) (ready : ℕ → Bool) (n : ℕ) (s : Icmpd)
    → IsValid f s
    → ValidBy f (from_v4 f k ready n s)
unfolding from_v4
from_v4-ValidBy f k ready n s v = elim (Bool-cases (ready f.fd4)) [
  | inl q ↦ rw q (told-ValidBy f s n _ _ v (from_v6-ValidBy f k ready (n - 1) s v))
  | inr q ↦ rw q (from_v6-ValidBy f k ready n s v)
]

round-ValidBy :
    (f : Sockets) (k : Kernel) (s : Icmpd)
    → IsValid f s
    → s.allset k.accepted ≡ false
    → ValidBy f (round f k s)
unfolding round
round-ValidBy f k s v fresh =
    let t = (readable_listen k.accepted s).0 in
    let w = readable_listen-IsValid f k.accepted s v fresh in
    elim (Bool-cases (ready_in k s f.listenfd)) [
      | inl q ↦ elim (Bool-cases (leb k.nready 1)) [
        | inl z ↦ rw q (rw z w)
        | inr z ↦
            rw q
              (rw z (behind-ValidBy f _ _ (from_v4-ValidBy f k (ready_in k s) (k.nready - 1) t w)))
      ]
      | inr q ↦ rw q (from_v4-ValidBy f k (ready_in k s) k.nready s v)
    ]

-- The daemon after any number of rounds in which accept(2) gives descriptors that are not in use.
pub data Run (f : Sockets) : Icmpd → Type 0 where
  begin : Run f (start f)
  next :
      {s : Icmpd} (t : Icmpd) (k : Kernel) (acts : List Action)
      → Run f s
      → s.allset k.accepted ≡ false
      → round f k s ≡ some (t, acts)
      → Run f t

pub record IsDistinct (f : Sockets) : Type 0 where
  pub raw : f.fd4 ≢ f.fd6
  pub listen4 : f.fd4 ≢ f.listenfd
  pub listen6 : f.fd6 ≢ f.listenfd

abbrev free_entry : Entry
free_entry = record { connfd = none; family = 0; lport = pos 0 }

free-count : (x n : ℕ) → count x (replicate n free_entry) ≡ 0
free-count x zero = refl
free-count x (suc n) = omega (arith, free-count x n)

free-FreeFrom : (n : ℕ) → FreeFrom zero (replicate n free_entry)
free-FreeFrom zero = tt
free-FreeFrom (suc n) = (refl, free-FreeFrom n)

length-free : (n : ℕ) → length (replicate n free_entry) ≡ n
length-free zero = refl
length-free (suc n) = ap suc (length-free n)

own_watched :
    (f : Sockets) (x : ℕ) → ((x == f.fd4) || ((x == f.fd6) || (x == f.listenfd))) ≡ ltb 0 (own f x)
own_watched f x = ground arith

own_single : (f : Sockets) (x : ℕ) → IsDistinct f → own f x ≤ 1
own_single f x d = let a = d.raw in let b = d.listen4 in let c = d.listen6 in ground arith

own_below :
    (f : Sockets) (x : ℕ)
    → ((x == f.fd4) || ((x == f.fd6) || (x == f.listenfd))) ≡ true
    → x ≤ greater (greater f.fd4 f.fd6) f.listenfd
own_below f x h = ground (arith, h)

pub start-IsValid : (f : Sockets) → IsDistinct f → IsValid f (start f)
unfolding start
start-IsValid f d = record {
  size = length-free fd_setsize;
  free = free-FreeFrom fd_setsize;
  tracks = record {
    watched = λ x. own_watched f x ∙ ap (ltb 0) (let c = free-count x fd_setsize in omega arith);
    single = λ x. let c = free-count x fd_setsize in let o = own_single f x d in omega arith;
  };
  below = own_below f;
}

-- After any number of rounds of icmpd, whatever the kernel answers, if accept(2) gives only descriptors
-- that are not in use: the entries behind maxi are free, select(2) is asked for the daemon's own sockets
-- and the connections in the table and for no other descriptor, none of these is in the table twice,
-- and none is above maxfd.
pub Run-IsValid : {f : Sockets} {s : Icmpd} → IsDistinct f → Run f s → IsValid f s
Run-IsValid {f} d begin = start-IsValid f d
Run-IsValid {f} d (next {s} t k acts r fresh e) =
    subst (ValidBy f) e (round-ValidBy f k s (Run-IsValid d r) fresh)
