-- ===== src/AddrInfo/Saved.antt =====
-- The memory of the loop of Lab2017/libgai/getaddrinfo.c: the list, and the canonical name that is saved.
use cosc.Prelude.{
  ℕ, ◌+◌, ◌≤◌, Bool, true, false, Option, none, some, List, [], ◌∷◌, ◌==◌, ◌&&◌, if◌then◌else◌, not,
  arith, Bytes,
}
use cosc.AddrInfo.{
  af_unspec, af_inet, af_inet6, Eai, Hints, one_if, Build, Result, ok, err, ga_aistruct,
  wants_canonname,
}
use cosc.AddrInfo.Lookup.{
  Resolver, Hostent, Answer, host, no_host, Search, Found, Looked, on, bad, to_looked, of_h_errno,
  add_all, save_canon, add_host, ask, add_numeric, pton4, pton6, look_up, look_up_all,
}
use cosc.AddrInfo.Blocks.{
  Alloc, fails, gives, Alloc-cases, Kept, build_of, ga_aistruct-Kept, add_all-Kept,
}

abbrev pub found_of : Looked → Found
found_of (on f) = f
found_of (bad e f) = f

-- At most one canonical name is saved, and none unless one is wanted.
abbrev pub one_name : Bool → ℕ
one_name wanted = if wanted then 1 else 0

pub record Holds (wanted : Bool) (base : ℕ) (f : Found) : Type 0 where
  pub kept : Kept (base + one_if f.canon) f.build
  pub saved : one_if f.canon ≤ one_name wanted

to_looked-Holds :
    (wanted : Bool) (base : ℕ) (canon : Option Bytes) (r : Result)
    → one_if canon ≤ one_name wanted
    → Kept (base + one_if canon) (build_of r)
    → Holds wanted base (found_of (to_looked canon r))
to_looked-Holds wanted base canon (ok b) s k = record { kept = k; saved = s }
to_looked-Holds wanted base canon (err e b) s k = record { kept = k; saved = s }

-- What save_canon comes to, on a name that is wanted or not.
abbrev SavesWell : Bool → ℕ → Option Found → Type 0
SavesWell wanted base none = Unit
SavesWell wanted base (some g) = Holds wanted base g

save_name :
    (base : ℕ) (name : Bytes) (b : Build)
    → Kept (base + 0) b
    → (s : Alloc b.mem)
    → SavesWell true base (save_canon true name (record { build = b; canon = none }))
save_name base name b k (fails e) = rw e tt
save_name base name b k (gives m l e) = rw e (record {
  kept = record { live = let q = k.live in omega arith; unnamed = k.unnamed };
  saved = omega arith;
})

save_canon-Holds :
    (wanted : Bool) (base : ℕ) (name : Bytes) (b : Build) (canon : Option Bytes)
    → Holds wanted base (record { build = b; canon = canon })
    → SavesWell wanted base (save_canon wanted name (record { build = b; canon = canon }))
save_canon-Holds wanted base name b (some c) k = k
save_canon-Holds true base name b none k = save_name base name b k.kept (Alloc-cases b.mem)
save_canon-Holds false base name b none k = k

add_saved :
    (wanted : Bool) (base : ℕ) (h : Hints) (e : Hostent) (f : Found)
    → Holds wanted base f
    → (o : Option Found) → SavesWell wanted base o
    → Holds wanted base (
        found_of (elim o [
          | none ↦ bad Eai.memory f
          | some g ↦ to_looked g.canon (add_all h e.h_addr_list e.h_addrtype g.build)
        ]))
add_saved wanted base h e f k none s = k
add_saved wanted base h e f k (some g) s =
    to_looked-Holds wanted base g.canon (add_all h e.h_addr_list e.h_addrtype g.build) s.saved
      (add_all-Kept (base + one_if g.canon) h e.h_addr_list e.h_addrtype g.build s.kept)

choose :
    (P : Found → Type 0) (b : Bool) (x y : Looked)
    → P (found_of x)
    → P (found_of y)
    → P (found_of (if b then x else y))
choose P true x y p q = p
choose P false x y p q = q

-- The name is saved where the caller wants it.
abbrev pub wants_name : Hints → Bool → Bool
wants_name h named = named && wants_canonname h.flags

add_host-Holds :
    (base : ℕ) (h : Hints) (named : Bool) (e : Hostent) (f : Found)
    → Holds (wants_name h named) base f
    → Holds (wants_name h named) base (found_of (add_host h named e f))
unfolding add_host
add_host-Holds base h named e f k =
    let w = wants_name h named in
    choose (Holds w base) (not (h.family == af_unspec) && not (h.family == e.h_addrtype)) _ _ k (
      add_saved w base h e f k (save_canon w e.h_name f)
        (save_canon-Holds w base e.h_name f.build f.canon k))

answer-Holds :
    (base : ℕ) (h : Hints) (named two : Bool) (f : Found)
    → Holds (wants_name h named) base f
    → (a : Answer)
    → Holds (wants_name h named) base (
        found_of (elim a [
          | host e ↦ add_host h named e f
          | no_host e ↦ if two then on f else bad (of_h_errno e) f
        ]))
answer-Holds base h named two f k (host e) = add_host-Holds base h named e f k
answer-Holds base h named two f k (no_host e) = choose (Holds (wants_name h named) base) two _ _ k k

ask-Holds :
    (base : ℕ) (r : Resolver) (h : Hints) (named two : Bool) (s : Search) (f : Found)
    → Holds (wants_name h named) base f
    → Holds (wants_name h named) base (found_of (ask r h named two s f))
unfolding ask
ask-Holds base r h named two s f k = answer-Holds base h named two f k (
    if two then r.gethostbyname2 s.host s.family else r.gethostbyname s.host (s.family == af_inet6))

add_numeric-Holds :
    (w : Bool) (base : ℕ) (h : Hints) (addr : Bytes) (fam : ℕ) (s : Search) (f : Found)
    → Holds w base f
    → Holds w base (found_of (add_numeric h addr fam s f))
unfolding add_numeric
add_numeric-Holds w base h addr fam s f k =
    choose (Holds w base) (not (h.family == af_unspec) && not (h.family == fam)) _ _ k (
      choose (Holds w base) (s.family == fam) _ _
        (to_looked-Holds w base f.canon (ga_aistruct h addr fam f.build) k.saved
          (ga_aistruct-Kept (base + one_if f.canon) h addr fam f.build k.kept))
        k)

numeric_or :
    (w : Bool) (base : ℕ) (h : Hints) (fam : ℕ) (s : Search) (f : Found) (x : Looked)
    → Holds w base f
    → Holds w base (found_of x)
    → (o : Option Bytes)
    → Holds w base (found_of (elim o [ some a ↦ add_numeric h a fam s f | none ↦ x ]))
numeric_or w base h fam s f x k q none = q
numeric_or w base h fam s f x k q (some a) = add_numeric-Holds w base h a fam s f k

look_up-Holds :
    (base : ℕ) (r : Resolver) (h : Hints) (named two : Bool) (s : Search) (f : Found)
    → Holds (wants_name h named) base f
    → Holds (wants_name h named) base (found_of (look_up r h named two s f))
unfolding look_up
look_up-Holds base r h named two s f k =
    let w = wants_name h named in
    numeric_or w base h af_inet s f _ k
      (numeric_or w base h af_inet6 s f _ k (ask-Holds base r h named two s f k) (pton6 r s.host))
      (pton4 r s.host)

go_on :
    (w : Bool) (base : ℕ) (next : Found → Looked)
    → ((g : Found) → Holds w base g → Holds w base (found_of (next g)))
    → (l : Looked) → Holds w base (found_of l)
    → Holds w base (found_of (elim l [ on g ↦ next g | bad e g ↦ bad e g ]))
go_on w base next n (on g) k = n g k
go_on w base next n (bad e g) k = k

pub look_up_all-Holds :
    (base : ℕ) (r : Resolver) (h : Hints) (named two : Bool) (ss : List Search) (f : Found)
    → Holds (wants_name h named) base f
    → Holds (wants_name h named) base (found_of (look_up_all r h named two ss f))
unfolding look_up_all
look_up_all-Holds base r h named two [] f k = k
look_up_all-Holds base r h named two (s ∷ ss) f k =
    go_on (wants_name h named) base (look_up_all r h named two ss)
      (look_up_all-Holds base r h named two ss) (look_up r h named two s f)
      (look_up-Holds base r h named two s f k)
