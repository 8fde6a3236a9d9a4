-- ===== src/AddrInfo/Grows.antt =====
-- How the list grows in the loop of Lab2017/libgai/getaddrinfo.c.
use cosc.Prelude.{
  ℕ, suc, ◌+◌, ◌-◌, ◌*◌, ◌≤◌, ◌≡◌, refl, ap, sym, ◌∙◌, Bool, true, false, none, List, [], ◌∷◌, ◌++◌,
  ◌&&◌, arith, length, length-append, Bytes, ==_true, append-nil, append_assoc,
}
use mathlib.Core.List.{map-append}
use cosc.AddrInfo.{
  af_unspec, af_inet, af_inet6, Hints, Memory, Build, ok, ◌>>=◌, add_address, ga_aistruct, is_inet,
  wants_canonname,
}
use cosc.AddrInfo.Lookup.{
  Resolver, Hostent, Answer, host, no_host, Search, Found, Looked, on, searches, pton4, pton6,
  add_all, add_host, ask, look_up, look_up_all,
}
use cosc.AddrInfo.Offers.{Address, entry, entries, IsInet}
use cosc.AddrInfo.Copies.{alloc-some}

-- The list grows by the entries for some addresses, and memory for them is used.
pub record Grows (h : Hints) (xs : List Address) (b c : Build) : Type 0 where
  pub list : c.list ≡ b.list ++ entries h xs
  pub room : c.mem.room + 2 * length xs ≡ b.mem.room

pub ga_aistruct-Grows :
    (h : Hints) (a : Address) (b : Build)
    → IsInet a
    → 2 ≤ b.mem.room
    → (c : Build) × (ga_aistruct h a.1 a.0 b ≡ ok c) × Grows h (a ∷ []) b c
unfolding ga_aistruct
ga_aistruct-Grows h a b i n =
    let m1 : Memory = record { room = b.mem.room - 1; live = suc b.mem.live } in
    let m2 : Memory = record { room = b.mem.room - 1 - 1; live = suc (suc b.mem.live) } in
    (
      record b { list = b.list ++ (entry h a ∷ []); mem = m2 },
      rw (alloc-some b.mem (omega arith), ga_aistruct)
          (rw (i, ga_aistruct) (rw (alloc-some m1 (omega arith), add_address) refl)),
      record { list = refl; room = omega arith },
    )

Grows-trans :
    (h : Hints) (xs ys : List Address) (b c d : Build)
    → Grows h xs b c
    → Grows h ys c d
    → Grows h (xs ++ ys) b d
Grows-trans h xs ys b c d g k = record {
  list =
      k.list
      ∙ ap (λ l. l ++ entries h ys) g.list
      ∙ append_assoc b.list (entries h xs) (entries h ys)
      ∙ ap (◌++◌ b.list) (sym (map-append (entry h) xs ys));
  room = omega (arith, length-append {A = Address} xs ys, g.room, k.room);
}

Grows-none : (h : Hints) (b : Build) → Grows h [] b b
Grows-none h b = record { list = sym (append-nil b.list); room = omega arith }

-- The addresses of one family, and those of an answer.
abbrev pub of_family : ℕ → List Bytes → List Address
of_family fam [] = []
of_family fam (a ∷ more) = (fam, a) ∷ of_family fam more

abbrev pub addresses : Answer → List Address
addresses (host e) = of_family e.h_addrtype e.h_addr_list
addresses (no_host e) = []

add_all-Grows :
    (h : Hints) (fam : ℕ) (l : List Bytes) (b : Build)
    → is_inet fam ≡ true
    → 2 * length (of_family fam l) ≤ b.mem.room
    → (c : Build) × (add_all h l fam b ≡ ok c) × Grows h (of_family fam l) b c
unfolding add_all
add_all-Grows h fam [] b i n = (b, refl, Grows-none h b)
add_all-Grows h fam (a ∷ more) b i n =
    let (c, e, g) = ga_aistruct-Grows h (fam, a) b i (omega arith) in
    let (d, f, k) = add_all-Grows h fam more c i (let q = g.room in omega arith) in
    (
      d,
      ap (λ r. r >>= (λ b'. add_all h more fam b')) e ∙ f,
      Grows-trans h ((fam, a) ∷ []) (of_family fam more) b c d g k,
    )

-- An answer about an Internet host.
abbrev pub IsInetAnswer : Answer → Type 0
IsInetAnswer (host e) = is_inet e.h_addrtype ≡ true
IsInetAnswer (no_host e) = Unit

-- The hints leave the family open and ask for no canonical name.
pub record IsOpen (h : Hints) : Type 0 where
  pub any_family : h.family ≡ af_unspec
  pub no_canonname : wants_canonname h.flags ≡ false
  pub known_flags : h.flags ≤ 3

-- The name is no address.
pub record IsName (r : Resolver) (name : Bytes) : Type 0 where
  pub not_pton4 : pton4 r name ≡ none
  pub not_pton6 : pton6 r name ≡ none

abbrev pub empty_handed : Build → Found
empty_handed b = record { build = b; canon = none }

-- A part of the loop goes on with more entries.
abbrev Goes : Hints → List Address → Build → Looked → Type 0
Goes h xs b l = (c : Build) × (l ≡ on (empty_handed c)) × Grows h xs b c

pub and_false : (b : Bool) → (b && false) ≡ false
and_false true = refl
and_false false = refl

add_host-Goes :
    (h : Hints) (named : Bool) (e : Hostent) (b : Build)
    → IsOpen h
    → is_inet e.h_addrtype ≡ true
    → 2 * length (of_family e.h_addrtype e.h_addr_list) ≤ b.mem.room
    → Goes h (of_family e.h_addrtype e.h_addr_list) b (add_host h named e (empty_handed b))
unfolding add_host
add_host-Goes h named e b o i n =
    let (c, q, g) = add_all-Grows h e.h_addrtype e.h_addr_list b i n in
    (
      c,
      rw (==_true h.family af_unspec o.any_family)
          (rw (o.no_canonname) (rw (and_false named) (rw q refl))),
      g,
    )

ask-Goes :
    (r : Resolver) (h : Hints) (named : Bool) (s : Search) (b : Build)
    → IsOpen h
    → (a : Answer) → r.gethostbyname2 s.host s.family ≡ a
    → IsInetAnswer a
    → 2 * length (addresses a) ≤ b.mem.room
    → Goes h (addresses a) b (ask r h named true s (empty_handed b))
unfolding ask
ask-Goes r h named s b o (host e) q i n = rw (q, ask) (add_host-Goes h named e b o i n)
ask-Goes r h named s b o (no_host e) q i n = rw (q, ask) (b, refl, Grows-none h b)

look_up-Goes :
    (r : Resolver) (h : Hints) (named : Bool) (s : Search) (b : Build)
    → IsOpen h
    → IsName r s.host
    → IsInetAnswer (r.gethostbyname2 s.host s.family)
    → 2 * length (addresses (r.gethostbyname2 s.host s.family)) ≤ b.mem.room
    → Goes h
        (addresses (r.gethostbyname2 s.host s.family))
        b
        (look_up r h named true s (empty_handed b))
unfolding look_up
look_up-Goes r h named s b o m i n =
    rw (m.not_pton4, look_up) (rw (m.not_pton6, look_up) (ask-Goes r h named s b o _ refl i n))

-- What the resolver has for the name, IPv6 first.
abbrev pub all_addresses : Resolver → Bytes → List Address
all_addresses r name =
    addresses (r.gethostbyname2 name af_inet6) ++ addresses (r.gethostbyname2 name af_inet)

-- The resolver answers about Internet hosts.
pub record IsInetResolver (r : Resolver) (name : Bytes) : Type 0 where
  pub answer4 : IsInetAnswer (r.gethostbyname2 name af_inet)
  pub answer6 : IsInetAnswer (r.gethostbyname2 name af_inet6)

pub look_up_all-Goes :
    (r : Resolver) (h : Hints) (named : Bool) (name : Bytes) (b : Build)
    → IsOpen h
    → IsName r name
    → IsInetResolver r name
    → 2 * length (all_addresses r name) ≤ b.mem.room
    → Goes h
        (all_addresses r name)
        b
        (look_up_all r h named true (searches name name af_unspec) (empty_handed b))
unfolding look_up_all
look_up_all-Goes r h named name b o m i n =
    let l =
      length-append {A = Address} (addresses (r.gethostbyname2 name af_inet6))
        (addresses (r.gethostbyname2 name af_inet)) in
    let (c, e, g) =
      look_up-Goes r h named (record { host = name; family = af_inet6 }) b o m i.answer6
        (omega arith) in
    let (d, f, k) =
      look_up-Goes r h named (record { host = name; family = af_inet }) c o m i.answer4
        (let q = g.room in omega arith) in
    (d, rw (e, look_up_all) (rw (f, look_up_all) refl), Grows-trans h _ _ b c d g k)
