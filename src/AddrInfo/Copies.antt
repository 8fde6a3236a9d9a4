-- ===== src/AddrInfo/Copies.antt =====
-- The entries that ga_port makes and completes, call by call (Lab2017/libgai/ga_port.c, ga_clone.c).
use cosc.Prelude.{
  ℕ, suc, ◌+◌, ◌-◌, ◌*◌, ◌≤◌, ◌<◌, ◌≡◌, ◌≢◌, refl, ap, ◌∙◌, Bool, true, false, Option, none, some,
  List, [], ◌∷◌, ◌++◌, map, ◌==◌, arith, length, All, ==_true, ==_false,
}
use mathlib.Core.Path.{ap₂}
use cosc.AddrInfo.{
  sock_stream, sock_dgram, Hints, Addrinfo, Memory, alloc, Ported, ported, before, ga_clone, cloned,
  ga_port, set_port, counts,
}
use cosc.AddrInfo.Service.{plus, then_port, try_port}
use cosc.AddrInfo.Offers.{
  plain, Address, Offer, entry, entries, one_answer, answers, offer_if, IsInet,
}

pub alloc-some :
    (m : Memory) → 0 < m.room → alloc m ≡ some (record { room = m.room - 1; live = suc m.live })
unfolding alloc
alloc-some m h = ground arith

-- An entry for an address, with its flag, its socket type and its port.
abbrev pub gen : Bool → ℕ → ℕ → Hints → Address → Addrinfo
gen c type port h a = record {
  clone = c;
  family = a.0;
  socktype = type;
  protocol = h.protocol;
  canonname = none;
  addr = some a.1;
  port = port;
}

-- Two entries for each address, the second a copy.
abbrev pub both : Offer → Offer → Hints → List Address → List Addrinfo
both o q h [] = []
both o q h (a ∷ xs) = gen true o.0 o.1 h a ∷ gen false q.0 q.1 h a ∷ both o q h xs

set_port-gen :
    (c : Bool) (s p port type : ℕ) (h : Hints) (a : Address)
    → IsInet a
    → set_port port type (gen c s p h a) ≡ gen c type port h a
set_port-gen c s p port type h a i = rw i refl

counts-gen : (c : Bool) (s p : ℕ) (h : Hints) (a : Address) → IsInet a → counts (gen c s p h a) ≡ 1
counts-gen c s p h a i = rw i refl

before-ported :
    {ai bi : Addrinfo} {n k : ℕ} {ais : List Addrinfo} {m : Memory} (r : Ported)
    → ai ≡ bi
    → n ≡ 1
    → r ≡ ported ais k m
    → before ai n r ≡ ported (bi ∷ ais) (suc k) m
before-ported {ai} {bi} {n} {k} {ais} {m} r e f g =
    rw g (ap₂ (λ x y. ported (x ∷ ais) y m) e (omega (arith, f)))

-- The first service sets every entry.
port_fresh :
    (h : Hints) (port type : ℕ) (xs : List Address) (m : Memory)
    → All IsInet xs
    → ga_port (map (gen true 0 0 h) xs) port type m
      ≡ ported (map (gen true type port h) xs) (length xs) m
unfolding ga_port
port_fresh h port type [] m i = refl
port_fresh h port type (a ∷ xs) m i =
    before-ported _ (set_port-gen true 0 0 port type h a i.0) (counts-gen true 0 0 h a i.0)
      (port_fresh h port type xs m i.1)

-- Where the caller gives the socket type, the entries have it.
port_match :
    (h : Hints) (port type : ℕ) (xs : List Address) (m : Memory)
    → All IsInet xs
    → ga_port (map (gen false type 0 h) xs) port type m
      ≡ ported (map (gen false type port h) xs) (length xs) m
unfolding ga_port
port_match h port type [] m i = refl
port_match h port type (a ∷ xs) m i =
    rw (==_true type type refl, ga_port)
      (before-ported _ (set_port-gen false type 0 port type h a i.0)
        (counts-gen false type 0 h a i.0) (port_match h port type xs m i.1))

ga_clone-gen :
    (s p : ℕ) (h : Hints) (a : Address) (m : Memory)
    → 2 ≤ m.room
    → ga_clone (gen true s p h a) m
      ≡ cloned (gen false s p h a) (record { room = m.room - 2; live = m.live + 2 })
unfolding ga_clone alloc
ga_clone-gen s p h a m r = ground arith

-- Another service makes a copy of every entry.
port_again :
    (h : Hints) (o : Offer) (port type : ℕ) (xs : List Address) (m : Memory)
    → o.0 ≢ 0
    → All IsInet xs
    → 2 * length xs ≤ m.room
    → (m' : Memory) × (ga_port (map (gen true o.0 o.1 h) xs) port type m
        ≡ ported (both o (type, port) h xs) (length xs) m')
unfolding ga_port
port_again h o port type [] m n i r = (m, refl)
port_again h o port type (a ∷ xs) m n i r =
    let m2 : Memory = record { room = m.room - 2; live = m.live + 2 } in
    let (m', e) = port_again h o port type xs m2 n i.1 (omega arith) in
    (
      m',
      rw (==_false o.0 0 n, ga_port)
          (rw (ga_clone-gen o.0 o.1 h a m (omega arith), ga_port)
            (ap (before (gen true o.0 o.1 h a) 0) (
                before-ported _ (set_port-gen false o.0 o.1 port type h a i.0)
                  (counts-gen false o.0 o.1 h a i.0) e)
              ∙ ap (λ k. ported (both o (type, port) h (a ∷ xs)) k m') (omega arith))),
    )

plain-gen :
    (c : Bool) (type port : ℕ) (h : Hints) (xs : List Address)
    → map plain (map (gen c type port h) xs) ≡ answers h xs ((type, port) ∷ [])
plain-gen c type port h [] = refl
plain-gen c type port h (a ∷ xs) =
    ap (◌∷◌ (one_answer h a (type, port))) (plain-gen c type port h xs)

plain-both :
    (o q : Offer) (h : Hints) (xs : List Address)
    → map plain (both o q h xs) ≡ answers h xs (o ∷ q ∷ [])
plain-both o q h [] = refl
plain-both o q h (a ∷ xs) = ap (λ l. one_answer h a o ∷ one_answer h a q ∷ l) (plain-both o q h xs)

-- The ports are set for these offers; without one, nothing is found.
abbrev pub Sets : Hints → List Address → List Offer → Ported → Type 0
Sets h xs os r =
    (ais : List Addrinfo) × (m : Memory) × (r ≡ ported ais (length xs * length os) m)
    × (os ≢ [] → map plain ais ≡ answers h xs os)

pub two_ports :
    (h : Hints) (p q : Option ℕ) (xs : List Address) (m : Memory)
    → All IsInet xs
    → 2 * length xs ≤ m.room
    → Sets h xs (offer_if true sock_stream p ++ offer_if true sock_dgram q) (
        then_port
          (try_port p sock_stream (map (gen true 0 0 h) xs) m)
          (λ bs m'. try_port q sock_dgram bs m'))
two_ports h none none xs m i r =
    (_, _, ap (λ k. ported (map (gen true 0 0 h) xs) k m) (omega arith), λ n. absurd (n refl))
two_ports h none (some q) xs m i r = (
  _,
  m,
  ap (plus 0) (port_fresh h q sock_dgram xs m i)
      ∙ ap (λ k. ported (map (gen true sock_dgram q h) xs) k m) (omega arith),
  λ n. plain-gen true sock_dgram q h xs,
)
two_ports h (some p) none xs m i r = (
  _,
  m,
  ap (λ r. then_port r (λ bs m'. ported bs 0 m')) (port_fresh h p sock_stream xs m i)
      ∙ ap (λ k. ported (map (gen true sock_stream p h) xs) k m) (omega arith),
  λ n. plain-gen true sock_stream p h xs,
)
two_ports h (some p) (some q) xs m i r =
    let (m', e) = port_again h (sock_stream, p) q sock_dgram xs m (omega arith) i r in
    (
      _,
      m',
      ap (λ r. then_port r (λ bs m'. ga_port bs q sock_dgram m'))
            (port_fresh h p sock_stream xs m i)
          ∙ ap (plus (length xs)) e
          ∙ ap (λ k. ported (both (sock_stream, p) (sock_dgram, q) h xs) k m') (omega arith),
      λ n. plain-both (sock_stream, p) (sock_dgram, q) h xs,
    )

pub one_port :
    (h : Hints) (type : ℕ) (p : Option ℕ) (xs : List Address) (m : Memory)
    → All IsInet xs
    → Sets h xs (offer_if true type p) (try_port p type (map (gen false type 0 h) xs) m)
one_port h type none xs m i =
    (_, _, ap (λ k. ported (map (gen false type 0 h) xs) k m) (omega arith), λ n. absurd (n refl))
one_port h type (some p) xs m i = (
  _,
  m,
  rw (port_match h p type xs m i)
      (ap (λ k. ported (map (gen false type p h) xs) k m) (omega arith)),
  λ n. plain-gen false type p h xs,
)

pub entries-gen :
    (h : Hints) (xs : List Address) → entries h xs ≡ map (gen (h.socktype == 0) h.socktype 0 h) xs
entries-gen h [] = refl
entries-gen h (a ∷ xs) = ap (◌∷◌ (entry h a)) (entries-gen h xs)
