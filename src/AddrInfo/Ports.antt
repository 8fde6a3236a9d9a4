-- ===== src/AddrInfo/Ports.antt =====
-- All the calls of ga_port that ga_serv makes (Lab2017/libgai/ga_serv.c).
use cosc.Prelude.{
  ℕ, ◌*◌, ◌≤◌, ◌≡◌, ◌≢◌, refl, ap, sym, ◌∙◌, true, false, Option, some, List, [], ◌∷◌, ◌++◌, map,
  ◌==◌, if◌then◌else◌, arith, length, Bytes, codes, All, ==_true, ==_false, append-nil, Bool-cases,
  inl, inr,
}
use mathlib.Core.Path.{ap₂, subst}
use native.Mathlib.Decide.{ℕ_discrete}
use cosc.Endpoint.{htons}
use cosc.AddrInfo.{
  sock_stream, sock_dgram, Eai, Hints, Memory, Build, Result, ok, err, Ported, ported,
}
use cosc.AddrInfo.Lookup.{Resolver, is_digit, first}
use cosc.AddrInfo.Service.{
  atoi_from, plus, then_port, try_port, asks, set_ports, to_result, ga_serv,
}
use cosc.AddrInfo.Offers.{plain, Address, Offer, entries, answers, offer_if, offers, IsInet}
use cosc.AddrInfo.Copies.{gen, Sets, two_ports, one_port, entries-gen}

set_ports-unspecified :
    (r : Resolver) (h : Hints) (serv : Bytes) (xs : List Address) (m : Memory)
    → h.socktype ≡ 0
    → All IsInet xs
    → 2 * length xs ≤ m.room
    → Sets h xs (offers r h serv) (set_ports r h serv (map (gen true 0 0 h) xs) m)
unfolding set_ports
set_ports-unspecified r h serv xs m e i n = elim (Bool-cases (is_digit (first serv))) [
  | inl d ↦
      let port = htons (atoi_from 0 serv) in
      rw d (rw (==_true h.socktype 0 e) (two_ports h (some port) (some port) xs m i n))
  | inr d ↦ rw d (
      rw (==_true h.socktype 0 e) (
        two_ports h (r.getservbyname serv (codes "tcp")) (r.getservbyname serv (codes "udp")) xs m i
          n))
]

-- The calls of ga_port for a named service, on entries with the socket type `t`.
abbrev Named : Hints → ℕ → Option ℕ → Option ℕ → List Address → Memory → Type 0
Named h t p q xs m =
    Sets h xs
      (offer_if (asks h sock_stream) sock_stream p ++ offer_if (asks h sock_dgram) sock_dgram q)
      (then_port
        (if asks h sock_stream
          then try_port p sock_stream (map (gen false t 0 h) xs) m
          else ported (map (gen false t 0 h) xs) 0 m)
        (λ bs m'. if asks h sock_dgram then try_port q sock_dgram bs m' else ported bs 0 m'))

last_none :
    (h : Hints) (xs : List Address) (os : List Offer) (p : Ported)
    → Sets h xs os p
    → Sets h xs (os ++ []) (then_port p (λ bs m'. ported bs 0 m'))
last_none h xs os p (ais, m, e, f) = rw (append-nil os) (
  ais,
  m,
  ap (λ r. then_port r (λ bs m'. ported bs 0 m')) e ∙ ap (λ k. ported ais k m) (omega arith),
  f,
)

Named-stream :
    (h : Hints) (p q : Option ℕ) (xs : List Address) (m : Memory)
    → h.socktype ≡ sock_stream
    → All IsInet xs
    → Named h sock_stream p q xs m
Named-stream h p q xs m s i =
    let a : asks h sock_stream ≡ true = ground (arith, s) in
    let b : asks h sock_dgram ≡ false = ground (arith, s) in
    rw a (rw b (last_none h xs (offer_if true sock_stream p) _ (one_port h sock_stream p xs m i)))

Named-dgram :
    (h : Hints) (p q : Option ℕ) (xs : List Address) (m : Memory)
    → h.socktype ≡ sock_dgram
    → All IsInet xs
    → Named h sock_dgram p q xs m
Named-dgram h p q xs m s i =
    let a : asks h sock_stream ≡ false = ground (arith, s) in
    let b : asks h sock_dgram ≡ true = ground (arith, s) in
    let (ais, m', e, f) = one_port h sock_dgram q xs m i in
    rw a (rw b (ais, m', ap (plus 0) e ∙ ap (λ k. ported ais k m') (omega arith), f))

Named-other :
    (h : Hints) (t : ℕ) (p q : Option ℕ) (xs : List Address) (m : Memory)
    → h.socktype ≢ 0
    → h.socktype ≢ sock_stream
    → h.socktype ≢ sock_dgram
    → Named h t p q xs m
Named-other h t p q xs m z s d =
    let a : asks h sock_stream ≡ false = ground (arith, z, s) in
    let b : asks h sock_dgram ≡ false = ground (arith, z, d) in
    rw a (
      rw b (
        map (gen false t 0 h) xs,
        m,
        ap (λ k. ported (map (gen false t 0 h) xs) k m) (omega arith),
        λ n. absurd (n refl),
      ))

named_lem :
    (h : Hints) (p q : Option ℕ) (xs : List Address) (m : Memory)
    → h.socktype ≢ 0
    → All IsInet xs
    → Named h h.socktype p q xs m
named_lem h p q xs m z i = elim (ℕ_discrete h.socktype sock_stream) [
  | yes s ↦ subst (λ t. Named h t p q xs m) (sym s) (Named-stream h p q xs m s i)
  | no ns ↦ elim (ℕ_discrete h.socktype sock_dgram) [
    | yes d ↦ subst (λ t. Named h t p q xs m) (sym d) (Named-dgram h p q xs m d i)
    | no nd ↦ Named-other h h.socktype p q xs m z ns nd
  ]
]

set_ports-specified :
    (r : Resolver) (h : Hints) (serv : Bytes) (xs : List Address) (m : Memory)
    → h.socktype ≢ 0
    → All IsInet xs
    → Sets h xs (offers r h serv) (set_ports r h serv (map (gen false h.socktype 0 h) xs) m)
unfolding set_ports
set_ports-specified r h serv xs m e i = elim (Bool-cases (is_digit (first serv))) [
  | inl d ↦ rw d (
      rw (==_false h.socktype 0 e) (one_port h h.socktype (some (htons (atoi_from 0 serv))) xs m i))
  | inr d ↦ rw d (
      named_lem h (r.getservbyname serv (codes "tcp")) (r.getservbyname serv (codes "udp")) xs m e
        i)
]

set_ports_lem :
    (r : Resolver) (h : Hints) (serv : Bytes) (xs : List Address) (m : Memory)
    → All IsInet xs
    → 2 * length xs ≤ m.room
    → Sets h xs (offers r h serv) (set_ports r h serv (entries h xs) m)
set_ports_lem r h serv xs m i n =
    subst (λ l. Sets h xs (offers r h serv) (set_ports r h serv l m)) (sym (entries-gen h xs))
      (elim (ℕ_discrete h.socktype 0) [
        | yes z ↦
            subst (λ l. Sets h xs (offers r h serv) (set_ports r h serv l m))
              (ap₂ (λ c t. map (gen c t 0 h) xs) (sym (==_true _ _ z)) (sym z))
              (set_ports-unspecified r h serv xs m z i n)
        | no z ↦
            subst
              (λ c.
                Sets h xs (offers r h serv) (set_ports r h serv (map (gen c h.socktype 0 h) xs) m))
              (sym (==_false _ _ z)) (set_ports-specified r h serv xs m z i)
      ])

-- The code for a service that is not there.
abbrev pub no_service : Hints → Eai
no_service h = if h.socktype == 0 then Eai.noname else Eai.service

no_offers :
    (h : Hints) (b : Build) (p : Ported) (xs : List Address)
    → Sets h xs [] p
    → (c : Build) × (to_result h b p ≡ err (no_service h) c)
no_offers h b p xs (ais, m, e, f) =
    let z : length xs * 0 ≡ 0 = omega arith in
    (record b { list = ais; mem = m }, rw e (rw (==_true _ _ z) refl))

some_offers :
    (h : Hints) (b : Build) (p : Ported) (a : Address) (xs : List Address) (o : Offer)
    (os : List Offer)
    → Sets h (a ∷ xs) (o ∷ os) p
    → (c : Build) × (to_result h b p ≡ ok c) × (map plain c.list ≡ answers h (a ∷ xs) (o ∷ os))
some_offers h b p a xs o os (ais, m, e, f) =
    let n : length (a ∷ xs) * length (o ∷ os) ≢ 0 = (λ z. grind arith) in
    (record b { list = ais; mem = m }, rw e (rw (==_false _ _ n) refl), f (λ (q : o ∷ os ≡ []). cc))

-- What ga_serv comes to on the entries for some addresses, by the offers of the service.
abbrev pub Served : Hints → List Address → List Offer → Result → Type 0
Served h xs [] r = (c : Build) × (r ≡ err (no_service h) c)
Served h xs (o ∷ os) r = (c : Build) × (r ≡ ok c) × (map plain c.list ≡ answers h xs (o ∷ os))

served :
    (h : Hints) (b : Build) (p : Ported) (a : Address) (xs : List Address) (os : List Offer)
    → Sets h (a ∷ xs) os p
    → Served h (a ∷ xs) os (to_result h b p)
served h b p a xs [] s = no_offers h b p (a ∷ xs) s
served h b p a xs (o ∷ os) s = some_offers h b p a xs o os s

pub ga_serv_lem :
    (r : Resolver) (h : Hints) (serv : Bytes) (b : Build) (a : Address) (xs : List Address)
    → b.list ≡ entries h (a ∷ xs)
    → All IsInet (a ∷ xs)
    → 2 * length (a ∷ xs) ≤ b.mem.room
    → Served h (a ∷ xs) (offers r h serv) (ga_serv r h serv b)
unfolding ga_serv
ga_serv_lem r h serv b a xs e i n = served h b _ a xs _ (
    subst (λ l. Sets h (a ∷ xs) (offers r h serv) (set_ports r h serv l b.mem)) (sym e)
      (set_ports_lem r h serv (a ∷ xs) b.mem i n))
