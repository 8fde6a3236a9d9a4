-- ===== src/AddrInfo/RoundTrip.antt =====
-- From an IPv4 address to its numeric names, and back (Lab2017/libgai/getnameinfo.c, getaddrinfo.c).
use cosc.Prelude.{
  ℕ, ◌+◌, ◌-◌, ◌≤◌, ◌<◌, ◌≡◌, refl, ap, sym, ◌∙◌, true, false, Option, none, some, List, [], ◌∷◌,
  ◌++◌, map, ◌==◌, if◌then◌else◌, not, arith, length, length-decimal, take_all, Bytes, decimal,
  ==_true, lt→ltb, Bool-cases, inl, inr,
}
use mathlib.Core.Path.{subst}
use cosc.Endpoint.{htons}
use cosc.AddrInfo.{
  af_unspec, af_inet, sock_stream, sock_dgram, sock_raw, Hints, Addrinfo, Memory, Build,
  wants_canonname,
}
use cosc.AddrInfo.Lookup.{
  Resolver, on, is_digit, first, ga_echeck, ga_nsearch, searches, pton4, add_numeric, look_up,
  look_up_all,
}
use cosc.AddrInfo.Service.{Outcome, found, unix_path, resolve, getaddrinfo}
use cosc.AddrInfo.Names.{Directory, sin, numeric_host, host_part, serv_part, gn_ipv46, getnameinfo}
use cosc.AddrInfo.Offers.{plain, Address, Offer, entry, entries, answers, offers}
use cosc.AddrInfo.Ports.{ga_serv_lem}
use cosc.AddrInfo.Grows.{and_false, ga_aistruct-Grows, empty_handed}
use cosc.AddrInfo.Search.{with_list, Concludes, finish-Concludes, complete-finish}
use cosc.AddrInfo.Numeric.{htons-htons, htons-lt, atoi-decimal, first-decimal}

-- inet_pton reads what inet_ntop has printed, and that begins with a digit.
pub record Prints (n : Directory) (r : Resolver) (addr host : Bytes) : Type 0 where
  pub printed : n.inet_ntop af_inet addr ≡ some host
  pub parsed : r.inet_pton4 host ≡ some addr
  pub begins : is_digit (first host) ≡ true

-- Hints for an IPv4 socket of a type that is known, or of any type, without a canonical name.
pub record IsIpv4 (h : Hints) : Type 0 where
  pub ipv4 : h.family ≡ af_inet
  pub no_canonname : wants_canonname h.flags ≡ false
  pub known_flags : h.flags ≤ 3
  pub known_type : h.socktype ≤ sock_raw

IsIpv4-passes :
    (h : Hints) (c : ℕ) (cs : Bytes) (serv : Option Bytes)
    → IsIpv4 h
    → ga_echeck (some (c ∷ cs)) serv h ≡ none
unfolding ga_echeck
IsIpv4-passes h c cs serv i =
    let f = i.ipv4 in let k = i.known_flags in let s = i.known_type in ground arith

-- One port, for the socket type of the hints or for both.
abbrev pub same_port : Hints → ℕ → List Offer
same_port h port =
    if h.socktype == 0
    then (sock_stream, port) ∷ (sock_dgram, port) ∷ []
    else (h.socktype, port) ∷ []

offers-decimal :
    (r : Resolver) (h : Hints) (port : ℕ)
    → port < 65536
    → offers r h (decimal (htons port)) ≡ same_port h port
offers-decimal r h port p =
    rw (first-decimal (htons port)) (rw (atoi-decimal (htons port)) (rw (htons-htons port p) refl))

find_numeric :
    (r : Resolver) (h : Hints) (host addr : Bytes) (b : Build)
    → h.family ≡ af_inet
    → r.inet_pton4 host ≡ some addr
    → is_digit (first host) ≡ true
    → b.list ≡ []
    → 2 ≤ b.mem.room
    → (c : Build) × (look_up_all r h true false (searches host host af_inet) (empty_handed b)
        ≡ on (empty_handed c))
      × (c.list ≡ entries h ((af_inet, addr) ∷ []))
      × (c.mem.room + 2 ≡ b.mem.room)
unfolding look_up_all look_up add_numeric
find_numeric r h host addr b f q d e n =
    let (c, k, g) = ga_aistruct-Grows h (af_inet, addr) b refl n in
    let p : pton4 r host ≡ some addr = rw d q in
    (
      c,
      rw (p, look_up_all)
          (rw (==_true h.family af_inet f) rw (and_false (not (h.family == af_unspec)), look_up)
            (rw k refl)),
      g.list ∙ ap (λ l. l ++ entries h ((af_inet, addr) ∷ [])) e,
      omega (arith, g.room),
    )

no_path :
    (c : ℕ) (cs : Bytes) (d : ℕ) (ds : Bytes)
    → is_digit d ≡ true
    → unix_path (some (c ∷ cs)) (some (d ∷ ds)) ≡ none
no_path c cs d ds e = let s : (d == 47) ≡ false = ground (arith, e) in rw s (rw (and_false _) refl)

resolve_numeric :
    (r : Resolver) (h : Hints) (c : ℕ) (cs : Bytes) (d : ℕ) (ds : Bytes) (addr : Bytes) (b : Build)
    → IsIpv4 h
    → is_digit c ≡ true
    → r.inet_pton4 (c ∷ cs) ≡ some addr
    → b.list ≡ []
    → 4 ≤ b.mem.room
    → Concludes h
        ((af_inet, addr) ∷ [])
        (offers r h (d ∷ ds))
        (resolve r h (some (c ∷ cs)) (some (d ∷ ds)) (searches (c ∷ cs) (c ∷ cs) af_inet) b)
unfolding resolve
resolve_numeric r h c cs d ds addr b i e q z n =
    let x : Address = (af_inet, addr) in
    let (g, k, l, w) = find_numeric r h (c ∷ cs) addr b i.ipv4 q e z (omega arith) in
    let done =
      ga_serv_lem r h (d ∷ ds) (with_list (entries h (x ∷ [])) g) x [] refl (refl, tt)
        (omega arith) in
    rw (k ∙ ap (λ l. on (empty_handed (with_list l g))) l) (
      rw (complete-finish r h true d ds (c ∷ cs) g (entry h x) [] i.no_canonname)
        (finish-Concludes h (x ∷ []) _ _ done))

-- getaddrinfo for a numeric IPv4 address and a service of any kind.
numeric-Concludes :
    (r : Resolver) (h : Hints) (c : ℕ) (cs : Bytes) (d : ℕ) (ds : Bytes) (addr : Bytes) (m : Memory)
    → IsIpv4 h
    → is_digit c ≡ true
    → is_digit d ≡ true
    → r.inet_pton4 (c ∷ cs) ≡ some addr
    → 4 ≤ m.room
    → Concludes h
        ((af_inet, addr) ∷ [])
        (offers r h (d ∷ ds))
        (getaddrinfo r (some (c ∷ cs)) (some (d ∷ ds)) h m)
unfolding getaddrinfo ga_nsearch
numeric-Concludes r h c cs d ds addr m i e f q n =
    let b : Build = record { list = []; mem = m; unlinked = [] } in
    rw (IsIpv4-passes h c cs (some (d ∷ ds)) i, getaddrinfo)
      (rw (no_path c cs d ds f, getaddrinfo)
        (subst
          (λ fam.
            Concludes h ((af_inet, addr) ∷ []) (offers r h (d ∷ ds))
              (resolve r h (some (c ∷ cs)) (some (d ∷ ds)) (searches (c ∷ cs) (c ∷ cs) fam) b))
          (sym i.ipv4) (resolve_numeric r h c cs d ds addr b i e q refl n)))

-- A host and a service that begin with digits.
parse_numeric :
    (r : Resolver) (h : Hints) (name serv addr : Bytes) (m : Memory)
    → IsIpv4 h
    → is_digit (first name) ≡ true
    → is_digit (first serv) ≡ true
    → r.inet_pton4 name ≡ some addr
    → 4 ≤ m.room
    → Concludes h
        ((af_inet, addr) ∷ [])
        (offers r h serv)
        (getaddrinfo r (some name) (some serv) h m)
parse_numeric r h [] serv addr m i e f q n = absurd cc
parse_numeric r h (c ∷ cs) [] addr m i e f q n = absurd cc
parse_numeric r h (c ∷ cs) (d ∷ ds) addr m i e f q n =
    numeric-Concludes r h c cs d ds addr m i e f q n

-- What getaddrinfo finds for some addresses, when there are offers.
abbrev pub Finds : Hints → List Address → List Offer → Outcome → Type 0
Finds h xs os r =
    (ais : List Addrinfo) × (m : Memory) × (r ≡ found ais m) × (map plain ais ≡ answers h xs os)

same_port-Finds :
    (h : Hints) (port : ℕ) (xs : List Address) (r : Outcome)
    → Concludes h xs (same_port h port) r
    → Finds h xs (same_port h port) r
same_port-Finds h port xs r k = elim (Bool-cases (h.socktype == 0)) [
  | inl e ↦ rw e (
      subst
        (λ b.
          Concludes h xs
            (if b then (sock_stream, port) ∷ (sock_dgram, port) ∷ [] else (h.socktype, port) ∷ [])
            r)
        e k)
  | inr e ↦ rw e (
      subst
        (λ b.
          Concludes h xs
            (if b then (sock_stream, port) ∷ (sock_dgram, port) ∷ [] else (h.socktype, port) ∷ [])
            r)
        e k)
]

getnameinfo_numeric :
    (n : Directory) (addr host : Bytes) (port hostlen servlen : ℕ)
    → n.inet_ntop af_inet addr ≡ some host
    → length host < hostlen
    → length (decimal (htons port)) < servlen
    → getnameinfo n (sin addr port) hostlen servlen 10
      ≡ some (some host, some (decimal (htons port)))
unfolding getnameinfo gn_ipv46 host_part serv_part numeric_host
getnameinfo_numeric n addr host port hostlen servlen p a b =
    rw (lt→ltb 0 hostlen (omega (arith, a)), gn_ipv46)
      (rw (p, gn_ipv46)
        (rw (lt→ltb _ _ a, gn_ipv46)
          (rw (lt→ltb 0 servlen (omega (arith, b)), gn_ipv46)
            (ap (λ s. some (some host, some s))
              (take_all (servlen - 1) (decimal (htons port)) (omega (arith, b)))))))

-- What getnameinfo prints with NI_NUMERICHOST and NI_NUMERICSERV for an IPv4 address and a port, into
-- buffers with room for it, getaddrinfo takes back: asked for that host and service with hints for IPv4, it
-- finds that address with that port, for the socket type of the hints or for both.
pub numeric_round_trip :
    (n : Directory) (r : Resolver) (h : Hints) (addr host : Bytes) (port hostlen servlen : ℕ)
    (m : Memory)
    → Prints n r addr host
    → IsIpv4 h
    → port < 65536
    → length host < hostlen
    → 6 ≤ servlen
    → 4 ≤ m.room
    → (serv : Bytes) × (getnameinfo n (sin addr port) hostlen servlen 10
        ≡ some (some host, some serv))
      × Finds h
          ((af_inet, addr) ∷ [])
          (same_port h port)
          (getaddrinfo r (some host) (some serv) h m)
numeric_round_trip n r h addr host port hostlen servlen m p i w a b q =
    let serv = decimal (htons port) in
    (
      serv,
      getnameinfo_numeric n addr host port hostlen servlen p.printed a (
          let l = length-decimal (htons port) 4 (let k = htons-lt port in omega arith) in
          omega (arith, l, b)),
      same_port-Finds h port ((af_inet, addr) ∷ []) _ (
          subst
            (λ os.
              Concludes h ((af_inet, addr) ∷ []) os (getaddrinfo r (some host) (some serv) h m))
            (offers-decimal r h port w)
            (parse_numeric r h host serv addr m i p.begins (first-decimal (htons port)) p.parsed
              q)),
    )
