-- ===== src/AddrInfo/PortBlocks.antt =====
-- The blocks that ga_port and ga_serv allocate (Lab2017/libgai/ga_port.c, ga_clone.c, ga_serv.c).
use cosc.Prelude.{
  ℕ, ◌+◌, ◌≡◌, refl, Bool, true, false, Option, none, some, List, [], ◌∷◌, ◌==◌, if◌then◌else◌,
  arith, Bytes, codes, Bool-cases, inl, inr,
}
use cosc.Endpoint.{htons}
use cosc.AddrInfo.{
  sock_stream, sock_dgram, Hints, Addrinfo, Memory, blocks, all_blocks, Build, Ported, ported,
  no_memory, Cloned, cloned, half, not_cloned, before, ga_clone, ga_port, is_inet, set_port, counts,
}
use cosc.AddrInfo.Lookup.{Resolver, is_digit, first}
use cosc.AddrInfo.Service.{
  atoi_from, plus, then_port, try_port, asks, set_ports, to_result, ga_serv,
}
use cosc.AddrInfo.Blocks.{fails, gives, Alloc-cases, build_of}

-- ga_port adds as many blocks as its entries have more.
abbrev pub Adds : List Addrinfo → Memory → Ported → Type 0
Adds ais m (ported bs n m') = m'.live + all_blocks ais ≡ m.live + all_blocks bs
Adds ais m (no_memory bs m') = m'.live + all_blocks ais ≡ m.live + all_blocks bs

before-Adds :
    (ai bi : Addrinfo) (n : ℕ) (ais : List Addrinfo) (m : Memory) (p : Ported)
    → blocks bi ≡ blocks ai
    → Adds ais m p
    → Adds (ai ∷ ais) m (before bi n p)
before-Adds ai bi n ais m (ported bs k m') e a = omega (arith, a, e)
before-Adds ai bi n ais m (no_memory bs m') e a = omega (arith, a, e)

set_port-blocks : (port type : ℕ) (ai : Addrinfo) → blocks (set_port port type ai) ≡ blocks ai
set_port-blocks port type ai = elim (Bool-cases (is_inet ai.family)) [
  | inl e ↦ rw e refl
  | inr e ↦ rw e refl
]

-- What a copy takes.
abbrev CloneTakes : Memory → Cloned → Type 0
CloneTakes m (cloned new m') = m'.live ≡ m.live + blocks new
CloneTakes m (half new m') = m'.live ≡ m.live + blocks new
CloneTakes m not_cloned = Unit

ga_clone-takes : (ai : Addrinfo) (m : Memory) → CloneTakes m (ga_clone ai m)
unfolding ga_clone
ga_clone-takes ai m = elim (Alloc-cases m) [
  | fails e ↦ rw (e, ga_clone) tt
  | gives m1 l e ↦
      rw (e, ga_clone)
        (elim (Alloc-cases m1) [
          | fails f ↦ rw (f, ga_clone) (omega arith)
          | gives m2 k f ↦ rw (f, ga_clone) (omega arith)
        ])
]

after_clone :
    (ai new : Addrinfo) (ais : List Addrinfo) (m m' : Memory) (p : Ported)
    → m'.live ≡ m.live + blocks new
    → Adds (new ∷ ais) m' p
    → Adds (ai ∷ ais) m (before ai 0 p)
after_clone ai new ais m m' (ported bs k q) e a = omega (arith, a, e)
after_clone ai new ais m m' (no_memory bs q) e a = omega (arith, a, e)

choose :
    (P : Ported → Type 0) (b : Bool) (x y : Ported)
    → P x
    → P y
    → P (elim b [ true ↦ x | false ↦ y ])
choose P true x y p q = p
choose P false x y p q = q

-- An entry that a service has used already.
used_entry :
    (ai : Addrinfo) (ais : List Addrinfo) (port type : ℕ) (m : Memory) (c : Cloned)
    → CloneTakes m c
    → ((m' : Memory) → Adds ais m' (ga_port ais port type m'))
    → Adds (ai ∷ ais) m (elim c [
      | not_cloned ↦ no_memory (ai ∷ ais) m
      | half new m' ↦ no_memory (ai ∷ new ∷ ais) m'
      | cloned new m' ↦
          before ai 0 (before (set_port port type new) (counts new) (ga_port ais port type m'))
    ])
used_entry ai ais port type m not_cloned k rest = refl
used_entry ai ais port type m (half new m') k rest = omega (arith, k)
used_entry ai ais port type m (cloned new m') k rest = after_clone ai new ais m m' _ k (
    before-Adds new (set_port port type new) (counts new) ais m' _ (set_port-blocks port type new)
      (rest m'))

ga_port-Adds :
    (ais : List Addrinfo) (port type : ℕ) (m : Memory) → Adds ais m (ga_port ais port type m)
unfolding ga_port
ga_port-Adds [] port type m = refl
ga_port-Adds (ai ∷ ais) port type m =
    let rest = ga_port-Adds ais port type m in
    let set =
      before-Adds ai (set_port port type ai) (counts ai) ais m (ga_port ais port type m)
        (set_port-blocks port type ai) rest in
    choose (Adds (ai ∷ ais) m) ai.clone _ _
      (choose (Adds (ai ∷ ais) m) (ai.socktype == 0) _ _ set (
        used_entry ai ais port type m (ga_clone ai m) (ga_clone-takes ai m)
          (λ m'. ga_port-Adds ais port type m')))
      (choose (Adds (ai ∷ ais) m) (ai.socktype == type) _ _ set
        (before-Adds ai ai 0 ais m _ refl rest))

choose_if : (P : Ported → Type 0) (b : Bool) (x y : Ported) → P x → P y → P (if b then x else y)
choose_if P true x y p q = p
choose_if P false x y p q = q

plus-Adds :
    (ais : List Addrinfo) (m : Memory) (n : ℕ) (p : Ported) → Adds ais m p → Adds ais m (plus n p)
plus-Adds ais m n (ported bs k m') a = a
plus-Adds ais m n (no_memory bs m') a = a

Adds-trans :
    (ais bs : List Addrinfo) (m m' : Memory) (p : Ported)
    → m'.live + all_blocks ais ≡ m.live + all_blocks bs
    → Adds bs m' p
    → Adds ais m p
Adds-trans ais bs m m' (ported cs k q) e a = omega (arith, e, a)
Adds-trans ais bs m m' (no_memory cs q) e a = omega (arith, e, a)

then_port-Adds :
    (ais : List Addrinfo) (m : Memory) (p : Ported) (f : List Addrinfo → Memory → Ported)
    → Adds ais m p
    → ((bs : List Addrinfo) (m' : Memory) → Adds bs m' (f bs m'))
    → Adds ais m (then_port p f)
then_port-Adds ais m (ported bs k m') f a g =
    plus-Adds ais m k (f bs m') (Adds-trans ais bs m m' (f bs m') a (g bs m'))
then_port-Adds ais m (no_memory bs m') f a g = a

try_port-Adds :
    (port : Option ℕ) (type : ℕ) (ais : List Addrinfo) (m : Memory)
    → Adds ais m (try_port port type ais m)
try_port-Adds none type ais m = refl
try_port-Adds (some port) type ais m = ga_port-Adds ais port type m

set_ports-Adds :
    (r : Resolver) (h : Hints) (serv : Bytes) (ais : List Addrinfo) (m : Memory)
    → Adds ais m (set_ports r h serv ais m)
unfolding set_ports
set_ports-Adds r h serv ais m =
    let port = htons (atoi_from 0 serv) in
    choose_if (Adds ais m) (is_digit (first serv)) _ _
      (choose_if (Adds ais m) (h.socktype == 0) _ _
        (then_port-Adds ais m (ga_port ais port sock_stream m)
          (λ bs m'. ga_port bs port sock_dgram m') (ga_port-Adds ais port sock_stream m)
          (λ bs m'. ga_port-Adds bs port sock_dgram m'))
        (ga_port-Adds ais port h.socktype m))
      (then_port-Adds ais m _ _
        (choose_if (Adds ais m) (asks h sock_stream) _ _
          (try_port-Adds (r.getservbyname serv (codes "tcp")) sock_stream ais m) refl)
        (λ bs m'.
          choose_if (Adds bs m') (asks h sock_dgram) _ _
            (try_port-Adds (r.getservbyname serv (codes "udp")) sock_dgram bs m') refl))

-- The blocks in use are some others and those of the list.
abbrev pub IsLive : ℕ → Build → Type 0
IsLive base b = b.mem.live ≡ base + all_blocks b.list

to_result-IsLive :
    (base : ℕ) (h : Hints) (b : Build) (p : Ported)
    → IsLive base b
    → Adds b.list b.mem p
    → IsLive base (build_of (to_result h b p))
to_result-IsLive base h b (no_memory ais m) e a = omega (arith, e, a)
to_result-IsLive base h b (ported ais n m) e a = elim (Bool-cases (n == 0)) [
  | inl z ↦ rw z (omega (arith, e, a))
  | inr z ↦ rw z (omega (arith, e, a))
]

pub ga_serv-IsLive :
    (base : ℕ) (r : Resolver) (h : Hints) (serv : Bytes) (b : Build)
    → IsLive base b
    → IsLive base (build_of (ga_serv r h serv b))
unfolding ga_serv
ga_serv-IsLive base r h serv b e =
    to_result-IsLive base h b (set_ports r h serv b.list b.mem) e
      (set_ports-Adds r h serv b.list b.mem)
