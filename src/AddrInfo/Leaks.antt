-- ===== src/AddrInfo/Leaks.antt =====
-- The memory of getaddrinfo (Lab2017/libgai/getaddrinfo.c) as a whole: what is in use behind it.
use cosc.Prelude.{
  ℕ, ◌+◌, ◌≤◌, ◌≡◌, refl, ap, Bool, true, false, Option, none, some, List, [], ◌∷◌, not, arith,
  Bytes,
}
use cosc.AddrInfo.{Eai, Hints, Addrinfo, Memory, one_if, all_blocks, Build, Result, ok, err}
use cosc.AddrInfo.Lookup.{Resolver, Search, Found, Looked, on, bad, is_empty, ga_echeck, ga_nsearch}
use cosc.AddrInfo.Service.{
  give_up, Outcome, found, error, quits, finish, ga_serv, set_canonname, name_first, add_service,
  complete, several, unix_path, resolve, getaddrinfo,
}
use cosc.AddrInfo.Blocks.{Alloc, fails, gives, Alloc-cases, freeaddrinfo-live, IsUnnamed, build_of}
use cosc.AddrInfo.PortBlocks.{IsLive, ga_serv-IsLive}
use cosc.AddrInfo.Saved.{found_of, one_name, Holds, wants_name, look_up_all-Holds}

-- What is in use behind getaddrinfo: the list that it returns; on an error nothing, or one canonical name
-- where that is wanted; and nothing where the process ends.
abbrev pub Settles : Bool → ℕ → Outcome → Type 0
Settles wanted base (found ais m) = m.live ≡ base + all_blocks ais
Settles wanted base (error e m) = (k : ℕ) × (k ≤ one_name wanted) × (m.live ≡ base + k)
Settles wanted base (quits m) = m.live ≡ base

give_up-Settles :
    (wanted : Bool) (base n : ℕ) (e : Eai) (b : Build)
    → n ≤ one_name wanted
    → IsLive (base + n) b
    → Settles wanted base (give_up e b)
unfolding give_up
give_up-Settles wanted base n e b s l = (n, s, omega (arith, freeaddrinfo-live b.list b.mem, l))

finish-Settles :
    (wanted : Bool) (base : ℕ) (r : Result)
    → IsLive base (build_of r)
    → Settles wanted base (finish r)
finish-Settles wanted base (ok b) l = l
finish-Settles wanted base (err e b) l =
    give_up-Settles wanted base 0 e b (omega arith) (omega (arith, l))

add_service-Settles :
    (wanted : Bool) (base : ℕ) (r : Resolver) (h : Hints) (servname : Option Bytes) (b : Build)
    → IsLive base b
    → Settles wanted base (add_service r h servname b)
unfolding add_service
add_service-Settles wanted base r h none b l = l
add_service-Settles wanted base r h (some []) b l = l
add_service-Settles wanted base r h (some (c ∷ cs)) b l =
    finish-Settles wanted base (ga_serv r h (c ∷ cs) b) (ga_serv-IsLive base r h (c ∷ cs) b l)

-- A name in the first entry.
name_one :
    (base : ℕ) (c : Bytes) (ai : Addrinfo) (ais : List Addrinfo) (m : Memory) (paths : List Bytes)
    → IsUnnamed ai
    → m.live ≡ base + 1 + all_blocks (ai ∷ ais)
    → IsLive base (record { list = set_canonname c (ai ∷ ais); mem = m; unlinked = paths })
name_one base c ai ais m paths u l = let v = ap one_if u in omega arith

abbrev NamesWell : ℕ → Option Build → Type 0
NamesWell base none = Unit
NamesWell base (some b) = IsLive base b

name_none :
    (base : ℕ) (name : Bytes) (ai : Addrinfo) (ais : List Addrinfo) (m : Memory)
    (paths : List Bytes)
    → IsUnnamed ai
    → m.live ≡ base + all_blocks (ai ∷ ais)
    → (s : Alloc m)
    → NamesWell base (
        name_first true name
          (record { build = record { list = ai ∷ ais; mem = m; unlinked = paths }; canon = none }))
unfolding name_first
name_none base name ai ais m paths u l (fails e) = rw (e, name_first) tt
name_none base name ai ais m paths u l (gives m' k e) =
    rw (e, name_first) (name_one base name ai ais m' paths u (omega arith))

name_first-NamesWell :
    (wanted : Bool) (base : ℕ) (name : Bytes) (ai : Addrinfo) (ais : List Addrinfo) (m : Memory)
    (paths : List Bytes) (canon : Option Bytes)
    → Holds wanted base
        (record { build = record { list = ai ∷ ais; mem = m; unlinked = paths }; canon = canon })
    → NamesWell base (
        name_first wanted name
          (record { build = record { list = ai ∷ ais; mem = m; unlinked = paths }; canon = canon }))
unfolding name_first
name_first-NamesWell true base name ai ais m paths (some c) k =
    name_one base c ai ais m paths k.kept.unnamed.0 k.kept.live
name_first-NamesWell true base name ai ais m paths none k =
    name_none base name ai ais m paths k.kept.unnamed.0 (let q = k.kept.live in omega arith)
      (Alloc-cases m)
name_first-NamesWell false base name ai ais m paths (some c) k =
    absurd (let q = k.saved in omega arith)
name_first-NamesWell false base name ai ais m paths none k = let q = k.kept.live in omega arith

named-Settles :
    (wanted : Bool) (base : ℕ) (r : Resolver) (h : Hints) (servname : Option Bytes) (f : Found)
    → Holds wanted base f
    → (o : Option Build) → NamesWell base o
    → Settles wanted base
        (elim o [ none ↦ give_up Eai.memory f.build | some b ↦ add_service r h servname b ])
named-Settles wanted base r h servname f k none n =
    give_up-Settles wanted base (one_if f.canon) Eai.memory f.build k.saved k.kept.live
named-Settles wanted base r h servname f k (some b) n =
    add_service-Settles wanted base r h servname b n

complete-Settles :
    (base : ℕ) (r : Resolver) (h : Hints) (named : Bool) (servname : Option Bytes) (name : Bytes)
    (l : Looked)
    → Holds (wants_name h named) base (found_of l)
    → Settles (wants_name h named) base (complete r h named servname name l)
unfolding complete
complete-Settles base r h named servname name (bad e f) k =
    give_up-Settles _ base (one_if f.canon) e f.build k.saved k.kept.live
complete-Settles base r h named servname name (on f) k =
    elim f.build.list
        as (λ l.
          Holds (wants_name h named) base (record f { build = record f.build { list = l } })
          → Settles (wants_name h named) base (
              complete r h named servname name
                (on (record f { build = record f.build { list = l } })))) [
                  | [] ↦ λ q.
                      give_up-Settles _ base (one_if f.canon) Eai.noname
                        (record f.build { list = [] }) q.saved q.kept.live
                  | ai ∷ ais ↦ λ q. named-Settles _ base r h servname _ q _ (
                      name_first-NamesWell _ base name ai ais f.build.mem f.build.unlinked f.canon
                        q)
                ]
      k

resolve-Settles :
    (r : Resolver) (h : Hints) (hostname servname : Option Bytes) (ss : List Search) (b : Build)
    → b.list ≡ []
    → Settles
        (wants_name h (not (is_empty hostname)))
        b.mem.live
        (resolve r h hostname servname ss b)
unfolding resolve
resolve-Settles r h hostname servname [] b e = refl
resolve-Settles r h hostname servname (s ∷ ss) b e =
    complete-Settles b.mem.live r h (not (is_empty hostname)) servname s.host _ (
      look_up_all-Holds b.mem.live r h (not (is_empty hostname)) (several ss) (s ∷ ss)
        (record { build = b; canon = none })
        (record {
          kept = record { live = rw e (omega arith); unnamed = rw e tt };
          saved = omega arith;
        }))

checked-Settles :
    (wanted : Bool) (e : Option Eai) (m : Memory) (x : Outcome)
    → Settles wanted m.live x
    → Settles wanted m.live
        (elim e [ some e ↦ give_up e (record { list = []; mem = m; unlinked = [] }) | none ↦ x ])
checked-Settles wanted none m x s = s
checked-Settles wanted (some e) m x s =
    give_up-Settles wanted m.live 0 e (record { list = []; mem = m; unlinked = [] }) (omega arith)
      (omega arith)

-- getaddrinfo, whatever allocation fails, unless it is asked for the path of a Unix domain socket: when it
-- finds something, the blocks that are new are those of the list; when it fails, it has freed all but
-- perhaps the canonical name, which it saves only if AI_CANONNAME and a host name are given.
pub getaddrinfo_memory :
    (r : Resolver) (hostname servname : Option Bytes) (h : Hints) (m : Memory)
    → unix_path hostname servname ≡ none
    → Settles (wants_name h (not (is_empty hostname))) m.live (getaddrinfo r hostname servname h m)
unfolding getaddrinfo
getaddrinfo_memory r hostname servname h m u =
    checked-Settles (wants_name h (not (is_empty hostname))) (ga_echeck hostname servname h) m _ (
      rw (u, getaddrinfo)
        (resolve-Settles r h hostname servname (ga_nsearch hostname h)
          (record { list = []; mem = m; unlinked = [] }) refl))
