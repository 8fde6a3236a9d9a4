-- ===== src/AddrInfo/Quits.antt =====
-- Where ga_nsearch ends the process (Lab2017/libgai/ga_nsearch.c), and where getaddrinfo returns.
use cosc.Prelude.{
  ℕ, ◌≡◌, refl, ap, ◌∙◌, Bool, true, false, Option, none, some, List, [], ◌∷◌, ◌==◌, ◌&&◌, not,
  arith, Bytes, Bool-cases, inl, inr,
}
use cosc.AddrInfo.{af_unspec, Eai, Hints, Addrinfo, Memory, Build, Result, ok, err, wants_canonname}
use cosc.AddrInfo.Lookup.{Resolver, Search, Looked, on, bad, ga_echeck, ga_nsearch}
use cosc.AddrInfo.Service.{
  give_up, Outcome, found, error, quits, finish, ga_serv, name_first, add_service, complete,
  several, unix_path, resolve, getaddrinfo,
}
use native.Mathlib.Decide.{ℕ_discrete}
use cosc.AddrInfo.{af_local, is_inet, is_passive}
use cosc.AddrInfo.Lookup.{searches}

-- Whether the process ends in the call.
abbrev pub ends : Outcome → Bool
ends (found ais m) = false
ends (error e m) = false
ends (quits m) = true

finish-ends : (r : Result) → ends (finish r) ≡ false
unfolding give_up
finish-ends (ok b) = refl
finish-ends (err e b) = refl

add_service-ends :
    (r : Resolver) (h : Hints) (servname : Option Bytes) (b : Build)
    → ends (add_service r h servname b) ≡ false
unfolding add_service
add_service-ends r h none b = refl
add_service-ends r h (some []) b = refl
add_service-ends r h (some (c ∷ cs)) b = finish-ends (ga_serv r h (c ∷ cs) b)

named-ends :
    (r : Resolver) (h : Hints) (servname : Option Bytes) (b : Build) (o : Option Build)
    → ends (elim o [ none ↦ give_up Eai.memory b | some c ↦ add_service r h servname c ]) ≡ false
unfolding give_up
named-ends r h servname b none = refl
named-ends r h servname b (some c) = add_service-ends r h servname c

list-ends :
    (b : Build) (x : Outcome)
    → ends x ≡ false
    → (l : List Addrinfo) → ends (elim l [ [] ↦ give_up Eai.noname b | ai ∷ ais ↦ x ]) ≡ false
unfolding give_up
list-ends b x e [] = refl
list-ends b x e (ai ∷ ais) = e

complete-ends :
    (r : Resolver) (h : Hints) (named : Bool) (servname : Option Bytes) (name : Bytes) (l : Looked)
    → ends (complete r h named servname name l) ≡ false
unfolding complete give_up
complete-ends r h named servname name (bad e f) = refl
complete-ends r h named servname name (on f) =
    list-ends f.build _
      (named-ends r h servname f.build (name_first (named && wants_canonname h.flags) name f))
      f.build.list

resolve-ends :
    (r : Resolver) (h : Hints) (hostname servname : Option Bytes) (ss : List Search) (b : Build)
    → ends (resolve r h hostname servname ss b) ≡ not (several ss)
unfolding resolve
resolve-ends r h hostname servname [] b = refl
resolve-ends r h hostname servname (s ∷ ss) b = complete-ends r h _ servname s.host _

-- The families that ga_echeck lets pass.
data Family (fam : ℕ) : Type 0 where
  inet : is_inet fam ≡ true → Family fam
  unspec : fam ≡ af_unspec → Family fam
  local : fam ≡ af_local → Family fam

passes :
    (hostname servname : Option Bytes) (h : Hints)
    → ga_echeck hostname servname h ≡ none
    → Family h.family
unfolding ga_echeck
passes hostname servname h e = elim (Bool-cases (is_inet h.family)) [
  | inl i ↦ inet i
  | inr i ↦ elim (ℕ_discrete h.family af_unspec) [
    | yes u ↦ unspec u
    | no u ↦ elim (ℕ_discrete h.family af_local) [ yes l ↦ local l | no l ↦ absurd (ground arith) ]
  ]
]

searches-several :
    (name4 name6 : Bytes) (fam : ℕ)
    → Family fam
    → several (searches name4 name6 fam) ≡ not (fam == af_local)
searches-several name4 name6 fam (inet e) = ground (arith, e)
searches-several name4 name6 fam (unspec e) = ground (arith, e)
searches-several name4 name6 fam (local e) = ground (arith, e)

nsearch-several :
    (hostname servname : Option Bytes) (h : Hints)
    → ga_echeck hostname servname h ≡ none
    → several (ga_nsearch hostname h) ≡ not (h.family == af_local)
unfolding ga_nsearch
nsearch-several none servname h e = elim (Bool-cases (is_passive h.flags)) [
  | inl p ↦ rw p (searches-several _ _ h.family (passes none servname h e))
  | inr p ↦ rw p (searches-several _ _ h.family (passes none servname h e))
]
nsearch-several (some []) servname h e = elim (Bool-cases (is_passive h.flags)) [
  | inl p ↦ rw p (searches-several _ _ h.family (passes (some []) servname h e))
  | inr p ↦ rw p (searches-several _ _ h.family (passes (some []) servname h e))
]
nsearch-several (some (c ∷ cs)) servname h e =
    searches-several _ _ h.family (passes (some (c ∷ cs)) servname h e)

not-not : (b : Bool) → not (not b) ≡ b
not-not true = refl
not-not false = refl

-- getaddrinfo, given arguments that ga_echeck lets pass and no path of a Unix domain socket, returns to
-- its caller for every family but AF_LOCAL; for that family ga_nsearch ends the process.
pub ends-getaddrinfo :
    (r : Resolver) (hostname servname : Option Bytes) (h : Hints) (m : Memory)
    → ga_echeck hostname servname h ≡ none
    → unix_path hostname servname ≡ none
    → ends (getaddrinfo r hostname servname h m) ≡ (h.family == af_local)
unfolding getaddrinfo
ends-getaddrinfo r hostname servname h m e u =
    rw (e, getaddrinfo)
      (rw (u, getaddrinfo)
        (resolve-ends r h hostname servname (ga_nsearch hostname h)
            (record { list = []; mem = m; unlinked = [] })
          ∙ ap not (nsearch-several hostname servname h e)
          ∙ not-not (h.family == af_local)))
