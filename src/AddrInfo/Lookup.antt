-- ===== src/AddrInfo/Lookup.antt =====
-- Lab2017/libgai/ga_echeck.c, ga_nsearch.c and the loop of getaddrinfo.c over what is searched. What
-- inet_pton(3) makes of a string, and what the resolver and the list of services answer, is the record
-- `Resolver`. The option RES_USE_INET6 is set before each lookup that reads it, and is an argument of
-- that lookup.
use cosc.Prelude.{
  ℕ, Bool, true, false, Option, none, some, List, [], ◌∷◌, ltb, leb, ◌==◌, ◌&&◌, ◌||◌,
  if◌then◌else◌, not, Bytes, codes,
}
use cosc.AddrInfo.{
  af_unspec, af_local, af_inet, af_inet6, sock_stream, sock_dgram, sock_raw, is_passive,
  wants_canonname, Eai, Hints, Memory, alloc, Build, Result, ok, err, ◌>>=◌, ga_aistruct,
}

-- `struct hostent`, with its addresses
pub record Hostent : Type 0 where
  pub h_name : Bytes
  pub h_addrtype : ℕ
  pub h_addr_list : List Bytes

-- `h_errno`
pub data HostError : Type 0 where
  host_not_found : HostError
  try_again : HostError
  no_recovery : HostError
  no_data : HostError
  other_error : HostError

pub data Answer : Type 0 where
  host : Hostent → Answer
  no_host : HostError → Answer

-- The system: inet_pton, gethostbyname2 by family, gethostbyname by RES_USE_INET6, getservbyname by
-- protocol, and the node name of uname.
pub record Resolver : Type 0 where
  pub inet_pton4 : Bytes → Option Bytes
  pub inet_pton6 : Bytes → Option Bytes
  pub gethostbyname2 : Bytes → ℕ → Answer
  pub gethostbyname : Bytes → Bool → Answer
  pub getservbyname : Bytes → Bytes → Option ℕ
  pub nodename : Option Bytes

-- A string argument that may be NULL: whether there is a name in it.
abbrev pub is_empty : Option Bytes → Bool
is_empty none = true
is_empty (some []) = true
is_empty (some (c ∷ cs)) = false

-- `ga_echeck`, `none` for 0
unfoldable pub ga_echeck : Option Bytes → Option Bytes → Hints → Option Eai
ga_echeck hostname servname h =
    if ltb 3 h.flags
    then some Eai.badflags
    else if is_empty hostname && is_empty servname
    then some Eai.noname
    else if h.family == af_unspec
    then none
    else if (h.family == af_inet) || (h.family == af_inet6)
    then (if not (h.socktype == 0)
          && (not (h.socktype == sock_stream)
              && (not (h.socktype == sock_dgram) && not (h.socktype == sock_raw)))
        then some Eai.socktype
        else none)
    else if h.family == af_local
    then (if not (h.socktype == 0)
          && (not (h.socktype == sock_stream) && not (h.socktype == sock_dgram))
        then some Eai.socktype
        else none)
    else some Eai.family

-- `struct search`
pub record Search : Type 0 where
  pub host : Bytes
  pub family : ℕ

-- What is looked up: one name for each family, IPv6 first.
abbrev pub searches : Bytes → Bytes → ℕ → List Search
searches name4 name6 fam =
    if fam == af_inet
    then record { host = name4; family = af_inet } ∷ []
    else if fam == af_inet6
    then record { host = name6; family = af_inet6 } ∷ []
    else if fam == af_unspec
    then record { host = name6; family = af_inet6 } ∷ record { host = name4; family = af_inet } ∷ []
    else []

-- `ga_nsearch`, before it tests the number
unfoldable pub ga_nsearch : Option Bytes → Hints → List Search
ga_nsearch none h =
    if is_passive h.flags
    then searches (codes "0.0.0.0") (codes "0::0") h.family
    else searches (codes "localhost") (codes "0::1") h.family
ga_nsearch (some []) h =
    if is_passive h.flags
    then searches (codes "0.0.0.0") (codes "0::0") h.family
    else searches (codes "localhost") (codes "0::1") h.family
ga_nsearch (some (c ∷ cs)) h = searches (c ∷ cs) (c ∷ cs) h.family

abbrev pub is_digit : ℕ → Bool
is_digit c = leb 48 c && leb c 57

abbrev pub is_xdigit : ℕ → Bool
is_xdigit c = is_digit c || ((leb 65 c && leb c 70) || (leb 97 c && leb c 102))

abbrev pub first : Bytes → ℕ
first [] = 0
first (c ∷ cs) = c

abbrev pub has_colon : Bytes → Bool
has_colon [] = false
has_colon (c ∷ cs) = (c == 58) || has_colon cs

-- `strdup` of a name, `none` when there is no memory
abbrev pub strdup : Bytes → Memory → Option (Bytes × Memory)
strdup s m = elim (alloc m) [ none ↦ none | some m' ↦ some (s, m') ]

-- What getaddrinfo has built in its loop, with the canonical name that it has saved.
pub record Found : Type 0 where
  pub build : Build
  pub canon : Option Bytes

-- The loop goes on, or goes to `bad`.
pub data Looked : Type 0 where
  on : Found → Looked
  bad : Eai → Found → Looked

abbrev pub to_looked : Option Bytes → Result → Looked
to_looked canon (ok b) = on (record { build = b; canon = canon })
to_looked canon (err e b) = bad e (record { build = b; canon = canon })

abbrev pub of_h_errno : HostError → Eai
of_h_errno host_not_found = Eai.noname
of_h_errno try_again = Eai.again
of_h_errno no_recovery = Eai.fail
of_h_errno no_data = Eai.nodata
of_h_errno other_error = Eai.noname

-- the loop over h_addr_list
unfoldable pub add_all : Hints → List Bytes → ℕ → Build → Result
add_all h [] fam b = ok b
add_all h (a ∷ more) fam b = ga_aistruct h a fam b >>= (λ b'. add_all h more fam b')

-- what follows for a host that is found; `named` is whether the caller gave a host name
abbrev pub save_canon : Bool → Bytes → Found → Option Found
save_canon wanted name f = elim f.canon [
  | some c ↦ some f
  | none ↦
      if wanted
      then (elim (strdup name f.build.mem) [
        | none ↦ none
        | some (c, m) ↦ some (record { build = record f.build { mem = m }; canon = some c })
      ])
      else some f
]

unfoldable pub add_host : Hints → Bool → Hostent → Found → Looked
add_host h named e f =
    if not (h.family == af_unspec) && not (h.family == e.h_addrtype)
    then bad Eai.addrfamily f
    else elim (save_canon (named && wants_canonname h.flags) e.h_name f) [
      | none ↦ bad Eai.memory f
      | some g ↦ to_looked g.canon (add_all h e.h_addr_list e.h_addrtype g.build)
    ]

-- the part of the loop that asks the resolver
unfoldable pub ask : Resolver → Hints → Bool → Bool → Search → Found → Looked
ask r h named two s f =
    elim (if two
      then r.gethostbyname2 s.host s.family
      else r.gethostbyname s.host (s.family == af_inet6)) [
        | host e ↦ add_host h named e f
        | no_host e ↦ if two then on f else bad (of_h_errno e) f
      ]

-- a string that is an address of the family `fam`
unfoldable pub add_numeric : Hints → Bytes → ℕ → Search → Found → Looked
add_numeric h addr fam s f =
    if not (h.family == af_unspec) && not (h.family == fam)
    then bad Eai.addrfamily f
    else if s.family == fam
    then to_looked f.canon (ga_aistruct h addr fam f.build)
    else on f

abbrev pub pton4 : Resolver → Bytes → Option Bytes
pton4 r name = if is_digit (first name) then r.inet_pton4 name else none

abbrev pub pton6 : Resolver → Bytes → Option Bytes
pton6 r name =
    if (is_xdigit (first name) || (first name == 58)) && has_colon name
    then r.inet_pton6 name
    else none

-- one round of the loop of getaddrinfo over `search`
unfoldable pub look_up : Resolver → Hints → Bool → Bool → Search → Found → Looked
look_up r h named two s f = elim (pton4 r s.host) [
  | some a ↦ add_numeric h a af_inet s f
  | none ↦ elim (pton6 r s.host) [
    | some a ↦ add_numeric h a af_inet6 s f
    | none ↦ ask r h named two s f
  ]
]

unfoldable pub look_up_all : Resolver → Hints → Bool → Bool → List Search → Found → Looked
look_up_all r h named two [] f = on f
look_up_all r h named two (s ∷ ss) f = elim (look_up r h named two s f) [
  | on g ↦ look_up_all r h named two ss g
  | bad e g ↦ bad e g
]
