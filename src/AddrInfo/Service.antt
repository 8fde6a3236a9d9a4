-- ===== src/AddrInfo/Service.antt =====
-- Lab2017/libgai/ga_serv.c, ga_unix.c, and getaddrinfo as a whole.
use cosc.Prelude.{
  ℕ, ◌+◌, ◌-◌, ◌*◌, Bool, true, false, Option, none, some, List, [], ◌∷◌, ◌==◌, ◌&&◌, ◌||◌,
  if◌then◌else◌, not, Bytes, codes,
}
use cosc.Endpoint.{htons}
use cosc.AddrInfo.{
  af_unspec, af_local, sock_stream, sock_dgram, wants_canonname, Eai, Hints, Addrinfo, Memory,
  freeaddrinfo, Build, Result, ok, err, ◌>>=◌, ga_aistruct, Ported, ported, no_memory, ga_port,
}
use cosc.AddrInfo.Lookup.{
  Resolver, Search, Found, Looked, on, bad, is_empty, is_digit, first, strdup, ga_echeck,
  ga_nsearch, look_up_all,
}

-- `atoi` on a string of digits and what follows them
unfoldable pub atoi_from : ℕ → Bytes → ℕ
atoi_from n [] = n
atoi_from n (c ∷ cs) = if is_digit c then atoi_from (n * 10 + (c - 48)) cs else n

-- `nfound += rc` behind each call of ga_port
abbrev pub plus : ℕ → Ported → Ported
plus n (no_memory ais m) = no_memory ais m
plus n (ported ais found m) = ported ais (n + found) m

abbrev pub then_port : Ported → (List Addrinfo → Memory → Ported) → Ported
then_port (no_memory ais m) f = no_memory ais m
then_port (ported ais found m) f = plus found (f ais m)

-- the port of a service for one socket type, if there is one
abbrev pub try_port : Option ℕ → ℕ → List Addrinfo → Memory → Ported
try_port none type ais m = ported ais 0 m
try_port (some port) type ais m = ga_port ais port type m

abbrev pub asks : Hints → ℕ → Bool
asks h type = (h.socktype == 0) || (h.socktype == type)

-- the calls of ga_port that `ga_serv` makes
unfoldable pub set_ports : Resolver → Hints → Bytes → List Addrinfo → Memory → Ported
set_ports r h serv ais m =
    if is_digit (first serv)
    then (let port = htons (atoi_from 0 serv) in
        if h.socktype == 0
        then then_port (ga_port ais port sock_stream m) (λ bs m'. ga_port bs port sock_dgram m')
        else ga_port ais port h.socktype m)
    else then_port
        (if asks h sock_stream
          then try_port (r.getservbyname serv (codes "tcp")) sock_stream ais m
          else ported ais 0 m)
        (λ bs m'.
          if asks h sock_dgram
          then try_port (r.getservbyname serv (codes "udp")) sock_dgram bs m'
          else ported bs 0 m')

abbrev pub to_result : Hints → Build → Ported → Result
to_result h b (no_memory ais m) = err Eai.memory (record b { list = ais; mem = m })
to_result h b (ported ais found m) =
    let c = record b { list = ais; mem = m } in
    if found == 0 then err (if h.socktype == 0 then Eai.noname else Eai.service) c else ok c

-- `ga_serv`
unfoldable pub ga_serv : Resolver → Hints → Bytes → Build → Result
ga_serv r h serv b = to_result h b (set_ports r h serv b.list b.mem)

-- What getaddrinfo comes to: a list, a code, or the end of the process in ga_nsearch; with the memory.
pub data Outcome : Type 0 where
  found : List Addrinfo → Memory → Outcome
  error : Eai → Memory → Outcome
  quits : Memory → Outcome

abbrev pub set_canonname : Bytes → List Addrinfo → List Addrinfo
set_canonname name [] = []
set_canonname name (ai ∷ ais) = record ai { canonname = some name } ∷ ais

-- ga_unix: the entries, before the canonical name
unfoldable pub add_paths : Hints → Bytes → Build → Result
add_paths h path b =
    if h.socktype == 0
    then (ga_aistruct (record h { socktype = sock_stream }) path af_local b
        >>= (λ b'. ga_aistruct (record h { socktype = sock_dgram }) path af_local b'))
    else ga_aistruct h path af_local b

-- `ga_unix`; it frees nothing on an error
unfoldable pub ga_unix : Resolver → Hints → Bytes → Build → Outcome
ga_unix r h path b =
    if not (h.family == af_unspec) && not (h.family == af_local)
    then error Eai.addrfamily b.mem
    else elim (add_paths h path b) [
      | err e c ↦ error e c.mem
      | ok c ↦
          if wants_canonname h.flags
          then (elim r.nodename [
            | none ↦ error Eai.system c.mem
            | some name ↦ elim (strdup name c.mem) [
              | none ↦ error Eai.memory c.mem
              | some (s, m) ↦ found (set_canonname s c.list) m
            ]
          ])
          else found c.list c.mem
    ]

-- `bad:` frees the list, and not `canon`
unfoldable pub give_up : Eai → Build → Outcome
give_up e b = error e (freeaddrinfo b.list b.mem)

abbrev pub finish : Result → Outcome
finish (ok b) = found b.list b.mem
finish (err e b) = give_up e b

-- the service, for a list that has its canonical name
unfoldable pub add_service : Resolver → Hints → Option Bytes → Build → Outcome
add_service r h servname b = elim servname [
  | none ↦ found b.list b.mem
  | some [] ↦ found b.list b.mem
  | some (c ∷ cs) ↦ finish (ga_serv r h (c ∷ cs) b)
]

-- the canonical name in the first entry: the one saved, or the name that was looked up
unfoldable pub name_first : Bool → Bytes → Found → Option Build
name_first wanted name f =
    let b = f.build in
    if wanted
    then (elim f.canon [
      | some c ↦ some (record b { list = set_canonname c b.list })
      | none ↦ elim (strdup name b.mem) [
        | none ↦ none
        | some (c, m) ↦ some (record b { list = set_canonname c b.list; mem = m })
      ]
    ])
    else some b

-- getaddrinfo behind its loop
unfoldable pub complete : Resolver → Hints → Bool → Option Bytes → Bytes → Looked → Outcome
complete r h named servname name (bad e f) = give_up e f.build
complete r h named servname name (on f) = elim f.build.list [
  | [] ↦ give_up Eai.noname f.build
  | ai ∷ ais ↦ elim (name_first (named && wants_canonname h.flags) name f) [
    | none ↦ give_up Eai.memory f.build
    | some b ↦ add_service r h servname b
  ]
]

abbrev pub bytes_eq : Bytes → Bytes → Bool
bytes_eq [] [] = true
bytes_eq [] (d ∷ ds) = false
bytes_eq (c ∷ cs) [] = false
bytes_eq (c ∷ cs) (d ∷ ds) = (c == d) && bytes_eq cs ds

-- whether the names are those of a Unix domain socket, with the path
abbrev pub unix_path : Option Bytes → Option Bytes → Option Bytes
unix_path none servname = none
unix_path (some host) none = none
unix_path (some host) (some serv) =
    if (bytes_eq host (codes "/local") || bytes_eq host (codes "/unix")) && (first serv == 47)
    then some serv
    else none

abbrev pub several : List Search → Bool
several [] = false
several (s ∷ ss) = true

-- the search, its number tested as ga_nsearch does
unfoldable pub resolve :
    Resolver → Hints → Option Bytes → Option Bytes → List Search → Build → Outcome
resolve r h hostname servname [] b = quits b.mem
resolve r h hostname servname (s ∷ ss) b =
    let two = several ss in
    let named = not (is_empty hostname) in
    complete r h named servname s.host
      (look_up_all r h named two (s ∷ ss) (record { build = b; canon = none }))

-- hints of zeros stand for NULL
unfoldable pub getaddrinfo : Resolver → Option Bytes → Option Bytes → Hints → Memory → Outcome
getaddrinfo r hostname servname h m =
    let b : Build = record { list = []; mem = m; unlinked = [] } in
    elim (ga_echeck hostname servname h) [
      | some e ↦ give_up e b
      | none ↦ elim (unix_path hostname servname) [
        | some path ↦ ga_unix r h path b
        | none ↦ resolve r h hostname servname (ga_nsearch hostname h) b
      ]
    ]
