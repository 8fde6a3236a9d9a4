-- ===== src/AddrInfo.antt =====
-- Lab2017/libgai: getaddrinfo and getnameinfo, with the functions that they are built on. This file has
-- addrinfo.h, gai_hdr.h and the functions that make, copy and complete entries of the list. Memory is
-- counted: `room` allocations succeed from now on, and `live` blocks are not freed. AI_CLONE is the only
-- flag that an entry has. Names and services are what the resolver gives (AddrInfo/Lookup).
pub mod Lookup
pub mod Service
pub mod Names
pub mod Offers
pub mod Copies
pub mod Ports
pub mod Grows
pub mod Search
pub mod Blocks
pub mod PortBlocks
pub mod Saved
pub mod Leaks
pub mod Quits
pub mod Numeric
pub mod RoundTrip
mod Tests
use cosc.Prelude.{
  ℕ, zero, suc, ◌+◌, ◌-◌, ◌*◌, ◌/◌, ◌%◌, Bool, true, false, Option, none, some, List, [], ◌∷◌, ◌++◌,
  ltb, leb, ◌==◌, ◌&&◌, ◌||◌, if◌then◌else◌, not, length, Bytes,
}

abbrev pub af_unspec : ℕ
af_unspec = 0

abbrev pub af_local : ℕ
af_local = 1

abbrev pub af_inet : ℕ
af_inet = 2

abbrev pub af_inet6 : ℕ
af_inet6 = 10

abbrev pub sock_stream : ℕ
sock_stream = 1

abbrev pub sock_dgram : ℕ
sock_dgram = 2

abbrev pub sock_raw : ℕ
sock_raw = 3

-- `flags & AI_PASSIVE`, `flags & AI_CANONNAME`
abbrev pub is_passive : ℕ → Bool
is_passive flags = flags % 2 == 1

abbrev pub wants_canonname : ℕ → Bool
wants_canonname flags = flags / 2 % 2 == 1

-- The codes that getaddrinfo returns.
pub data Eai : Type 0 where
  addrfamily : Eai
  again : Eai
  badflags : Eai
  fail : Eai
  family : Eai
  memory : Eai
  nodata : Eai
  noname : Eai
  service : Eai
  socktype : Eai
  system : Eai

-- What a caller gives in `*hintsp`.
pub record Hints : Type 0 where
  pub flags : ℕ
  pub family : ℕ
  pub socktype : ℕ
  pub protocol : ℕ

-- `struct addrinfo`. `addr` is the address or the path of the socket address, `none` where ai_addr is
-- NULL, and `port` is in network order.
pub record Addrinfo : Type 0 where
  pub clone : Bool
  pub family : ℕ
  pub socktype : ℕ
  pub protocol : ℕ
  pub canonname : Option Bytes
  pub addr : Option Bytes
  pub port : ℕ

pub record Memory : Type 0 where
  pub room : ℕ
  pub live : ℕ

-- calloc, malloc, strdup
unfoldable pub alloc : Memory → Option Memory
alloc m = elim m.room [ zero ↦ none | suc room ↦ some (record { room = room; live = suc m.live }) ]

-- The blocks of an entry, and of a list.
abbrev pub one_if {ℓ} : {A : Type ℓ} → Option A → ℕ
one_if none = 0
one_if (some a) = 1

abbrev pub blocks : Addrinfo → ℕ
blocks ai = 1 + one_if ai.addr + one_if ai.canonname

abbrev pub all_blocks : List Addrinfo → ℕ
all_blocks [] = 0
all_blocks (ai ∷ ais) = blocks ai + all_blocks ais

-- `freeaddrinfo`
unfoldable pub freeaddrinfo : List Addrinfo → Memory → Memory
freeaddrinfo [] m = m
freeaddrinfo (ai ∷ ais) m = freeaddrinfo ais (record m { live = m.live - blocks ai })

-- The list that getaddrinfo builds, the memory, and the paths that are unlinked.
pub record Build : Type 0 where
  pub list : List Addrinfo
  pub mem : Memory
  pub unlinked : List Bytes

-- A function goes on, or returns a code other than 0.
pub data Result : Type 0 where
  ok : Build → Result
  err : Eai → Build → Result

infixl 5 ◌>>=◌
abbrev pub ◌>>=◌ : Result → (Build → Result) → Result
ok b >>= f = f b
err e b >>= f = err e b

-- The entry that `ga_aistruct` makes, before its address.
abbrev pub new_entry : Hints → ℕ → Addrinfo
new_entry h fam = record {
  clone = h.socktype == 0;
  family = fam;
  socktype = h.socktype;
  protocol = h.protocol;
  canonname = none;
  addr = none;
  port = 0;
}

abbrev pub add_entry : Addrinfo → Memory → Build → Build
add_entry ai m b = record b { list = b.list ++ (ai ∷ []); mem = m }

-- the second allocation, for the socket address
abbrev pub add_address : Hints → Bytes → ℕ → Memory → Build → Result
add_address h addr fam m b = elim (alloc m) [
  | none ↦ err memory (add_entry (new_entry h fam) m b)
  | some m' ↦ ok (add_entry (record (new_entry h fam) { addr = some addr }) m' b)
]

-- `sizeof(unp->sun_path)`
abbrev pub path_size : ℕ
path_size = 108

abbrev pub unlink_if : Bool → Bytes → Build → Build
unlink_if passive path b = if passive then record b { unlinked = b.unlinked ++ (path ∷ []) } else b

-- `ga_aistruct`
unfoldable pub ga_aistruct : Hints → Bytes → ℕ → Build → Result
ga_aistruct h addr fam b = elim (alloc b.mem) [
  | none ↦ err memory b
  | some m ↦
      if (fam == af_inet) || (fam == af_inet6)
      then add_address h addr fam m b
      else if fam == af_local
      then (if leb path_size (length addr)
          then err service (add_entry (new_entry h fam) m b)
          else (add_address h addr fam m b >>= (λ b'. ok (unlink_if (is_passive h.flags) addr b'))))
      else ok (add_entry (new_entry h fam) m b)
]

-- What `ga_port` does: the list, how many ports it has set, and the memory; or NULL from `ga_clone`.
pub data Ported : Type 0 where
  ported : List Addrinfo → ℕ → Memory → Ported
  no_memory : List Addrinfo → Memory → Ported

-- `ga_clone`: the new entry behind the old one, or what is left of it when an allocation fails
pub data Cloned : Type 0 where
  cloned : Addrinfo → Memory → Cloned
  half : Addrinfo → Memory → Cloned
  not_cloned : Cloned

abbrev pub copy_of : Addrinfo → Addrinfo
copy_of ai = record ai { clone = false; canonname = none; addr = none; port = 0 }

-- what memcpy copies, nothing from NULL
abbrev pub bytes_of : Option Bytes → Bytes
bytes_of none = []
bytes_of (some a) = a

unfoldable pub ga_clone : Addrinfo → Memory → Cloned
ga_clone ai m = elim (alloc m) [
  | none ↦ not_cloned
  | some m1 ↦ elim (alloc m1) [
    | none ↦ half (copy_of ai) m1
    | some m2 ↦ cloned (record (copy_of ai) { addr = some (bytes_of ai.addr); port = ai.port }) m2
  ]
]

abbrev pub is_inet : ℕ → Bool
is_inet fam = (fam == af_inet) || (fam == af_inet6)

-- An entry with its socket type and port set, and whether that counts.
abbrev pub set_port : ℕ → ℕ → Addrinfo → Addrinfo
set_port port type ai =
    if is_inet ai.family
    then record ai { socktype = type; port = port }
    else record ai { socktype = type }

abbrev pub counts : Addrinfo → ℕ
counts ai = if is_inet ai.family then 1 else 0

abbrev pub before : Addrinfo → ℕ → Ported → Ported
before ai n (ported ais found m) = ported (ai ∷ ais) (n + found) m
before ai n (no_memory ais m) = no_memory (ai ∷ ais) m

-- `ga_port`, from an entry of the list on
unfoldable pub ga_port : List Addrinfo → ℕ → ℕ → Memory → Ported
ga_port [] port type m = ported [] 0 m
ga_port (ai ∷ ais) port type m = elim ai.clone [
  | true ↦ elim (ai.socktype == 0) [
    | true ↦ before (set_port port type ai) (counts ai) (ga_port ais port type m)
    | false ↦ elim (ga_clone ai m) [
      | not_cloned ↦ no_memory (ai ∷ ais) m
      | half new m' ↦ no_memory (ai ∷ new ∷ ais) m'
      | cloned new m' ↦
          before ai 0 (before (set_port port type new) (counts new) (ga_port ais port type m'))
    ]
  ]
  | false ↦ elim (ai.socktype == type) [
    | true ↦ before (set_port port type ai) (counts ai) (ga_port ais port type m)
    | false ↦ before ai 0 (ga_port ais port type m)
  ]
]
