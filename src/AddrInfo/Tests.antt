-- ===== src/AddrInfo/Tests.antt =====
-- A small resolver, on which the functions of Lab2017/libgai run.
use cosc.Prelude.{ℕ, ◌≡◌, refl, true, none, some, [], ◌∷◌, if◌then◌else◌, ◌==◌, Bytes, codes, arith}
use cosc.Endpoint.{htons}
use cosc.AddrInfo.{
  ga_aistruct, alloc, freeaddrinfo, af_unspec, af_inet, af_inet6, af_local, sock_stream, Eai, Hints,
  Memory, Build,
}
use cosc.AddrInfo.Lookup.{
  ga_echeck, ga_nsearch, look_up_all, look_up, ask, add_host, add_all, Resolver, Answer, host,
  first,
}
use cosc.AddrInfo.Service.{error, resolve, complete, give_up, getaddrinfo}
use cosc.AddrInfo.Names.{Directory, sin, getnameinfo}
use cosc.AddrInfo.Offers.{Address, entries}
use cosc.AddrInfo.RoundTrip.{Prints, same_port, Finds, numeric_round_trip}
use cosc.AddrInfo.Leaks.{Settles, getaddrinfo_memory}
use cosc.AddrInfo.Quits.{ends, ends-getaddrinfo}

abbrev address4 : Bytes
address4 = 192 ∷ 0 ∷ 2 ∷ 1 ∷ []

abbrev address6 : Bytes
address6 = 32 ∷ 1 ∷ 13 ∷ 184 ∷ 0 ∷ 0 ∷ 0 ∷ 0 ∷ 0 ∷ 0 ∷ 0 ∷ 0 ∷ 0 ∷ 0 ∷ 0 ∷ 1 ∷ []

-- Every name is one host; a service is known for TCP only.
abbrev answer : Bytes → ℕ → Answer
answer name fam = host (record {
  h_name = name;
  h_addrtype = fam;
  h_addr_list = (if fam == af_inet then address4 else address6) ∷ [];
})

abbrev resolver : Resolver
resolver = record {
  inet_pton4 = λ s. some address4;
  inet_pton6 = λ s. none;
  gethostbyname2 = answer;
  gethostbyname = λ s six. if six then answer s af_inet6 else answer s af_inet;
  getservbyname = λ s p. if first p == 116 then some (htons 80) else none;
  nodename = some (codes "node");
}

abbrev directory : Directory
directory = record {
  inet_ntop = λ fam a. some (codes "192.0.2.1");
  gethostbyaddr = λ a fam. none;
  getservbyport = λ port udp. none;
}

-- Hints as getaddrinfo has them for NULL, and for a TCP client over IPv4.
abbrev no_hints : Hints
no_hints = record { flags = 0; family = af_unspec; socktype = 0; protocol = 0 }

abbrev tcp4 : Hints
tcp4 = record { flags = 0; family = af_inet; socktype = sock_stream; protocol = 0 }

abbrev unix_hints : Hints
unix_hints = record { flags = 0; family = af_local; socktype = sock_stream; protocol = 0 }

abbrev named_hints : Hints
named_hints = record { flags = 2; family = af_inet; socktype = 0; protocol = 0 }

abbrev enough : Memory
enough = record { room = 20; live = 7 }

-- Memory for a name and an entry, not for its address.
abbrev little : Memory
little = record { room = 2; live = 7 }

abbrev one : Address
one = (af_inet, address4)

abbrev name : Bytes
name = codes "ftp"

abbrev http : Bytes
http = codes "http"

abbrev listed : Build
listed = record { list = entries no_hints (one ∷ []); mem = enough; unlinked = [] }

prints : Prints directory resolver address4 (codes "192.0.2.1")
unfolding codes
prints = record { printed = refl; parsed = refl; begins = refl }

numeric_round_trip_example :
    (serv : Bytes) × (getnameinfo directory (sin address4 5888) 46 32 10
      ≡ some (some (codes "192.0.2.1"), some serv))
    × Finds tcp4
        (one ∷ [])
        (same_port tcp4 5888)
        (getaddrinfo resolver (some (codes "192.0.2.1")) (some serv) tcp4 enough)
unfolding codes
numeric_round_trip_example =
    numeric_round_trip directory resolver tcp4 address4 (codes "192.0.2.1") 5888 46 32 enough prints
      (record {
        ipv4 = refl;
        no_canonname = refl;
        known_flags = omega arith;
        known_type = omega arith;
      })
      (omega arith) (omega arith) (omega arith) (omega arith)

getaddrinfo_memory_example :
    Settles true 7 (getaddrinfo resolver (some name) none named_hints little)
unfolding codes
getaddrinfo_memory_example = getaddrinfo_memory resolver (some name) none named_hints little refl

ends-getaddrinfo_example :
    ends (getaddrinfo resolver (some name) (some http) unix_hints enough) ≡ true
unfolding codes ga_echeck
ends-getaddrinfo_example =
    ends-getaddrinfo resolver (some name) (some http) unix_hints enough refl refl

-- Without memory for the address, the name stays allocated.
name_leaks :
    getaddrinfo resolver (some name) none named_hints little
    ≡ error Eai.memory (record { room = 0; live = 8 })
unfolding codes getaddrinfo ga_echeck ga_nsearch resolve complete look_up_all look_up ask add_host
    add_all ga_aistruct alloc give_up freeaddrinfo
name_leaks = refl
