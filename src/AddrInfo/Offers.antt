-- ===== src/AddrInfo/Offers.antt =====
-- What the entries of a list say: the socket types and ports of a service, for each address.
use cosc.Prelude.{
  ℕ, ◌≡◌, Bool, true, false, Option, none, some, List, [], ◌∷◌, ◌++◌, map, ◌==◌, if◌then◌else◌,
  Bytes, codes,
}
use cosc.Endpoint.{htons}
use cosc.AddrInfo.{sock_stream, sock_dgram, Hints, Addrinfo, is_inet, new_entry}
use cosc.AddrInfo.Lookup.{Resolver, is_digit, first}
use cosc.AddrInfo.Service.{atoi_from, asks}

-- What a caller reads of an entry to open a socket.
pub record Plain : Type 0 where
  pub family : ℕ
  pub socktype : ℕ
  pub protocol : ℕ
  pub addr : Option Bytes
  pub port : ℕ

abbrev pub plain : Addrinfo → Plain
plain ai = record {
  family = ai.family;
  socktype = ai.socktype;
  protocol = ai.protocol;
  addr = ai.addr;
  port = ai.port;
}

-- An address with its family, and a socket type with its port.
abbrev pub Address : Type 0
Address = ℕ × Bytes

abbrev pub Offer : Type 0
Offer = ℕ × ℕ

-- The list before the service is looked up.
abbrev pub entry : Hints → Address → Addrinfo
entry h a = record (new_entry h a.0) { addr = some a.1 }

abbrev pub entries : Hints → List Address → List Addrinfo
entries h xs = map (entry h) xs

-- The entries for one address: one for each offer.
abbrev pub one_answer : Hints → Address → Offer → Plain
one_answer h a o = record {
  family = a.0;
  socktype = o.0;
  protocol = h.protocol;
  addr = some a.1;
  port = o.1;
}

abbrev pub answers : Hints → List Address → List Offer → List Plain
answers h [] os = []
answers h (a ∷ more) os = map (one_answer h a) os ++ answers h more os

-- The socket types and ports that a service string stands for.
abbrev pub offer_if : Bool → ℕ → Option ℕ → List Offer
offer_if true type (some port) = (type, port) ∷ []
offer_if true type none = []
offer_if false type port = []

abbrev pub offers : Resolver → Hints → Bytes → List Offer
offers r h serv =
    if is_digit (first serv)
    then (let port = htons (atoi_from 0 serv) in
        if h.socktype == 0
        then (sock_stream, port) ∷ (sock_dgram, port) ∷ []
        else (h.socktype, port) ∷ [])
    else offer_if (asks h sock_stream) sock_stream (r.getservbyname serv (codes "tcp"))
      ++ offer_if (asks h sock_dgram) sock_dgram (r.getservbyname serv (codes "udp"))

abbrev pub IsInet : Address → Type 0
IsInet a = is_inet a.0 ≡ true
