-- ===== src/AddrInfo/Names.antt =====
-- Lab2017/libgai/gn_ipv46.c and getnameinfo.c. What the resolver and the list of services answer is the
-- record `Directory`; a name or a text may be missing.
use cosc.Prelude.{
  ℕ, ◌-◌, ◌/◌, ◌%◌, Bool, Option, none, some, [], ◌∷◌, ltb, ◌==◌, if◌then◌else◌, ◌>>=◌, length,
  take, Bytes, codes, decimal,
}
use cosc.Endpoint.{htons}
use cosc.AddrInfo.{af_inet, af_inet6}

-- inet_ntop by family, gethostbyaddr and getservbyport (by whether "udp" is asked for) with the names in
-- what they find
pub record Directory : Type 0 where
  pub inet_ntop : ℕ → Bytes → Option Bytes
  pub gethostbyaddr : Bytes → ℕ → Option Bytes
  pub getservbyport : ℕ → Bool → Option Bytes

-- `NI_` flags
abbrev pub has_flag : ℕ → ℕ → Bool
has_flag flags bit = flags / bit % 2 == 1

abbrev pub ni_nofqdn : ℕ
ni_nofqdn = 1

abbrev pub ni_numerichost : ℕ
ni_numerichost = 2

abbrev pub ni_namereqd : ℕ
ni_namereqd = 4

abbrev pub ni_numericserv : ℕ
ni_numericserv = 8

abbrev pub ni_dgram : ℕ
ni_dgram = 16

-- `snprintf(buf, size, "%s", s)` with a size that is not 0
abbrev pub snprintf : ℕ → Bytes → Bytes
snprintf size s = take (size - 1) s

abbrev pub before_dot : Bytes → Bytes
before_dot [] = []
before_dot (c ∷ cs) = if c == 46 then [] else c ∷ before_dot cs

-- inet_ntop into a buffer, `none` for NULL
unfoldable pub numeric_host : Directory → ℕ → Bytes → ℕ → Option Bytes
numeric_host n fam addr size =
    n.inet_ntop fam addr >>= (λ s. if ltb (length s) size then some s else none)

-- the host part of `gn_ipv46`, `none` where it returns 1
unfoldable pub host_part : Directory → ℕ → Bytes → ℕ → ℕ → Option Bytes
host_part n fam addr size flags =
    if has_flag flags ni_numerichost
    then numeric_host n fam addr size
    else elim (n.gethostbyaddr addr fam) [
      | some name ↦
          some (snprintf size (if has_flag flags ni_nofqdn then before_dot name else name))
      | none ↦ if has_flag flags ni_namereqd then none else numeric_host n fam addr size
    ]

-- the service part; `htons` is its own inverse, ntohs
unfoldable pub serv_part : Directory → ℕ → ℕ → ℕ → Bytes
serv_part n port size flags =
    if has_flag flags ni_numericserv
    then snprintf size (decimal (htons port))
    else elim (n.getservbyport port (has_flag flags ni_dgram)) [
      | some name ↦ snprintf size name
      | none ↦ snprintf size (decimal (htons port))
    ]

-- What is written into the two buffers, `none` where a buffer has no size.
abbrev pub Names : Type 0
Names = Option Bytes × Option Bytes

abbrev pub serv_if : Directory → ℕ → ℕ → ℕ → Option Bytes
serv_if n port servlen flags = if ltb 0 servlen then some (serv_part n port servlen flags) else none

-- `gn_ipv46`, `none` where it returns 1
unfoldable pub gn_ipv46 : Directory → ℕ → Bytes → ℕ → ℕ → ℕ → ℕ → Option Names
gn_ipv46 n fam addr port hostlen servlen flags =
    if ltb 0 hostlen
    then (host_part n fam addr hostlen flags
        >>= (λ host. some (some host, serv_if n port servlen flags)))
    else some (none, serv_if n port servlen flags)

-- A socket address: of IPv4, of IPv6, of the Unix domain, or of another family.
pub data Sockaddr : Type 0 where
  sin : Bytes → ℕ → Sockaddr
  sin6 : Bytes → ℕ → Sockaddr
  sun : Bytes → Sockaddr
  other : Sockaddr

abbrev pub text_if : ℕ → Bytes → Option Bytes
text_if size s = if ltb 0 size then some (snprintf size s) else none

unfoldable pub getnameinfo : Directory → Sockaddr → ℕ → ℕ → ℕ → Option Names
getnameinfo n (sin addr port) hostlen servlen flags =
    gn_ipv46 n af_inet addr port hostlen servlen flags
getnameinfo n (sin6 addr port) hostlen servlen flags =
    gn_ipv46 n af_inet6 addr port hostlen servlen flags
getnameinfo n (sun path) hostlen servlen flags =
    some (text_if hostlen (codes "/local"), text_if servlen path)
getnameinfo n other hostlen servlen flags = none
