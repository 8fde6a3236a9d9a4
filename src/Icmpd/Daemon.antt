-- ===== src/Icmpd/Daemon.antt =====
-- Lab2017/icmpd/readable_v4.c and readable_v6.c, and the rounds of main in icmpd.c.
use cosc.Prelude.{
  ℕ, zero, suc, ◌+◌, ◌-◌, Bool, false, Option, none, some, List, [], ◌∷◌, ◌++◌, ltb, leb, ◌==◌,
  ◌&&◌, ◌||◌, if◌then◌else◌, ◌>>=◌, length, Bytes,
}
use cosc.Prelude.Int.{ℤ, pos, negsuc}
use cosc.Packet.{Packet, byte_at, word_at, copy, header_length}
use cosc.Icmpd.{
  af_inet, af_inet6, Entry, Icmpd, Sockets, Errno, host_unreachable, refused, too_long, IcmpdErr,
  Action, report, Kernel, readable_listen, serve,
}

abbrev pub is_port : ℤ → ℕ → Bool
is_port (pos n) port = n == port
is_port (negsuc n) port = false

abbrev pub is_for : ℕ → ℕ → Entry → Bool
is_for family port e = (e.family == family) && is_port e.lport port

-- the loop of `readable_v4` and `readable_v6` over the first `k` clients
unfoldable pub tell : ℕ → ℕ → IcmpdErr → ℕ → List Entry → List Action
tell family port err zero es = []
tell family port err (suc k) [] = []
tell family port err (suc k) (e ∷ es) =
    let rest = tell family port err k es in
    elim e.connfd [
      | none ↦ rest
      | some fd ↦ if is_for family port e then report fd err ∷ rest else rest
    ]

abbrev pub errno4 : ℕ → ℕ → Errno
errno4 type code =
    if type == 3
    then (if code == 3 then refused else if code == 4 then too_long else host_unreachable)
    else host_unreachable

abbrev pub make_err : (ℕ → ℕ → Errno) → ℕ → ℕ → Bytes → ℕ → IcmpdErr
make_err errno type code dest port = record {
  errno = errno type code;
  icmp_type = type;
  icmp_code = code;
  dest = dest;
  dest_port = port;
}

-- what is written to the clients, with the header of the lost packet at `i`
abbrev pub error4 : Packet → ℕ → ℕ → IcmpdErr
error4 p h i =
    make_err errno4 (byte_at p h) (byte_at p (h + 1)) (copy p (i + 16) 4)
      (word_at p (i + header_length p i + 2))

-- ICMP_UNREACH, ICMP_TIMXCEED, ICMP_SOURCEQUENCH
abbrev pub is_error4 : ℕ → Bool
is_error4 type = (type == 3) || ((type == 11) || (type == 4))

-- `readable_v4` on a packet whose ICMP header is at `h`; `none` stands for err_quit
unfoldable pub read_icmp4 : Packet → Icmpd → ℕ → Option (List Action)
read_icmp4 p s h =
    let i = h + 8 in
    if ltb (length p.bytes) (h + 8)
    then none
    else if is_error4 (byte_at p h)
    then (if ltb (length p.bytes) (h + 36)
        then none
        else if byte_at p (i + 9) == 17
        then some (tell af_inet (word_at p (i + header_length p i)) (error4 p h i) s.top s.client)
        else some [])
    else some []

unfoldable pub readable_v4 : Packet → Icmpd → Option (List Action)
readable_v4 p s = read_icmp4 p s (header_length p 0)

abbrev pub errno6 : ℕ → ℕ → Errno
errno6 type code =
    if type == 2 then too_long else if (type == 1) && (code == 4) then refused else host_unreachable

abbrev pub error6 : Packet → IcmpdErr
error6 p = make_err errno6 (byte_at p 0) (byte_at p 1) (copy p 32 16) (word_at p 50)

-- ICMP6_DST_UNREACH, ICMP6_PACKET_TOO_BIG, ICMP6_TIME_EXCEEDED
abbrev pub is_error6 : ℕ → Bool
is_error6 type = (type == 1) || ((type == 2) || (type == 3))

unfoldable pub readable_v6 : Packet → Icmpd → Option (List Action)
readable_v6 p s =
    if ltb (length p.bytes) 8
    then none
    else if is_error6 (byte_at p 0)
    then (if ltb (length p.bytes) 16
        then none
        else if byte_at p 14 == 17
        then some (tell af_inet6 (word_at p 48) (error6 p) s.top s.client)
        else some [])
    else some []

abbrev pub behind : List Action → Option (Icmpd × List Action) → Option (Icmpd × List Action)
behind a none = none
behind a (some (s, acts)) = some (s, a ++ acts)

-- The round behind each of its tests; `ready` is `rset` and `n` is `nready`.
unfoldable pub serve_all : Kernel → (ℕ → Bool) → ℕ → Icmpd → Icmpd × List Action
serve_all k ready n s =
    let (es, all, acts) = serve k ready s.top n s.client s.allset in
    (record s { client = es; allset = all }, acts)

unfoldable pub from_v6 : Sockets → Kernel → (ℕ → Bool) → ℕ → Icmpd → Option (Icmpd × List Action)
from_v6 f k ready n s =
    if ready f.fd6
    then (readable_v6 k.packet6 s
        >>= (λ a. if leb n 1 then some (s, a) else behind a (some (serve_all k ready (n - 1) s))))
    else some (serve_all k ready n s)

unfoldable pub from_v4 : Sockets → Kernel → (ℕ → Bool) → ℕ → Icmpd → Option (Icmpd × List Action)
from_v4 f k ready n s =
    if ready f.fd4
    then (readable_v4 k.packet4 s
        >>= (λ a. if leb n 1 then some (s, a) else behind a (from_v6 f k ready (n - 1) s)))
    else from_v6 f k ready n s

-- `rset` behind select(2)
abbrev pub ready_in : Kernel → Icmpd → ℕ → Bool
ready_in k s fd = (leb fd s.maxfd && s.allset fd) && k.select fd

-- one round of the loop of `main`
unfoldable pub round : Sockets → Kernel → Icmpd → Option (Icmpd × List Action)
round f k s =
    let ready = ready_in k s in
    if ready f.listenfd
    then (let (t, a) = readable_listen k.accepted s in
        if leb k.nready 1 then some (t, a) else behind a (from_v4 f k ready (k.nready - 1) t))
    else from_v4 f k ready k.nready s
