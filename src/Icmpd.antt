-- ===== src/Icmpd.antt =====
-- Lab2017/icmpd: the daemon that reads ICMP errors on raw sockets and passes each to the clients that
-- have handed it the UDP socket that the error is about. Of its clients it keeps the table `client`;
-- `top` is maxi + 1. What the kernel answers in a round of `main` is a record. The wrappers (Accept,
-- Recvfrom, Read_fd, Write) are taken to succeed. Ports are the 16 bits as they stand in memory.
pub mod Tables
pub mod Daemon
pub mod Serving
pub mod Rounds
pub mod Quotes
pub mod Errors
mod Tests
use cosc.Packet.{Packet, byte_at, word_at, copy, header_length}
use cosc.Prelude.{
  ℕ, zero, suc, ◌+◌, ◌-◌, ◌*◌, ◌%◌, Bool, true, false, Option, none, some, List, [], ◌∷◌, ◌++◌, ltb,
  leb, ◌==◌, ◌&&◌, ◌||◌, if◌then◌else◌, ◌>>=◌, length, get_or, replicate, Bytes,
}
use cosc.Prelude.Int.{ℤ, pos, negsuc, is_negative, is_zero}

-- `FD_SETSIZE`
abbrev pub fd_setsize : ℕ
fd_setsize = 1024

abbrev pub af_inet : ℕ
af_inet = 2

abbrev pub af_inet6 : ℕ
af_inet6 = 10

-- `struct client`, with `none` for a connfd of -1
pub record Entry : Type 0 where
  pub connfd : Option ℕ
  pub family : ℕ
  pub lport : ℤ

pub record Icmpd : Type 0 where
  pub client : List Entry
  pub top : ℕ
  pub allset : ℕ → Bool
  pub maxfd : ℕ

-- fd4, fd6, listenfd
pub record Sockets : Type 0 where
  pub fd4 : ℕ
  pub fd6 : ℕ
  pub listenfd : ℕ

pub data Errno : Type 0 where
  host_unreachable : Errno
  refused : Errno
  too_long : Errno

-- `struct icmpd_err`, with the address and the port of `icmpd_dest`
pub record IcmpdErr : Type 0 where
  pub errno : Errno
  pub icmp_type : ℕ
  pub icmp_code : ℕ
  pub dest : Bytes
  pub dest_port : ℕ

pub data Action : Type 0 where
  report : ℕ → IcmpdErr → Action
  accepts : ℕ → Action
  refuses : ℕ → Action
  close : ℕ → Action

-- What getsockname(2) gives.
pub record Name : Type 0 where
  pub family : ℕ
  pub port : ℕ

-- What Read_fd gives: the end, a byte without a descriptor, or a descriptor, with what getsockname(2)
-- says of it.
pub data Passed : Type 0 where
  ended : Passed
  no_descriptor : Passed
  descriptor : ℕ → Option Name → Passed

-- What the kernel answers in one round: the descriptors that select(2) finds ready and their number, the
-- socket of accept(2), the packets on the raw sockets, and on the connection of each client what it
-- passes and, for sock_bind_wild, the port that bind(2) and getsockname(2) come to.
pub record Kernel : Type 0 where
  pub select : ℕ → Bool
  pub nready : ℕ
  pub accepted : ℕ
  pub packet4 : Packet
  pub packet6 : Packet
  pub passed : ℕ → Passed
  pub wild_port : ℕ → Option ℕ

-- the search for an entry in `readable_listen`
unfoldable pub place : ℕ → List Entry → Option (List Entry × ℕ)
place fd [] = none
place fd (e ∷ es) =
    let rest = place fd es in
    elim e.connfd [
      | none ↦ some (record e { connfd = some fd } ∷ es, 0)
      | some x ↦ rest >>= (λ r. some (e ∷ r.0, suc r.1))
    ]

abbrev pub fd_set : ℕ → (ℕ → Bool) → ℕ → Bool
fd_set fd all x = (x == fd) || all x

abbrev pub fd_clr : ℕ → (ℕ → Bool) → ℕ → Bool
fd_clr fd all x = if x == fd then false else all x

abbrev pub greater : ℕ → ℕ → ℕ
greater a b = if ltb a b then b else a

-- `readable_listen` behind the search
abbrev pub admit : ℕ → Icmpd → Option (List Entry × ℕ) → Icmpd × List Action
admit fd s none = (s, close fd ∷ [])
admit fd s (some (es, i)) = (
  record {
    client = es;
    top = greater s.top (suc i);
    allset = fd_set fd s.allset;
    maxfd = greater s.maxfd fd;
  },
  [],
)

unfoldable pub readable_listen : ℕ → Icmpd → Icmpd × List Action
readable_listen fd s = admit fd s (place fd s.client)

abbrev pub is_inet : ℕ → Bool
is_inet family = (family == af_inet) || (family == af_inet6)

unfoldable pub sock_get_port : Name → ℤ
sock_get_port n = if is_inet n.family then pos n.port else negsuc 0

unfoldable pub sock_bind_wild : ℕ → Option ℕ → ℤ
sock_bind_wild family port =
    if is_inet family then elim port [ none ↦ negsuc 0 | some p ↦ pos p ] else negsuc 0

-- the part of `readable_conn` behind `clienterr` and `clientdone`
abbrev pub refuse : ℕ → List Action → Entry → Entry × List Action
refuse unixfd more e = (record e { connfd = none }, refuses unixfd ∷ close unixfd ∷ more)

abbrev pub approve : ℕ → ℕ → Entry → Entry × List Action
approve unixfd recvfd e = (e, accepts unixfd ∷ close recvfd ∷ [])

-- `readable_conn` on the entry of its client
unfoldable pub readable_conn : Passed → Option ℕ → ℕ → Entry → Entry × List Action
readable_conn ended wild unixfd e = (record e { connfd = none }, close unixfd ∷ [])
readable_conn no_descriptor wild unixfd e = refuse unixfd [] e
readable_conn (descriptor recvfd none) wild unixfd e = refuse unixfd (close recvfd ∷ []) e
readable_conn (descriptor recvfd (some n)) wild unixfd e =
    let port = sock_get_port n in
    let bound = sock_bind_wild n.family wild in
    if is_zero port
    then (if is_negative bound || is_zero bound
        then refuse unixfd (close recvfd ∷ []) (record e { family = n.family; lport = bound })
        else approve unixfd recvfd (record e { family = n.family; lport = bound }))
    else approve unixfd recvfd (record e { family = n.family; lport = port })

abbrev pub is_open : Entry → Bool
is_open e = elim e.connfd [ none ↦ false | some fd ↦ true ]

abbrev pub Loop : Type 0
Loop = List Entry × (ℕ → Bool) × List Action

abbrev pub keep : Entry → Loop → Loop
keep e r = (e ∷ r.0, r.1, r.2)

abbrev pub done : Entry × List Action → Loop → Loop
done c r = (c.0 ∷ r.0, r.1, c.1 ++ r.2)

-- FD_CLR of a client that is gone
abbrev pub settle : Entry → ℕ → (ℕ → Bool) → ℕ → Bool
settle e fd all = if is_open e then all else fd_clr fd all

-- the loop over the first `k` clients; it ends when `nready` is used up
unfoldable pub serve : Kernel → (ℕ → Bool) → ℕ → ℕ → List Entry → (ℕ → Bool) → Loop
serve k ready zero nready es all = (es, all, [])
serve k ready (suc n) nready [] all = ([], all, [])
serve k ready (suc n) nready (e ∷ es) all = elim e.connfd [
  | none ↦ keep e (serve k ready n nready es all)
  | some fd ↦ elim (ready fd) [
    | false ↦ keep e (serve k ready n nready es all)
    | true ↦
        let r = readable_conn (k.passed fd) (k.wild_port fd) fd e in
        let rest = settle r.0 fd all in
        elim (leb nready 1) [
          | true ↦ done r (es, rest, [])
          | false ↦ done r (serve k ready n (nready - 1) es rest)
        ]
  ]
]

-- the daemon before its loop
unfoldable pub start : Sockets → Icmpd
start f = record {
  client = replicate fd_setsize (record { connfd = none; family = 0; lport = pos 0 });
  top = 0;
  allset = λ fd. (fd == f.fd4) || ((fd == f.fd6) || (fd == f.listenfd));
  maxfd = greater (greater f.fd4 f.fd6) f.listenfd;
}
