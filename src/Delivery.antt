-- ===== src/Delivery.antt =====
-- Lab2/tcp_fork_server.c, Lab4/tcp_easy_ipv46_server.c and the clients Lab2/tcp_client.c,
-- Lab2/tcp_easy_ipv4_client.c and Lab4/tcp_easy_ipv46_client.c: servers that send a file to everybody
-- who connects, and clients that show what they receive. What the kernel answers is given, one record
-- to a connection and one reply to a read(2).
pub mod Forking
pub mod Sequential
pub mod Showing
mod Tests
use cosc.Prelude.{
  ℕ, ◌+◌, Bool, true, false, Option, none, some, List, [], ◌∷◌, ◌++◌, ◌==◌, if◌then◌else◌, take,
  drop, min, suc, Bytes, codes, decimal,
}
use cosc.Prelude.Int.{ℤ, pos, negsuc}

-- What the kernel answers in one round of `tcp_fork_server`: the socket of accept(2) (Accept ends the
-- process on an error), whether fork(2) succeeds, the file that open(2) finds, how many of its bytes
-- sendfile(2) takes, if it does not fail, and the address that getpeername(2) and inet_ntop(3) find.
pub record Connection : Type 0 where
  pub accepted : ℕ
  pub forks : Bool
  pub file : Option Bytes
  pub sends : Option ℕ
  pub peer_ip : Option Bytes
  pub peer_port : ℕ

-- What a child process sends on its socket, and whether it exits with 0. Nothing waits for it.
pub record Child : Type 0 where
  pub socket : ℕ
  pub sent : Bytes
  pub success : Bool

-- the branch of the child; `send_file_to_socket` fails on a file that could not be opened
unfoldable pub child_main : Connection → Child
child_main c = elim c.file [
  | none ↦ record { socket = c.accepted; sent = []; success = false }
  | some bytes ↦ elim c.sends [
    | none ↦ record { socket = c.accepted; sent = []; success = false }
    | some n ↦ record { socket = c.accepted; sent = take n bytes; success = true }
  ]
]

-- The server process: its open descriptors, the children that it has forked, and what it has printed.
pub record Server : Type 0 where
  pub fds : List ℕ
  pub children : List Child
  pub out : List Bytes

abbrev pub close_fd : ℕ → List ℕ → List ℕ
close_fd fd [] = []
close_fd fd (x ∷ xs) = if x == fd then xs else x ∷ close_fd fd xs

unfoldable pub connected : Bytes → ℕ → Bytes
connected ip port =
    codes "Client "
    ++ (ip ++ (codes " connected to server via port " ++ (decimal port ++ codes "\n")))

-- one round of the loop of `tcp_fork_server`; `none` where the process ends by err_sys or err_quit
unfoldable pub fork_round : Connection → Server → Option Server
fork_round c s =
    let fds = c.accepted ∷ s.fds in
    if c.forks
    then elim c.peer_ip [
      | none ↦ none
      | some ip ↦ some (record {
        fds = close_fd c.accepted fds;
        children = s.children ++ (child_main c ∷ []);
        out = s.out ++ (connected ip c.peer_port ∷ []);
      })
    ]
    else some (record s { fds = fds })

unfoldable pub fork_server : List Connection → Server → Option Server
fork_server [] s = some s
fork_server (c ∷ cs) s = elim (fork_round c s) [ none ↦ none | some t ↦ fork_server cs t ]

-- What the kernel answers in one round of `server_loop`: accept(2), open(2) with the descriptor and the
-- bytes of the file, and sendfile(2), which hands over the file whole unless it fails behind `taken`
-- bytes.
pub record Visit : Type 0 where
  pub accepted : Option ℕ
  pub file : Option (ℕ × Bytes)
  pub sends : Bool
  pub taken : ℕ

-- What `server_loop` has sent on which socket, the descriptors that it leaves open, and whether it has
-- returned.
pub record Served : Type 0 where
  pub sent : List (ℕ × Bytes)
  pub left_open : List ℕ
  pub returns : Bool

unfoldable pub server_loop : List Visit → Served
server_loop [] = record { sent = []; left_open = []; returns = false }
server_loop (v ∷ vs) =
    let rest = server_loop vs in
    elim v.accepted [
      | none ↦ record { sent = []; left_open = []; returns = true }
      | some fd ↦ elim v.file [
        | none ↦ record { sent = []; left_open = fd ∷ []; returns = true }
        | some (n, bytes) ↦
            if v.sends then record rest { sent = (fd, bytes) ∷ rest.sent } else record {
              sent = (fd, take v.taken bytes) ∷ [];
              left_open = fd ∷ n ∷ [];
              returns = true;
            }
      ]
    ]

-- What `dump_socket_to_stdout` returns, and what it has written by then.
pub data Dump : Type 0 where
  returned : ℤ → Bytes → Dump
  reading : Bytes → Dump

-- `buf`
abbrev pub buffer_size : ℕ
buffer_size = 512

-- What the kernel answers to a read(2) on the socket: it hands over one byte and up to `n` more, as far
-- as there are any before the end of the stream and they fit the buffer; or it fails.
pub data Answer : Type 0 where
  hands : ℕ → Answer
  fails : Answer

abbrev pub piece_size : ℕ → ℕ
piece_size n = min (suc n) buffer_size

abbrev pub shown_first : Bytes → Dump → Dump
shown_first bs (returned r shown) = returned r (bs ++ shown)
shown_first bs (reading shown) = reading (bs ++ shown)

-- that of Lab4/tcp_easy_ipv46_client.c, on what the server sends before it closes the connection
unfoldable pub dump_all : Bytes → List Answer → Dump
dump_all s [] = reading []
dump_all s (fails ∷ rs) = returned (negsuc 0) []
dump_all [] (hands n ∷ rs) = returned (negsuc 0) []
dump_all (b ∷ bs) (hands n ∷ rs) =
    let rest = dump_all (drop (piece_size n) (b ∷ bs)) rs in
    shown_first (take (piece_size n) (b ∷ bs)) rest

abbrev pub data_received : Bytes
data_received = codes "data received\n"

-- that of Lab2/tcp_client.c, whose loop returns in its first round
unfoldable pub dump_once : Bytes → List Answer → Dump
dump_once s [] = reading []
dump_once s (fails ∷ rs) = returned (negsuc 0) []
dump_once [] (hands n ∷ rs) = returned (pos 0) []
dump_once (b ∷ bs) (hands n ∷ rs) = returned (pos 0) (take (piece_size n) (b ∷ bs) ++ data_received)
