-- ===== src/Delivery/Tests.antt =====
-- The file servers and clients of the labs on concrete answers of the kernel.
use cosc.Prelude.{
  ◌≡◌, refl, true, false, some, [], ◌∷◌, ◌++◌, map, arith, All, inr, Bytes, replicate,
}
use cosc.Prelude.Int.{pos, negsuc}
use cosc.Delivery.{
  Connection, Server, Visit, server_loop, returned, hands, dump_all, dump_once, data_received,
}
use cosc.Delivery.Forking.{Forks, fork_server_lem}
use cosc.Delivery.Sequential.{Succeeds, whole, server_loop_lem}
use cosc.Delivery.Showing.{IsPiece, dump_lem}

-- Three bytes are sent on socket 4; fork(2) fails for socket 5.
abbrev first : Connection
first = record {
  accepted = 4;
  forks = true;
  file = some (10 ∷ 20 ∷ 30 ∷ []);
  sends = some 3;
  peer_ip = some [];
  peer_port = 7;
}

abbrev second : Connection
second = record first { accepted = 5; forks = false }

abbrev listening : Server
listening = record { fds = 3 ∷ []; children = []; out = [] }

fork_server_lem_example : (t : Server) × Forks (first ∷ second ∷ []) listening t
fork_server_lem_example =
    fork_server_lem (first ∷ second ∷ []) listening (([], refl), (([], refl), tt))

abbrev served : Visit
served = record { accepted = some 4; file = some (5, 10 ∷ 20 ∷ []); sends = true; taken = 2 }

-- The client goes away behind the first byte.
abbrev gone : Visit
gone = record served { sends = false; taken = 1 }

abbrev served-Succeeds : All Succeeds (served ∷ [])
served-Succeeds = (
  record { fd = 4; file_fd = 5; bytes = 10 ∷ 20 ∷ []; accepts = refl; opens = refl; sends = refl },
  tt,
)

gone_run : server_loop (served ∷ gone ∷ served ∷ []) ≡ record {
  sent = (4, 10 ∷ 20 ∷ []) ∷ (4, 10 ∷ []) ∷ [];
  left_open = 4 ∷ 5 ∷ [];
  returns = true;
}
unfolding server_loop
gone_run = refl

server_loop_lem_example :
    (server_loop (served ∷ [])
      ≡ record { sent = whole (served ∷ []) served-Succeeds; left_open = []; returns = false })
    × (server_loop (served ∷ gone ∷ served ∷ []) ≡ server_loop (served ∷ gone ∷ []))
    × ((server_loop (served ∷ gone ∷ served ∷ [])).returns ≡ true)
    × ((server_loop (served ∷ gone ∷ served ∷ [])).sent
        ≡ whole (served ∷ []) served-Succeeds ++ (server_loop (gone ∷ [])).sent)
server_loop_lem_example =
    server_loop_lem (served ∷ []) gone (served ∷ []) served-Succeeds (inr (inr refl))

-- 600 bytes come at once: the client of Lab2 shows 512 of them.
buffer_full :
    dump_once (replicate 600 10) (hands 599 ∷ [])
    ≡ returned (pos 0) (replicate 512 10 ++ data_received)
unfolding dump_once
buffer_full = refl

dump_lem_example :
    (dump_all (10 ∷ 20 ∷ 30 ∷ []) (map hands (1 ∷ 0 ∷ 0 ∷ 7 ∷ []))
      ≡ returned (negsuc 0) (10 ∷ 20 ∷ 30 ∷ []))
    × ((p : Bytes) × (dump_once (10 ∷ 20 ∷ 30 ∷ []) (map hands (1 ∷ 0 ∷ 0 ∷ 7 ∷ []))
          ≡ returned (pos 0) (p ++ data_received))
        × IsPiece p (10 ∷ 20 ∷ 30 ∷ []))
dump_lem_example = dump_lem 10 (20 ∷ 30 ∷ []) 1 (0 ∷ 0 ∷ 7 ∷ []) (omega arith)
