-- ===== src/Icmpd/Tests.antt =====
-- The ICMP daemon on concrete rounds.
use cosc.Packet.{Packet}
use cosc.Prelude.{inl}
use cosc.Prelude.{◌+◌, ◌*◌, ◌≡◌, refl, none, some, [], ◌∷◌, ◌++◌, ◌==◌, arith, map, replicate}
use cosc.Prelude.Int.{pos}
use cosc.Icmpd.{
  af_inet, Icmpd, Sockets, report, accepts, close, ended, descriptor, Kernel, place,
  readable_listen, readable_conn, sock_get_port, sock_bind_wild, serve, start,
}
use cosc.Icmpd.Tables.{IsValid}
use cosc.Icmpd.Daemon.{tell, read_icmp4, readable_v4, serve_all, from_v6, from_v4, round}
use cosc.Icmpd.Rounds.{Run, begin, next, IsDistinct, Run-IsValid}
use cosc.Icmpd.Quotes.{Quote, IsQuote, packet_of, err_of}
use cosc.Icmpd.Errors.{subscribers, readable_v4_lem}

abbrev sockets : Sockets
sockets = record { fd4 = 3; fd6 = 4; listenfd = 5 }

sockets-IsDistinct : IsDistinct sockets
sockets-IsDistinct = record {
  raw = λ e. absurd (omega arith);
  listen4 = λ e. absurd (omega arith);
  listen6 = λ e. absurd (omega arith);
}

abbrev no_packet : Packet
no_packet = record { bytes = []; old = λ i. 0 }

-- A client connects on the socket 7.
abbrev connecting : Kernel
connecting = record {
  select = λ fd. fd == 5;
  nready = 1;
  accepted = 7;
  packet4 = no_packet;
  packet6 = no_packet;
  passed = λ fd. ended;
  wild_port = λ fd. none;
}

abbrev connected : (s : Icmpd) × Run sockets s
unfolding start round readable_listen place from_v4 from_v6 serve_all serve
connected = (_, next _ connecting _ begin refl refl)

Run-IsValid_example : IsValid sockets connected.0
Run-IsValid_example = Run-IsValid sockets-IsDistinct connected.1

-- A port that is not reachable, for a datagram from port 9 of this host.
abbrev unreachable : Quote
unreachable = record {
  outer = 69 ∷ replicate 19 0;
  icmp_type = 3;
  icmp_code = 3;
  unused = replicate 6 0;
  inner = 69 ∷ (replicate 8 0 ++ (17 ∷ replicate 10 0));
  source = (0, 9);
  dest = (0, 13);
  more = replicate 4 0;
}

unreachable-IsQuote : IsQuote unreachable
unreachable-IsQuote = record {
  outer = refl;
  some_outer = omega arith;
  header = refl;
  inner = refl;
  some_inner = omega arith;
  quoted = omega arith;
  udp = refl;
  kind = inl refl;
}

abbrev one_client : Icmpd
one_client = record {
  client = record { connfd = some 7; family = af_inet; lport = pos 2304 } ∷ [];
  top = 1;
  allset = λ fd. fd == 7;
  maxfd = 7;
}

readable_v4_lem_example :
    readable_v4 (packet_of unreachable (λ i. 0)) one_client
    ≡ some (
        map
          (λ fd. report fd (err_of unreachable))
          (subscribers af_inet (0 + 256 * 9) one_client.client))
readable_v4_lem_example = readable_v4_lem unreachable (λ i. 0) one_client unreachable-IsQuote tt

reported :
    readable_v4 (packet_of unreachable (λ i. 0)) one_client
    ≡ some (report 7 (err_of unreachable) ∷ [])
unfolding readable_v4 read_icmp4 tell
reported = refl

-- A client that takes the entry of one that has left gets the errors for the port of that one.
left_and_replaced :
    let gone =
      (readable_conn ended none 7
        (record { connfd = some 7; family = af_inet; lport = pos 2304 })).0 in
    let s = (readable_listen 8 (record one_client { client = gone ∷ [] })).0 in
    readable_v4 (packet_of unreachable (λ i. 0)) s ≡ some (report 8 (err_of unreachable) ∷ [])
unfolding readable_v4 read_icmp4 tell readable_conn readable_listen place
left_and_replaced = refl

-- A socket that is passed with a port is registered.
registers :
    readable_conn
      (descriptor 9 (some (record { family = af_inet; port = 2304 })))
      none
      7
      (record { connfd = some 7; family = 0; lport = pos 0 })
    ≡ (record { connfd = some 7; family = af_inet; lport = pos 2304 }, accepts 7 ∷ close 9 ∷ [])
unfolding readable_conn sock_get_port sock_bind_wild
registers = refl
