-- ===== src/Ping/Tests.antt =====
-- A ping with two requests and an answer to the first.
use cosc.Prelude.{◌+◌}
use cosc.Ping.Times.{micros}
use cosc.Ping.Hops.{Tells, first, later, proc_v6-send_v6}
use cosc.Ping.Exchange.{IsPast, IsLineOf}
use cosc.Prelude.{
  ℕ, ◌≡◌, refl, true, false, none, some, List, [], ◌∷◌, ◌++◌, ◌==◌, if◌then◌else◌, arith, Bytes,
}
use cosc.Packet.{Packet}
use cosc.Ping.{
  Timeval, tv_sub, Cmsg, Line, echo_reply, proto_v4, proc_v4, proc_v6, proc_icmp4, send_v4, send_v6,
  alarm, packet, fails, ends, loop_from, readloop,
}
use cosc.Ping.Fields.{answer_to}
use cosc.Ping.Replies.{IsIcmp}
use cosc.Ping.Loop.{requests, readloop_lem}
use cosc.Ping.Exchange.{get_elem?, shown_of, readloop-answer_to}

abbrev start : Timeval
start = record { tv_sec = 100; tv_usec = 999000 }

abbrev second : Timeval
second = record { tv_sec = 101; tv_usec = 999100 }

abbrev arrival : Timeval
arrival = record { tv_sec = 102; tv_usec = 500 }

abbrev no_memory : ℕ → ℕ
no_memory i = 0

-- An IP header of 20 bytes, with a time to live of 64.
abbrev header : Bytes
header = 69 ∷ 0 ∷ 84 ∷ 0 ∷ 0 ∷ 0 ∷ 0 ∷ 0 ∷ 64 ∷ 1 ∷ 0 ∷ 0 ∷ 192 ∷ 0 ∷ 2 ∷ 1 ∷ 192 ∷ 0 ∷ 2 ∷ 2 ∷ []

header-IsIcmp : IsIcmp header
header-IsIcmp = record { long_enough = omega arith; its_length = refl; icmp = refl }

abbrev answered : Packet
answered = record { bytes = header ++ answer_to 0 1 2 (send_v4 7 0 start); old = no_memory }

abbrev hops : List Cmsg
hops = record { cmsg_level = 41; cmsg_type = 52; value = 63 } ∷ []

readloop_lem_example :
    readloop proto_v4 7 true start (alarm second ∷ fails ∷ alarm arrival ∷ [])
    ≡ ends (record { nsent = 2; sent = requests proto_v4 7 0 (start ∷ second ∷ []); shown = [] })
readloop_lem_example =
    readloop_lem proto_v4 7 true start (alarm second ∷ fails ∷ alarm arrival ∷ [])

start-IsPast : IsPast arrival start
start-IsPast = record {
  time = record { small = omega arith; positive = omega arith };
  not_later = omega arith;
}

second-IsPast : IsPast arrival second
second-IsPast = record {
  time = record { small = omega arith; positive = omega arith };
  not_later = omega arith;
}

-- The hop limit stands behind another item of the same level.
abbrev items : List Cmsg
items = record { cmsg_level = 41; cmsg_type = 50; value = 9 } ∷ hops

items-Tells : Tells items (some 63)
items-Tells =
    later _ hops (some 63) (λ e. let f : 50 ≡ 52 = e.1 in omega (arith, f))
      (first _ [] (refl, refl) (omega arith))

proc_v6-send_v6_example :
    (rtt : Timeval) × (proc_v6 7 true
        (record { bytes = answer_to 129 1 2 (send_v6 7 65537 start); old = no_memory })
        items
        arrival
      ≡ (if 7 == 7 then some (echo_reply 64 1 (some 63) rtt) else none))
    × (micros rtt + micros start ≡ micros arrival)
proc_v6-send_v6_example =
    proc_v6-send_v6 7 7 65537 1 2 true no_memory items (some 63) start arrival (omega arith)
      (record { small = omega arith; positive = omega arith }) start-IsPast items-Tells

readloop-answer_to_example :
    (sent : Timeval) × (line : Line) × (rest : List Line) × (get_elem? (start ∷ second ∷ []) 0
      ≡ some sent)
    × (shown_of
          (readloop proto_v4 7 false start (alarm second ∷ packet answered [] arrival ∷ fails ∷ []))
        ≡ shown_of (readloop proto_v4 7 false start (alarm second ∷ [])) ++ line ∷ rest)
    × IsLineOf 0 64 sent arrival line
unfolding readloop loop_from
readloop-answer_to_example =
    readloop-answer_to 7 false start (alarm second ∷ []) (fails ∷ []) 0 1 2 (send_v4 7 0 start)
      header no_memory [] arrival (omega arith) (start-IsPast, (second-IsPast, tt))
      (record { small = omega arith; positive = omega arith }) refl refl header-IsIcmp

-- A reply with 16 bytes behind the IP header passes the test, and the time is read behind its end.
short_reply :
    proc_v4 7 false
      (record {
        bytes = header ++ (0 ∷ 0 ∷ 1 ∷ 2 ∷ 7 ∷ 0 ∷ 5 ∷ 0 ∷ 1 ∷ 0 ∷ 0 ∷ 0 ∷ 0 ∷ 0 ∷ 0 ∷ 0 ∷ []);
        old = λ i. 1;
      })
      []
      arrival
    ≡ some (
        echo_reply 16 5
          (some 64)
          (tv_sub arrival (record { tv_sec = 1; tv_usec = 72340172838076673 })))
unfolding proc_v4 proc_icmp4
short_reply = refl
