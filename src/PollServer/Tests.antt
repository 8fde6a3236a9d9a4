-- ===== src/PollServer/Tests.antt =====
-- The echo server over poll(2) on concrete rounds.
use cosc.Prelude.{◌≡◌, refl, true, false, none, some, [], ◌∷◌, ◌==◌, ◌||◌, if◌then◌else◌, arith}
use cosc.PollServer.{
  bytes, echo, close, Server, Poll, goes_on, poll_slots, place, handle, serve, connect, round,
  quits,
}
use cosc.PollServer.Echo.{NoError}
use cosc.PollServer.Rounds.{Serves, round-Serves, round_quits}

-- Sockets 4, 6 and 7 in the first three slots, one slot free behind them, whose `revents` is set.
abbrev three : Server
three = record {
  slots =
      record { fd = some 4; ready = false }
      ∷ record { fd = some 6; ready = true }
      ∷ record { fd = some 7; ready = false }
      ∷ record { fd = none; ready = true }
      ∷ [];
  maxi = 3;
}

-- 4 has sent two bytes, 7 has closed, and a client connects on socket 9.
abbrev busy : Poll
busy = record {
  connects = true;
  ready = λ fd. fd == 4 || fd == 7;
  nready = 3;
  accepted = some 9;
  reading = λ fd. if fd == 4 then bytes (104 ∷ 105 ∷ []) else bytes [];
  writes = λ fd. true;
}

busy_run :
    round busy three
    ≡ goes_on
        (record {
          slots =
              record { fd = some 4; ready = true }
              ∷ record { fd = some 6; ready = false }
              ∷ record { fd = none; ready = true }
              ∷ record { fd = some 9; ready = true }
              ∷ [];
          maxi = 4;
        })
        (echo 4 (104 ∷ 105 ∷ []) ∷ close 7 ∷ [])
unfolding round connect poll_slots place serve handle
busy_run = refl

busy-NoError : NoError busy
busy-NoError = record { reads = λ fd. ground arith; writes = λ fd. refl }

round-Serves_example : (t : Server) × Serves busy three t
round-Serves_example =
    round-Serves busy three busy-NoError (refl, tt)
      (λ e. record { fd = 9; accepts = refl; room = omega arith }) refl

-- A server with one slot, which is taken.
abbrev one : Server
one = record { slots = record { fd = some 4; ready = false } ∷ []; maxi = 1 }

one_full : round busy one ≡ quits
one_full = round_quits busy one tt refl refl
