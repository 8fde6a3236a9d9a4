-- ===== src/Transfer/Tests.antt =====
-- The sender and the receiver of Lab4 on concrete amounts.
use cosc.Prelude.{◌+◌, ◌-◌, ◌*◌, ◌≤◌, ◌<◌, ◌^◌, ◌≡◌, refl, length, replicate, arith, [], ◌∷◌, take}
use cosc.Stream.{took}
use cosc.Transfer.{
  writeamt, letters, success, waits, send_from, send_data_to, senddata, through_int,
}
use cosc.Transfer.Amount.{
  copies, pieces, send_data_to_short, send_data_to_whole, send_data_to_runaway,
}

-- 2048 megabytes do not fit an `int`.
senddata_wraps : senddata 2048 ≡ 2 ^ 64 - 2 ^ 31
unfolding senddata through_int
senddata_wraps = refl

send_data_to_short_example :
    (length (copies 1) < 1 * writeamt + 5) × (1 * writeamt + 5 ≤ length (copies 1) + writeamt)
send_data_to_short_example =
    send_data_to_short (1 * writeamt + 5) (replicate 1 (took writeamt)) (omega arith) (omega arith)
      (omega arith) (send_data_to_whole 0 5 (omega arith) (omega arith) (omega arith))

-- 100 bytes are asked for: the first write(2) takes a whole buffer, the next two less.
send_data_to_runaway_example :
    send_data_to 100 (took writeamt ∷ took 5 ∷ took 3000 ∷ [])
    ≡ waits (pieces (took writeamt ∷ took 5 ∷ took 3000 ∷ []))
send_data_to_runaway_example =
    send_data_to_runaway 100 (writeamt - 1) (took 5 ∷ took 3000 ∷ []) (omega arith) (omega arith)
      ((omega arith, omega arith), ((omega arith, omega arith), tt)) (omega arith)

-- A first write(2) of just what is asked for ends the loop.
exact_amount : send_data_to 100 (took 100 ∷ []) ≡ success (take 100 (letters writeamt 0))
unfolding send_data_to send_from
exact_amount = refl
