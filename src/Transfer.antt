-- ===== src/Transfer.antt =====
-- Lab4/tcp_sender.c and Lab4/tcp_receiver.c: the data transfer between the two programs. What the
-- kernel answers to write(2), read(2) and accept(2) is given, one reply to a call.
pub mod Amount
pub mod Drain
mod Tests
use cosc.Prelude.{
  ℕ, zero, suc, ◌+◌, ◌-◌, ◌*◌, ◌%◌, ◌^◌, Bool, true, false, Option, none, some, List, [], ◌∷◌, ◌++◌,
  ltb, if◌then◌else◌, take, Bytes,
}
use cosc.Stream.{Reply, got, interrupted, failed, Taken, took, cut, broken, sub_size}

-- `option_writeamt`
abbrev pub writeamt : ℕ
writeamt = 32 * 1024

-- the buffer of `send_data_to`, `n` bytes of it from index `i` on
unfoldable pub letters : ℕ → ℕ → Bytes
letters zero i = []
letters (suc n) i = (b'A' + i % 26) ∷ letters n (i + 1)

-- What `send_data_to` comes to, with the bytes that the kernel took: it returns 0 or -1, or waits.
pub data Sent : Type 0 where
  success : Bytes → Sent
  failure : Bytes → Sent
  waits : Bytes → Sent

-- the loop of `send_data_to`, where `amount` is a size_t and each write(2) is of the whole buffer
unfoldable pub send_from : ℕ → Bytes → List Taken → Sent
send_from amount out [] = waits out
send_from amount out (took zero ∷ ts) = failure out
send_from amount out (took (suc k) ∷ ts) =
    let left = sub_size amount (suc k) in
    let out' = out ++ take (suc k) (letters writeamt 0) in
    let more = send_from left out' ts in if ltb writeamt left then more else success out'
send_from amount out (cut ∷ ts) = failure out
send_from amount out (broken ∷ ts) = failure out

unfoldable pub send_data_to : ℕ → List Taken → Sent
send_data_to amount ts = send_from amount [] ts

-- A number stored in an `int`, and then passed as a size_t.
unfoldable pub through_int : ℕ → ℕ
through_int n = let low = n % 2 ^ 32 in if ltb low (2 ^ 31) then low else 2 ^ 64 - 2 ^ 32 + low

-- `size_senddata` of `main`, from the number of megabytes on the command line, an unsigned long
unfoldable pub senddata : ℕ → ℕ
senddata megabytes = through_int (megabytes * 1024 * 1024 % 2 ^ 64)

-- What `read_and_ignore_till_end` comes to: it returns 0 or -1, behind close(2), or waits.
pub data Drained : Type 0 where
  zero_closed : Drained
  minus_one_closed : Drained
  waiting : Drained

unfoldable pub drain : List Reply → Drained
drain [] = waiting
drain (got [] ∷ rs) = zero_closed
drain (got (b ∷ bs) ∷ rs) = drain rs
drain (interrupted ∷ rs) = minus_one_closed
drain (failed ∷ rs) = minus_one_closed

-- How the process of `tcp_receiver` ends: accept(2) gives a socket or fails.
pub data Exit : Type 0 where
  exit_success exit_failure running : Exit

abbrev status : Drained → Exit
status zero_closed = exit_success
status minus_one_closed = exit_failure
status waiting = running

unfoldable pub receive : Option ℕ → List Reply → Exit
receive none rs = exit_failure
receive (some fd) rs = status (drain rs)
