-- ===== src/Checksum.antt =====
-- Lab2017/libfree/in_cksum.c: the Internet checksum, on a host that stores the low byte of a word first.
pub mod Verify
mod Tests
use cosc.Prelude.{ℕ, ◌+◌, ◌-◌, ◌*◌, ◌/◌, ◌%◌, ◌^◌, List, [], ◌∷◌, Bytes}

-- the loop and the odd byte behind it; `sum` has 32 bits
unfoldable pub sum_from : ℕ → Bytes → ℕ
sum_from sum [] = sum
sum_from sum (a ∷ []) = (sum + a) % 2 ^ 32
sum_from sum (a ∷ b ∷ rest) = sum_from ((sum + (a + 256 * b)) % 2 ^ 32) rest

-- the carries back into 16 bits, and the complement
unfoldable pub fold_carries : ℕ → ℕ
fold_carries sum =
    let once = sum / 2 ^ 16 + sum % 2 ^ 16 in
    let twice = (once + once / 2 ^ 16) % 2 ^ 32 in (2 ^ 32 - 1 - twice) % 2 ^ 16

unfoldable pub in_cksum : Bytes → ℕ
in_cksum bytes = fold_carries (sum_from 0 bytes)
