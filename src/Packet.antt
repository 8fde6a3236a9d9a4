-- ===== src/Packet.antt =====
-- A packet that a raw socket gives, as Lab2017/icmpd/readable_v4.c and Lab2017/ping/proc_v4.c read it, on a
-- host that stores the low byte of a number first.
pub mod Parts
use cosc.Prelude.{ℕ, zero, suc, ◌+◌, ◌*◌, ◌%◌, [], ◌∷◌, if◌then◌else◌, ltb, length, get_or, Bytes}

-- The buffer: the bytes that the call stores, and what stands in memory behind them
pub record Packet : Type 0 where
  pub bytes : Bytes
  pub old : ℕ → ℕ

abbrev pub byte_at : Packet → ℕ → ℕ
byte_at p i = if ltb i (length p.bytes) then get_or p.bytes i 0 else p.old i

-- 16 bits, the low byte first
abbrev pub word_at : Packet → ℕ → ℕ
word_at p i = byte_at p i + 256 * byte_at p (i + 1)

abbrev pub copy : Packet → ℕ → ℕ → Bytes
copy p i zero = []
copy p i (suc n) = byte_at p i ∷ copy p (i + 1) n

-- `ip_hl << 2` of the header that begins at `i`
abbrev pub header_length : Packet → ℕ → ℕ
header_length p i = (byte_at p i % 16) * 4
