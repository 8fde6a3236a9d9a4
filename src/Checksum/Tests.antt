-- ===== src/Checksum/Tests.antt =====
-- The checksum of the example in RFC 1071.
use cosc.Prelude.{◌+◌, ◌*◌, ◌-◌, ◌≡◌, refl, [], ◌∷◌, Bytes}
use cosc.Checksum.{sum_from, fold_carries, in_cksum}

abbrev block : Bytes
block = 0 ∷ 1 ∷ 242 ∷ 3 ∷ 244 ∷ 245 ∷ 246 ∷ 247 ∷ []

-- the sum is 0xddf2 in network order
block_run : in_cksum block ≡ 65535 - (221 + 256 * 242)
unfolding in_cksum sum_from fold_carries
block_run = refl
