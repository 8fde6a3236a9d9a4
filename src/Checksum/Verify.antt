-- ===== src/Checksum/Verify.antt =====
-- A block with its checksum behind it has the checksum 0.
use cosc.Prelude.{
  ℕ, ◌+◌, ◌-◌, ◌*◌, ◌/◌, ◌%◌, ◌^◌, ◌<◌, ◌≡◌, refl, [], ◌∷◌, ◌++◌, Bytes, length, arith,
}
use cosc.Checksum.{sum_from, fold_carries, in_cksum}

pub fold_carries_small : (s : ℕ) → fold_carries s < 2 ^ 16
unfolding fold_carries
fold_carries_small s = omega arith

-- Adding what was computed to the sum makes the folded sum all ones.
pub cancel : (s : ℕ) → s + 65536 < 2 ^ 32 → fold_carries (s + fold_carries s) ≡ 0
unfolding fold_carries
cancel s h = omega arith

-- The block consists of bytes in pairs.
abbrev pub Pairs : Bytes → Type 0
Pairs [] = Unit
Pairs (a ∷ []) = ⊥
Pairs (a ∷ b ∷ rest) = (a < 256) × (b < 256) × Pairs rest

sum_from-append :
    (bs : Bytes) (acc lo hi : ℕ)
    → Pairs bs
    → sum_from acc (bs ++ (lo ∷ hi ∷ [])) ≡ (sum_from acc bs + (lo + 256 * hi)) % 2 ^ 32
unfolding sum_from
sum_from-append [] acc lo hi p = refl
sum_from-append (a ∷ []) acc lo hi p = absurd p
sum_from-append (a ∷ b ∷ rest) acc lo hi p = sum_from-append rest _ lo hi p.2

pub sum_from-bound :
    (bs : Bytes) (acc : ℕ)
    → Pairs bs
    → acc + length bs * 32768 + 65536 < 2 ^ 32
    → sum_from acc bs + 65536 < 2 ^ 32
unfolding sum_from
sum_from-bound [] acc p h = omega arith
sum_from-bound (a ∷ []) acc p h = absurd p
sum_from-bound (a ∷ b ∷ rest) acc p h = sum_from-bound rest _ p.2 (omega (arith, p.0, p.1))

-- A block of whole 16-bit words, at most 128 KB of it, with its checksum behind it in the byte order of
-- the host has the checksum 0: the receiver's test of an intact block succeeds.
pub in_cksum-append :
    (bs : Bytes)
    → Pairs bs
    → length bs < 2 ^ 17 - 2
    → in_cksum (bs ++ (in_cksum bs % 256 ∷ in_cksum bs / 256 ∷ [])) ≡ 0
unfolding in_cksum
in_cksum-append bs p h =
    let s = sum_from 0 bs in
    let c = fold_carries s in
    let small = sum_from-bound bs 0 p (omega arith) in
    let whole : (s + (c % 256 + 256 * (c / 256))) % 2 ^ 32 ≡ s + c =
      omega (arith, fold_carries_small s) in
    rw (sum_from-append bs 0 (c % 256) (c / 256) p, whole) (cancel s small)
