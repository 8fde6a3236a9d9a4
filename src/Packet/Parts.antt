-- ===== src/Packet/Parts.antt =====
-- The bytes of a packet that is put together from parts.
use cosc.Prelude.{
  ℕ, zero, suc, ◌+◌, ◌*◌, ◌<◌, ◌≡◌, refl, ap, ◌∙◌, [], ◌∷◌, ◌++◌, length, length-append, get_or,
  Bytes, lt→ltb, arith,
}
use cosc.Packet.{byte_at, word_at}

pub get_or-append_left :
    (xs ys : Bytes) (i : ℕ) → i < length xs → get_or (xs ++ ys) i 0 ≡ get_or xs i 0
get_or-append_left [] ys i h = absurd (omega arith)
get_or-append_left (x ∷ xs) ys zero h = refl
get_or-append_left (x ∷ xs) ys (suc i) h = get_or-append_left xs ys i (omega arith)

pub get_or-append_right :
    (xs ys : Bytes) (i j : ℕ) → i ≡ length xs + j → get_or (xs ++ ys) i 0 ≡ get_or ys j 0
get_or-append_right [] ys i j h = ap (λ n. get_or ys n 0) (h ∙ omega arith)
get_or-append_right (x ∷ xs) ys zero j h = absurd (omega arith)
get_or-append_right (x ∷ xs) ys (suc i) j h = get_or-append_right xs ys i j (omega arith)

-- Behind a header stands what follows it.
module _ (header rest : Bytes) (old : ℕ → ℕ) where
  pub byte_at-append :
      (i j : ℕ)
      → i ≡ length header + j
      → j < length rest
      → byte_at (record { bytes = header ++ rest; old = old }) i ≡ get_or rest j 0
  byte_at-append i j e h =
      rw (lt→ltb i (length (header ++ rest)) (let l = length-append header rest in omega arith))
        (get_or-append_right header rest i j e)

  pub byte_at-append_left :
      (i : ℕ)
      → i < length header
      → byte_at (record { bytes = header ++ rest; old = old }) i ≡ get_or header i 0
  byte_at-append_left i h =
      rw (lt→ltb i (length (header ++ rest)) (let l = length-append header rest in omega arith))
        (get_or-append_left header rest i h)

  pub word_at-append :
      (i j : ℕ)
      → i ≡ length header + j
      → suc j < length rest
      → word_at (record { bytes = header ++ rest; old = old }) i
        ≡ get_or rest j 0 + 256 * get_or rest (suc j) 0
  word_at-append i j e h =
      let a = byte_at-append i j e (omega arith) in
      let b = byte_at-append (i + 1) (suc j) (omega arith) h in omega (arith, a, b)
