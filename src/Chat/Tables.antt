-- ===== src/Chat/Tables.antt =====
-- The loops over the tables of Lab3/chatserver.c, as functions of whole lists.
use cosc.Prelude.{
  ℕ, zero, suc, ◌+◌, ◌≤◌, ◌<◌, ◌≡◌, refl, ap, ◌∙◌, List, [], ◌∷◌, ◌++◌, arith, length, get_or, set,
  take, drop, length-set,
}
use native.Mathlib.Numerals.{add-one}

module _ {ℓ} {A : Type ℓ} where
  -- The list without its element at an index.
  abbrev pub erase_at : ℕ → List A → List A
  erase_at i [] = []
  erase_at zero (x ∷ xs) = xs
  erase_at (suc i) (x ∷ xs) = x ∷ erase_at i xs

  -- `n` rounds of copying an element over the one before it, from index `k` on.
  abbrev pub shift : ℕ → ℕ → A → List A → List A
  shift zero k d xs = xs
  shift (suc n) k d xs = shift n (k + 1) d (set xs k (get_or xs (k + 1) d))

  shift-suc : (n k : ℕ) (d x : A) (xs : List A) → shift n (suc k) d (x ∷ xs) ≡ x ∷ shift n k d xs
  shift-suc zero k d x xs = refl
  shift-suc (suc n) k d x xs = simp add-one (shift-suc n (suc k) d x _)

  pub length-erase_at :
      (i : ℕ) (xs : List A) → i < length xs → suc (length (erase_at i xs)) ≡ length xs
  length-erase_at i [] h = absurd (omega arith)
  length-erase_at zero (x ∷ xs) h = refl
  length-erase_at (suc i) (x ∷ xs) h = ap suc (length-erase_at i xs (omega arith))

  take-shift_zero :
      (n : ℕ) (d x : A) (xs : List A) → n ≤ length xs → take n (shift n 0 d (x ∷ xs)) ≡ take n xs
  take-shift_zero zero d x xs h = refl
  take-shift_zero (suc n) d x [] h = absurd (omega arith)
  take-shift_zero (suc n) d x (y ∷ ys) h =
      rw (shift-suc n 0 d y (y ∷ ys)) (ap (◌∷◌ y) (take-shift_zero n d y ys (omega arith)))

  -- The copying loop erases the element at `k` from the first `m + 1`.
  pub take-shift :
      (n k m : ℕ) (d : A) (xs : List A)
      → m ≡ k + n
      → m < length xs
      → take m (shift n k d xs) ≡ erase_at k (take (suc m) xs)
  take-shift n k m d [] e h = absurd (omega arith)
  take-shift n zero m d (x ∷ xs) e h =
      let same : m ≡ n = omega arith in rw same (take-shift_zero n d x xs (omega arith))
  take-shift n (suc k) zero d (x ∷ xs) e h = absurd (omega arith)
  take-shift n (suc k) (suc m) d (x ∷ xs) e h =
      rw (shift-suc n k d x xs) (ap (◌∷◌ x) (take-shift n k m d xs (omega arith) (omega arith)))

  pub length-shift : (n k : ℕ) (d : A) (xs : List A) → length (shift n k d xs) ≡ length xs
  length-shift zero k d xs = refl
  length-shift (suc n) k d xs =
      length-shift n (k + 1) d (set xs k (get_or xs (k + 1) d)) ∙ length-set xs k _

  -- A write behind the first `n` elements extends them.
  pub take-set :
      (n : ℕ) (xs : List A) (v : A)
      → n < length xs
      → take (suc n) (set xs n v) ≡ take n xs ++ (v ∷ [])
  take-set n [] v h = absurd (omega arith)
  take-set zero (x ∷ xs) v h = refl
  take-set (suc n) (x ∷ xs) v h = ap (◌∷◌ x) (take-set n xs v (omega arith))

  pub set-take : (n i : ℕ) (xs : List A) (v : A) → take n (set xs i v) ≡ set (take n xs) i v
  set-take zero i xs v = refl
  set-take (suc n) i [] v = refl
  set-take (suc n) zero (x ∷ xs) v = refl
  set-take (suc n) (suc i) (x ∷ xs) v = ap (◌∷◌ x) (set-take n i xs v)

  pub set_shorter : (n i : ℕ) (xs : List A) (v : A) → n ≤ i → take n (set xs i v) ≡ take n xs
  set_shorter zero i xs v h = refl
  set_shorter (suc n) i [] v h = refl
  set_shorter (suc n) zero (x ∷ xs) v h = absurd (omega arith)
  set_shorter (suc n) (suc i) (x ∷ xs) v h = ap (◌∷◌ x) (set_shorter n i xs v (omega arith))

  -- The window of `suc n` elements from `j` on begins with element `j`.
  pub take-drop-suc :
      (n j : ℕ) (xs : List A) (d : A)
      → j < length xs
      → take (suc n) (drop j xs) ≡ get_or xs j d ∷ take n (drop (suc j) xs)
  take-drop-suc n j [] d h = absurd (omega arith)
  take-drop-suc n zero (x ∷ xs) d h = refl
  take-drop-suc n (suc j) (x ∷ xs) d h = take-drop-suc n j xs d (omega arith)
