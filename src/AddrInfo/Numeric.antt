-- ===== src/AddrInfo/Numeric.antt =====
-- Reading a number that was printed, as ga_serv reads a service, and the byte order of a port.
use cosc.Prelude.{
  ℕ, zero, suc, ◌+◌, ◌*◌, ◌/◌, ◌%◌, ◌<◌, ◌≡◌, ap, ◌∙◌, true, [], ◌∷◌, ltb, arith, Bytes, decimal,
  decimal_from, Bool-cases, inl, inr,
}
use cosc.Endpoint.{htons}
use cosc.AddrInfo.Lookup.{is_digit, first}
use cosc.AddrInfo.Service.{atoi_from}

pub htons-htons : (n : ℕ) → n < 65536 → htons (htons n) ≡ n
htons-htons n h = omega arith

pub htons-lt : (n : ℕ) → htons n < 65536
htons-lt n = omega arith

digit : (d : ℕ) → d < 10 → is_digit (48 + d) ≡ true
digit d h = ground arith

atoi_digit :
    (n d : ℕ) (rest : Bytes) → d < 10 → atoi_from n ((48 + d) ∷ rest) ≡ atoi_from (n * 10 + d) rest
unfolding atoi_from
atoi_digit n d rest h = rw (digit d h) (ap (λ x. atoi_from x rest) (omega arith))

-- Reading what was printed.
atoi-decimal_from :
    (f k : ℕ) (rest : Bytes) → k < f → atoi_from 0 (decimal_from f k rest) ≡ atoi_from k rest
unfolding decimal_from
atoi-decimal_from zero k rest h = absurd (omega arith)
atoi-decimal_from (suc f) k rest h = elim (Bool-cases (ltb k 10)) [
  | inl small ↦ rw small (
      atoi_digit 0 (k % 10) rest (omega arith) ∙ ap (λ x. atoi_from x rest) (ground (arith, small)))
  | inr big ↦ rw big (
      atoi-decimal_from f (k / 10) ((48 + k % 10) ∷ rest) (ground (arith, big))
      ∙ atoi_digit (k / 10) (k % 10) rest (omega arith)
      ∙ ap (λ x. atoi_from x rest) (omega arith))
]

pub atoi-decimal : (n : ℕ) → atoi_from 0 (decimal n) ≡ n
unfolding decimal atoi_from
atoi-decimal n = atoi-decimal_from (suc n) n [] (omega arith)

-- What is printed begins with a digit.
first-decimal_from :
    (f k : ℕ) (rest : Bytes) → k < f → is_digit (first (decimal_from f k rest)) ≡ true
unfolding decimal_from
first-decimal_from zero k rest h = absurd (omega arith)
first-decimal_from (suc f) k rest h = elim (Bool-cases (ltb k 10)) [
  | inl small ↦ rw small (digit (k % 10) (omega arith))
  | inr big ↦ rw big (first-decimal_from f (k / 10) ((48 + k % 10) ∷ rest) (ground (arith, big)))
]

pub first-decimal : (n : ℕ) → is_digit (first (decimal n)) ≡ true
unfolding decimal
first-decimal n = first-decimal_from (suc n) n [] (omega arith)
