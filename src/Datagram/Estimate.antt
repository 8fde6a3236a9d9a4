-- ===== src/Datagram/Estimate.antt =====
-- The retransmission timeout of Lab2017/lib/rtt.c.
use cosc.Prelude.{ℕ, ◌≡◌, true, false, Bool-cases, inl, inr, ◌⊎◌, arith}
use cosc.Datagram.{Floats, Compares, Time, rxt_min, rxt_max, Rtt, rtt_minmax, rtt_init, rtt_stop}

module _ (f : Floats) (c : Compares f) where
  open c use {nan, le, number, ordered, not_lt}

  -- A timeout of the range of `rtt_minmax`.
  abbrev pub InRange : f.F → Type 0
  InRange x = (le (f.of_ℕ rxt_min) x ≡ true) × (le x (f.of_ℕ rxt_max) ≡ true)

  -- Two numbers that are compared, neither a NaN.
  rtt_minmax-lower :
      (x : f.F) → nan x ≡ false → f.lt x (f.of_ℕ rxt_min) ≡ false → le (f.of_ℕ rxt_min) x ≡ true
  rtt_minmax-lower x n h = elim (not_lt x (f.of_ℕ rxt_min) h) [
    | inl y ↦ cc
    | inr (inl y) ↦ let z = number rxt_min (omega arith) in cc
    | inr (inr l) ↦ l
  ]

  rtt_minmax-upper :
      (x : f.F) → nan x ≡ false → f.lt (f.of_ℕ rxt_max) x ≡ false → le x (f.of_ℕ rxt_max) ≡ true
  rtt_minmax-upper x n h = elim (not_lt (f.of_ℕ rxt_max) x h) [
    | inl y ↦ let z = number rxt_max (omega arith) in cc
    | inr (inl y) ↦ cc
    | inr (inr l) ↦ l
  ]

  rtt_minmax-InRange : (x : f.F) → (nan (rtt_minmax f x) ≡ true) ⊎ InRange (rtt_minmax f x)
  unfolding rtt_minmax
  rtt_minmax-InRange x = elim (Bool-cases (f.lt x (f.of_ℕ rxt_min))) [
    | inl low ↦ inr (
        rw low (
          ordered rxt_min rxt_min (omega arith) (omega arith),
          ordered rxt_min rxt_max (omega arith) (omega arith),
        ))
    | inr above ↦ elim (Bool-cases (f.lt (f.of_ℕ rxt_max) x)) [
      | inl high ↦ inr (
          rw (above, high)
            (
              ordered rxt_min rxt_max (omega arith) (omega arith),
              ordered rxt_max rxt_max (omega arith) (omega arith),
            ))
      | inr below ↦ elim (Bool-cases (nan x)) [
        | inl y ↦ inl (rw (above, below) y)
        | inr n ↦ inr (rw (above, below) (rtt_minmax-lower x n above, rtt_minmax-upper x n below))
      ]
    ]
  ]

  -- Whatever is measured, the timeout of `rtt_init` and of `rtt_stop` is from `rxt_min` to `rxt_max`
  -- seconds, unless the arithmetic gives a NaN, which both tests of `rtt_minmax` let pass. Numbers are
  -- compared as IEEE 754 has it.
  pub rto-InRange :
      (now : Time) (ms : ℕ) (r : Rtt f)
      → ((nan (rtt_init f now r).rto ≡ true) ⊎ InRange (rtt_init f now r).rto)
        × ((nan (rtt_stop f ms r).rto ≡ true) ⊎ InRange (rtt_stop f ms r).rto)
  unfolding rtt_init rtt_stop
  rto-InRange now ms r = (rtt_minmax-InRange _, rtt_minmax-InRange _)
