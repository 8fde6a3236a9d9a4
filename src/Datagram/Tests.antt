-- ===== src/Datagram/Tests.antt =====
-- Requests over UDP with seconds as whole numbers in place of floating-point ones.
use cosc.Prelude.{
  ℕ, ◌+◌, ◌-◌, ◌*◌, ◌/◌, ◌≡◌, refl, false, List, [], ◌∷◌, ltb, leb, none, some, Option, Bool, true,
  inl, inr, ◌⊎◌, ◌^◌, if◌then◌else◌, arith, ◌≤◌,
}
use cosc.Datagram.{
  Floats, Compares, max_nrexmt, Time, Event, alarm, datagram, Rtt, rtt_init, rtt_stop, Client,
  dg_send_recv,
}
use cosc.Datagram.Retransmit.{
  alarms_before, first_answer, answered, abandoned, expected, view, dg_send_recv_lem, SameSeq,
  dg_send_recv-SameSeq,
}
use cosc.Datagram.Estimate.{InRange, rto-InRange}

abbrev whole : Floats
whole = record {
  F = ℕ;
  of_ℕ = λ n. n;
  add = λ a b. a + b;
  sub = λ a b. a - b;
  mul = λ a b. a * b;
  div = λ a b. a / b;
  lt = ltb;
  to_float = λ a. a;
  truncate = λ a. a;
}

-- Whole numbers below 2 ^ 53 and a NaN, which every operation passes on and no comparison holds of.
abbrev lift : (ℕ → ℕ → ℕ) → Option ℕ → Option ℕ → Option ℕ
lift op none b = none
lift op (some a) none = none
lift op (some a) (some b) = let r = op a b in if ltb r (2 ^ 53) then some r else none

abbrev holds : (ℕ → ℕ → Bool) → Option ℕ → Option ℕ → Bool
holds test none b = false
holds test (some a) none = false
holds test (some a) (some b) = test a b

abbrev is_nan : Option ℕ → Bool
is_nan none = true
is_nan (some a) = false

abbrev partial : Floats
partial = record {
  F = Option ℕ;
  of_ℕ = λ n. if ltb n (2 ^ 53) then some n else none;
  add = lift (λ a b. a + b);
  sub = lift (λ a b. a - b);
  mul = lift (λ a b. a * b);
  div = lift (λ a b. a / b);
  lt = holds ltb;
  to_float = λ a. a;
  truncate = λ a. elim a [ none ↦ 0 | some n ↦ n ];
}

not_lt_holds :
    (a b : Option ℕ)
    → holds ltb a b ≡ false
    → (is_nan a ≡ true) ⊎ ((is_nan b ≡ true) ⊎ (holds leb b a ≡ true))
not_lt_holds none b h = inl refl
not_lt_holds (some a) none h = inr (inl refl)
not_lt_holds (some a) (some b) h = inr (inr (ground (arith, h)))

partial-number : (n : ℕ) → n ≤ 60 → is_nan (partial.of_ℕ n) ≡ false
partial-number n h = ground arith

partial-ordered : (m n : ℕ) → m ≤ n → n ≤ 60 → holds leb (partial.of_ℕ m) (partial.of_ℕ n) ≡ true
partial-ordered m n h k = ground arith

abbrev partial-Compares : Compares partial
partial-Compares = record {
  nan = is_nan;
  le = holds leb;
  number = partial-number;
  ordered = partial-ordered;
  not_lt = not_lt_holds;
}

abbrev now : Time
now = record { sec = 100; usec = 0 }

abbrev fresh : Client whole
fresh = record {
  rttinfo = record { rtt = 0; srtt = 0; rttvar = 0; rto = 3; nrexmt = 0; base = 0 };
  rttinit = false;
  seq = 7;
}

-- One alarm, an answer to an older request, and the answer.
abbrev events : List Event
events = alarm now ∷ datagram 12 7 0 now ∷ datagram 12 8 0 now ∷ []

one_repeat : expected max_nrexmt 1 (alarms_before 8 events) (first_answer 8 events) ≡ answered 4 2
unfolding expected alarms_before first_answer
one_repeat = refl

silence :
    expected max_nrexmt 1
      (alarms_before 8 (alarm now ∷ alarm now ∷ alarm now ∷ alarm now ∷ []))
      none
    ≡ abandoned 4
unfolding expected alarms_before
silence = refl

dg_send_recv_lem_example :
    view whole (dg_send_recv whole now events fresh)
    ≡ expected max_nrexmt 1 (alarms_before 8 events) (first_answer 8 events)
dg_send_recv_lem_example = dg_send_recv_lem whole now events fresh

dg_send_recv-SameSeq_example : SameSeq whole 8 (dg_send_recv whole now events fresh)
dg_send_recv-SameSeq_example = dg_send_recv-SameSeq whole now events fresh

abbrev measured : Rtt partial
measured = record {
  rtt = some 0;
  srtt = some 0;
  rttvar = some 0;
  rto = some 3;
  nrexmt = 0;
  base = 0;
}

rto-InRange_example :
    ((is_nan (rtt_init partial now measured).rto ≡ true)
      ⊎ InRange partial partial-Compares (rtt_init partial now measured).rto)
    × ((is_nan (rtt_stop partial 90000 measured).rto ≡ true)
        ⊎ InRange partial partial-Compares (rtt_stop partial 90000 measured).rto)
rto-InRange_example = rto-InRange partial partial-Compares now 90000 measured
