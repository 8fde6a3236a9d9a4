-- ===== src/Datagram/Retransmit.antt =====
-- How often `dg_send_recv` of Lab2017/rtt/dg_send_recv.c sends, and what it takes for an answer.
use cosc.Prelude.{
  ℕ, suc, ◌+◌, ◌-◌, ◌%◌, ◌^◌, ◌≤◌, ◌<◌, ◌≡◌, refl, ap, ◌∙◌, Bool, true, false, not, ◌||◌, Option,
  some, none, List, [], ◌∷◌, ◌++◌, ltb, ◌==◌, if◌then◌else◌, length, length-append, All, arith,
  ltb-false, Bool-cases, inl, inr,
}
use native.Mathlib.Decide.{dec_lt}
use cosc.Datagram.{
  Floats, Time, Event, alarm, datagram, header_size, max_nrexmt, rtt_newpack, rtt_timeout, Client,
  Send, Outcome, returns, gives_up, waits, send_now, await, prepare, dg_send_recv,
}

-- A datagram answers the request with a sequence number.
abbrev pub is_answer : ℕ → ℕ → ℕ → Bool
is_answer own size seq = if ltb size header_size then false else seq == own

-- How many alarms go off before the first answer, and its size.
unfoldable pub alarms_before : ℕ → List Event → ℕ
alarms_before own [] = 0
alarms_before own (alarm now ∷ es) = suc (alarms_before own es)
alarms_before own (datagram size seq ts now ∷ es) =
    let rest = alarms_before own es in if is_answer own size seq then 0 else rest

unfoldable pub first_answer : ℕ → List Event → Option ℕ
first_answer own [] = none
first_answer own (alarm now ∷ es) = first_answer own es
first_answer own (datagram size seq ts now ∷ es) =
    let rest = first_answer own es in if is_answer own size seq then some size else rest

-- What a call comes to, with the number of datagrams that it sent.
pub data View : Type 0 where
  answered : ℕ → ℕ → View
  abandoned : ℕ → View
  waiting : ℕ → View

unfoldable pub expected : ℕ → ℕ → ℕ → Option ℕ → View
expected budget sent k answer = if ltb budget k then abandoned (sent + budget) else (elim answer [
  | some size ↦ answered (size - header_size) (sent + k)
  | none ↦ waiting (sent + k)
])

module _ (f : Floats) where
  abbrev pub view : Outcome f → View
  view (returns n c sent) = answered n (length sent)
  view (gives_up c sent) = abandoned (length sent)
  view (waits c sent) = waiting (length sent)

  expected-later :
      (b s k : ℕ) (o : Option ℕ) → 0 < b → expected (b - 1) (s + 1) k o ≡ expected b s (suc k) o
  unfolding expected
  expected-later b s k o h = ground arith

  view-await :
      (es : List Event) (c : Client f) (sent : List (Send f))
      → c.rttinfo.nrexmt ≤ max_nrexmt
      → view (await f es c sent)
        ≡ expected
            (max_nrexmt - c.rttinfo.nrexmt)
            (length sent)
            (alarms_before c.seq es)
            (first_answer c.seq es)
  unfolding await expected alarms_before first_answer rtt_timeout
  view-await [] c sent h = ground arith
  view-await (alarm now ∷ es) c sent h = elim (dec_lt c.rttinfo.nrexmt max_nrexmt) [
    | yes more ↦
        let r = (rtt_timeout f c.rttinfo).0 in
        let c' : Client f = record { rttinfo = r; rttinit = c.rttinit; seq = c.seq } in
        let out = sent ++ (send_now f now c' ∷ []) in
        let k = alarms_before c.seq es in
        let o = first_answer c.seq es in
        let b : ℕ = max_nrexmt - c.rttinfo.nrexmt in
        let budget : max_nrexmt - (c.rttinfo.nrexmt + 1) ≡ b - 1 = omega arith in
        let count : length out ≡ length sent + 1 = length-append sent (send_now f now c' ∷ []) in
        rw (ltb-false max_nrexmt (c.rttinfo.nrexmt + 1) (omega arith)) (
          view-await es c' out (omega arith)
          ∙ ap (λ n. expected n (length out) k o) budget
          ∙ ap (λ n. expected (b - 1) n k o) count
          ∙ expected-later b (length sent) k o (omega arith))
    | no last ↦ ground arith
  ]
  view-await (datagram size seq ts now ∷ es) c sent h = ground (arith, view-await es c sent h)

  abbrev pub own_seq : Client f → ℕ
  own_seq c = (c.seq + 1) % 2 ^ 32

  -- A request is sent once, and again at each alarm that goes off before the first datagram which holds
  -- a header and carries its sequence number, at most `max_nrexmt` times. That datagram's size less the
  -- header is returned; at the alarm behind the last repetition the call gives up; other datagrams
  -- change nothing.
  pub dg_send_recv_lem :
      (now : Time) (es : List Event) (c : Client f)
      → view (dg_send_recv f now es c)
        ≡ expected max_nrexmt 1 (alarms_before (own_seq c) es) (first_answer (own_seq c) es)
  unfolding dg_send_recv rtt_newpack
  dg_send_recv_lem now es c = view-await es (prepare f now c) _ (omega arith)

  abbrev pub SameSeq : ℕ → Outcome f → Type 0
  SameSeq own (returns n c sent) = (c.seq ≡ own) × (c.rttinit ≡ true) × All (λ s. s.seq ≡ own) sent
  SameSeq own (gives_up c sent) = (c.seq ≡ own) × (c.rttinit ≡ false) × All (λ s. s.seq ≡ own) sent
  SameSeq own (waits c sent) = (c.seq ≡ own) × (c.rttinit ≡ true) × All (λ s. s.seq ≡ own) sent

  All-append :
      (own : ℕ) (a : List (Send f)) (s : Send f)
      → All (λ x. x.seq ≡ own) a
      → s.seq ≡ own
      → All (λ x. x.seq ≡ own) (a ++ (s ∷ []))
  All-append own [] s h e = (e, tt)
  All-append own (x ∷ a) s h e = (h.0, All-append own a s h.1 e)

  SameSeq-await :
      (es : List Event) (c : Client f) (sent : List (Send f))
      → c.rttinit ≡ true
      → All (λ s. s.seq ≡ c.seq) sent
      → SameSeq c.seq (await f es c sent)
  unfolding await
  SameSeq-await [] c sent i h = (refl, i, h)
  SameSeq-await (alarm now ∷ es) c sent i h = elim (Bool-cases (rtt_timeout f c.rttinfo).1) [
    | inl stop ↦ rw stop (refl, refl, h)
    | inr on ↦
        let c' : Client f = record {
          rttinfo = (rtt_timeout f c.rttinfo).0;
          rttinit = c.rttinit;
          seq = c.seq;
        } in
        rw on (SameSeq-await es c' _ i (All-append c.seq sent (send_now f now c') h refl))
  ]
  SameSeq-await (datagram size seq ts now ∷ es) c sent i h =
      elim (Bool-cases (ltb size header_size || not (seq == c.seq))) [
        | inl skip ↦ rw skip (SameSeq-await es c sent i h)
        | inr answer ↦ rw answer (refl, i, h)
      ]

  -- Every repetition carries the sequence number of the request, one above the last one's modulo 2 ^ 32,
  -- and the estimators are started anew for the next request exactly when this one was given up.
  pub dg_send_recv-SameSeq :
      (now : Time) (es : List Event) (c : Client f) → SameSeq (own_seq c) (dg_send_recv f now es c)
  unfolding dg_send_recv
  dg_send_recv-SameSeq now es c = SameSeq-await es (prepare f now c) _ refl (refl, tt)
