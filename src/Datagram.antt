-- ===== src/Datagram.antt =====
-- Lab2017/lib/rtt.c and Lab2017/rtt/dg_send_recv.c: reliable requests over UDP. Floating-point numbers
-- are a parameter; times, datagrams and timeouts are given in their order.
pub mod Retransmit
pub mod Estimate
mod Tests
use cosc.Prelude.{
  ℕ, zero, suc, ◌+◌, ◌-◌, ◌*◌, ◌/◌, ◌%◌, ◌^◌, ◌≡◌, Bool, true, false, not, ◌||◌, List, [], ◌∷◌,
  ◌++◌, ltb, ◌==◌, ◌≤◌, ◌⊎◌, if◌then◌else◌,
}

-- The numbers of C's `double`, with rounding to `float` where the source stores one.
pub record Floats : Type 1 where
  pub F : Type 0
  pub of_ℕ : ℕ → F
  pub add : F → F → F
  pub sub : F → F → F
  pub mul : F → F → F
  pub div : F → F → F
  pub lt : F → F → Bool
  pub to_float : F → F
  pub truncate : F → ℕ

-- What is assumed of them, as IEEE 754 has it: small whole numbers are exact, so `<=` orders them, and
-- none of them is a NaN; of two numbers that are no NaN, one is `<=` the other when it is not `>`.
pub record Compares (f : Floats) : Type 0 where
  pub nan : f.F → Bool
  pub le : f.F → f.F → Bool
  pub number : (n : ℕ) → n ≤ 60 → nan (f.of_ℕ n) ≡ false
  pub ordered : (m n : ℕ) → m ≤ n → n ≤ 60 → le (f.of_ℕ m) (f.of_ℕ n) ≡ true
  pub not_lt : (a b : f.F) → f.lt a b ≡ false → (nan a ≡ true) ⊎ ((nan b ≡ true) ⊎ (le b a ≡ true))

abbrev pub rxt_min : ℕ
rxt_min = 2

abbrev pub rxt_max : ℕ
rxt_max = 60

abbrev pub max_nrexmt : ℕ
max_nrexmt = 3

-- `struct timeval`
pub record Time : Type 0 where
  pub sec : ℕ
  pub usec : ℕ

-- What happens while `dg_send_recv` waits: the alarm goes off, or a datagram of `size` bytes comes with
-- a header.
pub data Event : Type 0 where
  alarm : Time → Event
  datagram : (size seq ts : ℕ) → Time → Event

abbrev pub header_size : ℕ
header_size = 8

module _ (f : Floats) where
  open f use {F, of_ℕ, add, sub, mul, div, lt, to_float, truncate}

  -- `struct rtt_info`
  pub record Rtt : Type 0 where
    pub rtt : F
    pub srtt : F
    pub rttvar : F
    pub rto : F
    pub nrexmt : ℕ
    pub base : ℕ

  unfoldable pub rtt_minmax : F → F
  rtt_minmax rto =
      if lt rto (of_ℕ rxt_min)
      then of_ℕ rxt_min
      else if lt (of_ℕ rxt_max) rto
      then of_ℕ rxt_max
      else rto

  -- `RTT_RTOCALC`
  abbrev pub rtocalc : F → F → F
  rtocalc srtt rttvar = add srtt (mul (of_ℕ 4) rttvar)

  -- `rtt_init`; it leaves `rtt_nrexmt` alone
  unfoldable pub rtt_init : Time → Rtt → Rtt
  rtt_init now r =
      let rttvar = to_float (div (of_ℕ 3) (of_ℕ 4)) in
      record {
        rtt = of_ℕ 0;
        srtt = of_ℕ 0;
        rttvar = rttvar;
        rto = rtt_minmax (to_float (rtocalc (of_ℕ 0) rttvar));
        nrexmt = r.nrexmt;
        base = now.sec % 2 ^ 32;
      }

  -- `rtt_ts`, a number of 32 bits
  unfoldable pub rtt_ts : Time → Rtt → ℕ
  rtt_ts now r = ((now.sec + 2 ^ 32 - r.base) * 1000 + now.usec / 1000) % 2 ^ 32

  unfoldable pub rtt_newpack : Rtt → Rtt
  rtt_newpack r = record r { nrexmt = 0 }

  unfoldable pub rtt_start : Rtt → ℕ
  rtt_start r = truncate (add r.rto (div (of_ℕ 1) (of_ℕ 2)))

  unfoldable pub rtt_stop : ℕ → Rtt → Rtt
  rtt_stop ms r =
      let rtt = to_float (div (of_ℕ ms) (of_ℕ 1000)) in
      let delta = sub rtt r.srtt in
      let srtt = to_float (add r.srtt (div delta (of_ℕ 8))) in
      let size = if lt delta (of_ℕ 0) then sub (of_ℕ 0) delta else delta in
      let rttvar = to_float (add r.rttvar (div (sub size r.rttvar) (of_ℕ 4))) in
      record r {
        rtt = rtt;
        srtt = srtt;
        rttvar = rttvar;
        rto = rtt_minmax (to_float (rtocalc srtt rttvar));
      }

  -- `rtt_timeout`, with `true` when it returns -1
  unfoldable pub rtt_timeout : Rtt → Rtt × Bool
  rtt_timeout r = (
    record r { rto = to_float (mul r.rto (of_ℕ 2)); nrexmt = r.nrexmt + 1 },
    ltb max_nrexmt (r.nrexmt + 1),
  )

  -- The statics of dg_send_recv.c.
  pub record Client : Type 0 where
    pub rttinfo : Rtt
    pub rttinit : Bool
    pub seq : ℕ

  -- A datagram that is sent, with the seconds that the alarm is set to.
  pub record Send : Type 0 where
    pub seq : ℕ
    pub ts : ℕ
    pub seconds : ℕ

  -- What `dg_send_recv` comes to, with what it sent.
  pub data Outcome : Type 0 where
    returns : ℕ → Client → List Send → Outcome
    gives_up : Client → List Send → Outcome
    waits : Client → List Send → Outcome

  abbrev send_now : Time → Client → Send
  send_now now c = record { seq = c.seq; ts = rtt_ts now c.rttinfo; seconds = rtt_start c.rttinfo }

  -- what follows `sendagain:`, behind the first send
  unfoldable pub await : List Event → Client → List Send → Outcome
  await [] c sent = waits c sent
  await (alarm now ∷ es) c sent =
      let (r, stop) = rtt_timeout c.rttinfo in
      let c' : Client = record { rttinfo = r; rttinit = c.rttinit; seq = c.seq } in
      let again = await es c' (sent ++ (send_now now c' ∷ [])) in
      if stop then gives_up (record { rttinfo = r; rttinit = false; seq = c.seq }) sent else again
  await (datagram size seq ts now ∷ es) c sent =
      let r = rtt_stop ((rtt_ts now c.rttinfo + 2 ^ 32 - ts) % 2 ^ 32) c.rttinfo in
      let more = await es c sent in
      if ltb size header_size || not (seq == c.seq)
      then more
      else returns (size - header_size) (record { rttinfo = r; rttinit = c.rttinit; seq = c.seq })
          sent

  abbrev prepare : Time → Client → Client
  prepare now c = record {
    rttinfo = rtt_newpack (if c.rttinit then c.rttinfo else rtt_init now c.rttinfo);
    rttinit = true;
    seq = (c.seq + 1) % 2 ^ 32;
  }

  unfoldable pub dg_send_recv : Time → List Event → Client → Outcome
  dg_send_recv now es c = let c' = prepare now c in await es c' (send_now now c' ∷ [])
