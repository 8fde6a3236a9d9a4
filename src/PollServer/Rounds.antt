-- ===== src/PollServer/Rounds.antt =====
-- Whole rounds of the echo server over poll(2).
use cosc.Prelude.{
  ℕ, zero, suc, ◌+◌, ◌-◌, ◌<◌, Bool, ◌≡◌, refl, ap, sym, ◌∙◌, true, false, none, some, List, [],
  ◌∷◌, ◌++◌, leb, if◌then◌else◌, arith, length, Bool-cases, inl, inr,
}
use mathlib.Core.List.{Perm}
use mathlib.Core.List.Perm
use cosc.PollServer.{Server, Poll, goes_on, quits, poll_slots, connect, round, start, fresh_slots}
use cosc.PollServer.Echo.{
  sockets, replies, kept, count, FreeFrom, NoError, serve_lem, done_idle, Option-cases, all_after,
  slot_count,
}
use cosc.PollServer.Slots.{poll_slots-IsPolled, all_after-FreeFrom, place-IsPlaced, top, place_full}

-- The sockets that a round adds, and how many events poll(2) finds.
abbrev pub joining : Poll → List ℕ
joining p = if p.connects then elim p.accepted [ none ↦ [] | some fd ↦ fd ∷ [] ] else []

abbrev pub events : Poll → List ℕ → ℕ
events p fds = if p.connects then suc (count p.ready fds) else count p.ready fds

-- What a connection needs: accept(2) succeeds, and a slot is free.
pub record Seats (p : Poll) (s : Server) : Type 0 where
  pub fd : ℕ
  pub accepts : p.accepted ≡ some fd
  pub room : length (sockets s.slots) < length s.slots

pub record Serves (p : Poll) (s t : Server) : Type 0 where
  pub runs : round p s ≡ goes_on t (replies p (sockets s.slots))
  pub free : FreeFrom t.maxi t.slots
  pub keeps : Perm (sockets t.slots) (joining p ++ kept p (sockets s.slots))

round_plain :
    (p : Poll) (s : Server)
    → NoError p
    → FreeFrom s.maxi s.slots
    → p.connects ≡ false
    → p.nready ≡ count p.ready (sockets s.slots)
    → (t : Server) × Serves p s t
unfolding round
round_plain p s e f c n =
    let ss = poll_slots p.ready s.maxi s.slots in
    let r = poll_slots-IsPolled p s.maxi s.slots f in
    let q = serve_lem p s.maxi p.nready ss e r.free (r.counted ∙ sym n) in
    (
      record { slots = all_after p ss; maxi = s.maxi },
      record {
        runs = ground (arith, c, q, r.answered);
        free = all_after-FreeFrom p s.maxi ss r.free;
        keeps = simp (c, r.keeps) (Perm.refl _);
      },
    )

round_connect :
    (p : Poll) (s : Server)
    → NoError p
    → FreeFrom s.maxi s.slots
    → p.connects ≡ true
    → Seats p s
    → p.nready ≡ suc (count p.ready (sockets s.slots))
    → (t : Server) × Serves p s t
unfolding round connect
round_connect p s e f c seat n =
    let ss = poll_slots p.ready s.maxi s.slots in
    let r = poll_slots-IsPolled p s.maxi s.slots f in
    let few : length (sockets ss) < length ss = rw (r.same, r.size) seat.room in
    let (placed, i, at, q) = place-IsPlaced p seat.fd s.maxi ss e r.idle r.free few in
    let left : slot_count ss ≡ p.nready - 1 = omega (arith, n, r.counted) in
    (
      record { slots = q.served; maxi = top s.maxi i },
      record {
        runs = elim (Bool-cases (leb p.nready 1)) [
          | inl last ↦
              let none_left : slot_count ss ≡ 0 = ground (arith, left) in
              let idle = done_idle p ss none_left in
              ground (arith, c, seat.accepts, at, last, q.nothing none_left, idle.1, r.answered)
          | inr more ↦
              let some_left : p.nready - 1 ≡ suc (p.nready - 2) = ground (arith, more) in
              let run = q.runs (p.nready - 2) (left ∙ some_left) in
              ground (arith, c, seat.accepts, at, more, some_left, run, r.answered)
        ];
        free = q.free;
        keeps = simp (c, seat.accepts, ← r.keeps) q.joins;
      },
    )

-- A round of the server, in which a connection finds a free slot: it answers every ready socket in the
-- order of the slots, by what it has read or by a close, keeps the sockets that it did not close and
-- the new one, and no other, and keeps the slots behind `maxi` free, whatever `revents` these hold. The
-- conditions: poll(2) returns the number of the events that the loop looks for, read(2) gives no error
-- but ECONNRESET, and writen succeeds.
pub round-Serves :
    (p : Poll) (s : Server)
    → NoError p
    → FreeFrom s.maxi s.slots
    → (p.connects ≡ true → Seats p s)
    → p.nready ≡ events p (sockets s.slots)
    → (t : Server) × Serves p s t
round-Serves p s e f seats n = elim (Bool-cases p.connects) [
  | inl c ↦ round_connect p s e f c (seats c) (ground (arith, n, c))
  | inr c ↦ round_plain p s e f c (ground (arith, n, c))
]

-- With every slot taken, a client that connects makes the server end.
pub round_quits :
    (p : Poll) (s : Server)
    → FreeFrom s.maxi s.slots
    → p.connects ≡ true
    → length (sockets s.slots) ≡ length s.slots
    → round p s ≡ quits
unfolding round connect
round_quits p s f c full =
    let ss = poll_slots p.ready s.maxi s.slots in
    let r = poll_slots-IsPolled p s.maxi s.slots f in
    elim (Option-cases p.accepted) [
      | inl e ↦ ground (arith, c, e)
      | inr (fd, e) ↦
          let none_free = place_full fd ss (ap length r.same ∙ full ∙ sym r.size) in
          ground (arith, c, e, none_free)
    ]

fresh_slots-FreeFrom : (old : ℕ → Bool) (i n : ℕ) → FreeFrom zero (fresh_slots old i n)
unfolding fresh_slots
fresh_slots-FreeFrom old i zero = tt
fresh_slots-FreeFrom old i (suc n) = (refl, fresh_slots-FreeFrom old (i + 1) n)

-- The server begins with free slots, whatever is in the memory of `client`.
pub start-FreeFrom :
    (old : ℕ → Bool) (open_max : ℕ) → FreeFrom (start old open_max).maxi (start old open_max).slots
unfolding start
start-FreeFrom old open_max = fresh_slots-FreeFrom old 1 (open_max - 1)
