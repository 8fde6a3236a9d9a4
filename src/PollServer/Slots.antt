-- ===== src/PollServer/Slots.antt =====
-- What poll(2) and accept(2) do to the slots of the echo server.
use cosc.Prelude.{
  ℕ, zero, suc, ◌+◌, ◌≤◌, ◌<◌, ◌≡◌, refl, ap, sym, Bool, false, Option, none, some, List, [], ◌∷◌,
  ◌++◌, ltb, if◌then◌else◌, arith, length, none_some, ltb-false, true,
}
use mathlib.Core.Path.{subst}
use mathlib.Core.List.{Perm}
use mathlib.Core.List.Perm
use cosc.PollServer.{Slot, Poll, poll_slots, serve, place}
use cosc.PollServer.Echo.{
  add_socket, sockets, reply, replies, kept, count, FreeFrom, slot_reply, slot_replies, slot_count,
  all_after, free_idle, done_idle, NoError, serve_lem, handle_lem, after,
}

-- What poll(2) stores in the first `k` slots marks a free slot as not ready.
abbrev pub Idle : ℕ → List Slot → Type 0
Idle zero ss = Unit
Idle (suc k) [] = Unit
Idle (suc k) (s ∷ ss) = (s.fd ≡ none → s.ready ≡ false) × Idle k ss

-- poll(2) marks the ready sockets and moves none.
pub record IsPolled (p : Poll) (k : ℕ) (ss polled : List Slot) : Type 0 where
  pub same : sockets polled ≡ sockets ss
  pub size : length polled ≡ length ss
  pub free : FreeFrom k polled
  pub idle : Idle k polled
  pub counted : slot_count polled ≡ count p.ready (sockets ss)
  pub answered : slot_replies p polled ≡ replies p (sockets ss)
  pub keeps : sockets (all_after p polled) ≡ kept p (sockets ss)

free-sockets : (ss : List Slot) → FreeFrom zero ss → sockets ss ≡ []
free-sockets [] f = refl
free-sockets (s ∷ ss) f = ground (arith, free-sockets ss f.1)

poll_slots_step :
    (p : Poll) (k : ℕ) (o : Option ℕ) (b : Bool) (ss : List Slot)
    → IsPolled p k ss (poll_slots p.ready k ss)
    → let s : Slot = record { fd = o; ready = b } in
      IsPolled p (suc k) (s ∷ ss) (poll_slots p.ready (suc k) (s ∷ ss))
unfolding poll_slots
poll_slots_step p k none b ss r = record {
  same = r.same;
  size = ap suc r.size;
  free = r.free;
  idle = (λ e. refl, r.idle);
  counted = r.counted;
  answered = r.answered;
  keeps = r.keeps;
}
poll_slots_step p k (some fd) b ss r = record {
  same = ap (◌∷◌ fd) r.same;
  size = ap suc r.size;
  free = r.free;
  idle = (λ e. none_some (sym e), r.idle);
  counted = ground (arith, r.counted);
  answered = ap (λ x. (if p.ready fd then reply fd (p.reading fd) else []) ++ x) r.answered;
  keeps = ground (arith, r.keeps);
}

pub poll_slots-IsPolled :
    (p : Poll) (k : ℕ) (ss : List Slot) → FreeFrom k ss → IsPolled p k ss (poll_slots p.ready k ss)
unfolding poll_slots
poll_slots-IsPolled p zero ss f =
    let e = free-sockets ss f in
    let r = free_idle p ss f in
    record {
      same = refl;
      size = refl;
      free = f;
      idle = tt;
      counted = rw e r.2;
      answered = rw e r.1;
      keeps = rw r.0 (rw e);
    }
poll_slots-IsPolled p (suc k) [] f = record {
  same = refl;
  size = refl;
  free = tt;
  idle = tt;
  counted = refl;
  answered = refl;
  keeps = refl;
}
poll_slots-IsPolled p (suc k) (s ∷ ss) f =
    poll_slots_step p k s.fd s.ready ss (poll_slots-IsPolled p k ss f)

-- The slots behind the loop are still free behind the first `k`.
pub all_after-FreeFrom :
    (p : Poll) (k : ℕ) (ss : List Slot) → FreeFrom k ss → FreeFrom k (all_after p ss)
all_after-FreeFrom p zero ss f = rw ((free_idle p ss f).0) f
all_after-FreeFrom p (suc k) [] f = f
all_after-FreeFrom p (suc k) (s ∷ ss) f = all_after-FreeFrom p k ss f

abbrev pub top : ℕ → ℕ → ℕ
top k i = if ltb k i then i else k

-- A new socket changes nothing for the others in this round, whatever `revents` its slot had: when the
-- loop has served all that poll(2) counts, it does not look behind them.
pub record IsPlaced (p : Poll) (fd k : ℕ) (ss placed : List Slot) (i : ℕ) : Type 0 where
  pub served : List Slot
  pub nothing : slot_count ss ≡ 0 → served ≡ placed
  pub runs :
      (n : ℕ)
      → slot_count ss ≡ suc n
      → serve p (top k i) (suc n) placed ≡ some (served, slot_replies p ss)
  pub free : FreeFrom (top k i) served
  pub joins : Perm (sockets served) (fd ∷ sockets (all_after p ss))

abbrev pub Places : Poll → ℕ → ℕ → List Slot → Type 0
Places p fd k ss =
    (placed : List Slot) × (i : ℕ) × (place fd ss ≡ some (placed, i)) × IsPlaced p fd k ss placed i

-- The same for the slots behind one that is taken.
abbrev pub PlacesLater : Poll → ℕ → ℕ → List Slot → Type 0
PlacesLater p fd zero ss = Unit
PlacesLater p fd (suc k) ss = Places p fd k ss

top-suc : (k i : ℕ) → top (suc k) (i + 1) ≡ suc (top k i)
top-suc k i = ground arith

add_socket-Perm :
    (o : Option ℕ) {fd : ℕ} {xs ys : List ℕ}
    → Perm xs (fd ∷ ys)
    → Perm (add_socket o xs) (fd ∷ add_socket o ys)
add_socket-Perm none h = h
add_socket-Perm (some n) h = Perm.trans (Perm.cons n h) (Perm.swap _ _ _)

place_here :
    (p : Poll) (fd k : ℕ) (b : Bool) (ss : List Slot)
    → NoError p
    → Idle k (record { fd = none; ready = b } ∷ ss)
    → FreeFrom k (record { fd = none; ready = b } ∷ ss)
    → IsPlaced p fd k
        (record { fd = none; ready = b } ∷ ss)
        (record { fd = some fd; ready = b } ∷ ss)
        1
unfolding serve
place_here p fd zero b ss e d f =
    let r = free_idle p ss f.1 in
    record {
      served = record { fd = some fd; ready = b } ∷ ss;
      nothing = λ z. refl;
      runs = λ n z. absurd (omega (arith, z, r.2));
      free = f.1;
      joins = rw r.0 (Perm.refl _);
    }
place_here p fd (suc k) b ss e d f =
    let quiet = d.0 refl in
    let at : top (suc k) 1 ≡ suc k = rw (ltb-false (suc k) 1 (omega arith)) refl in
    record {
      served = record { fd = some fd; ready = b } ∷ all_after p ss;
      nothing = λ z. ap (◌∷◌ (record { fd = some fd; ready = b })) (done_idle p ss z).0;
      runs = λ n z. rw (at, quiet, serve_lem p k (suc n) ss e f z) refl;
      free = rw at (all_after-FreeFrom p k ss f);
      joins = Perm.refl _;
    }

serve_ready :
    (p : Poll) (fd k m i n : ℕ) (ss placed : List Slot)
    → NoError p
    → (r : IsPlaced p fd k ss placed i) → slot_count ss ≡ n
    → let s : Slot = record { fd = some m; ready = true } in
      serve p (suc (top k i)) (suc n) (s ∷ placed)
      ≡ some (after p s ∷ r.served, slot_reply p s ++ slot_replies p ss)
unfolding serve
serve_ready p fd k m i zero ss placed e r z =
    let s : Slot = record { fd = some m; ready = true } in
    let h = handle_lem p m s (p.reading m) (e.reads m) (e.writes m) in
    let d = done_idle p ss z in ground (arith, h.1, h.2, r.nothing z, d.0, d.1)
serve_ready p fd k m i (suc n) ss placed e r z =
    let s : Slot = record { fd = some m; ready = true } in
    let h = handle_lem p m s (p.reading m) (e.reads m) (e.writes m) in
    let run = r.runs n z in ground (arith, h.1, h.2, run)

place_there :
    (p : Poll) (fd k m i : ℕ) (b : Bool) (ss placed : List Slot)
    → NoError p
    → IsPlaced p fd k ss placed i
    → let s : Slot = record { fd = some m; ready = b } in
      IsPlaced p fd (suc k) (s ∷ ss) (s ∷ placed) (i + 1)
unfolding serve
place_there p fd k m i false ss placed e r =
    let s : Slot = record { fd = some m; ready = false } in
    record {
      served = s ∷ r.served;
      nothing = λ z. ap (◌∷◌ s) (r.nothing z);
      runs = λ n z. rw (top-suc k i, r.runs n z) refl;
      free = subst (λ j. FreeFrom j (s ∷ r.served)) (sym (top-suc k i)) r.free;
      joins = add_socket-Perm (some m) r.joins;
    }
place_there p fd k m i true ss placed e r =
    let s : Slot = record { fd = some m; ready = true } in
    record {
      served = after p s ∷ r.served;
      nothing = λ z. absurd (omega (arith, z));
      runs = λ n z. rw (top-suc k i) (serve_ready p fd k m i n ss placed e r (omega (arith, z)));
      free = subst (λ j. FreeFrom j (after p s ∷ r.served)) (sym (top-suc k i)) r.free;
      joins = add_socket-Perm (after p s).fd r.joins;
    }

place_step :
    (p : Poll) (fd k : ℕ) (o : Option ℕ) (b : Bool) (ss : List Slot)
    → NoError p
    → let s : Slot = record { fd = o; ready = b } in
      Idle k (s ∷ ss)
      → FreeFrom k (s ∷ ss)
      → ((n : ℕ) → o ≡ some n → PlacesLater p fd k ss)
      → Places p fd k (s ∷ ss)
unfolding place
place_step p fd k none b ss e d f h = (_, 1, refl, place_here p fd k b ss e d f)
place_step p fd zero (some n) b ss e d f h = none_some (sym f.0)
place_step p fd (suc k) (some n) b ss e d f h =
    let (placed, i, at, r) = h n refl in (_, i + 1, rw at, place_there p fd k n i b ss placed e r)

pub place-IsPlaced :
    (p : Poll) (fd k : ℕ) (ss : List Slot)
    → NoError p
    → Idle k ss
    → FreeFrom k ss
    → length (sockets ss) < length ss
    → Places p fd k ss
place-IsPlaced p fd k [] e d f h = absurd (omega arith)
place-IsPlaced p fd zero (s ∷ ss) e d f h = place_step p fd zero s.fd s.ready ss e tt f (λ n e. tt)
place-IsPlaced p fd (suc k) (s ∷ ss) e d f h =
    place_step p fd (suc k) s.fd s.ready ss e d f
      (λ n q. place-IsPlaced p fd k ss e d.1 f (ground (arith, q)))

sockets-le : (ss : List Slot) → length (sockets ss) ≤ length ss
sockets-le [] = omega arith
sockets-le (s ∷ ss) = ground (arith, sockets-le ss)

-- There is no slot for a new socket when each has one.
pub place_full : (fd : ℕ) (ss : List Slot) → length (sockets ss) ≡ length ss → place fd ss ≡ none
unfolding place
place_full fd [] h = refl
place_full fd (s ∷ ss) h = ground (arith, sockets-le ss, place_full fd ss)
