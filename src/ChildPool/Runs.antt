-- ===== src/ChildPool/Runs.antt =====
-- The parent and its children in every order of their steps.
use cosc.Prelude.{
  ℕ, zero, suc, ◌+◌, ◌≡◌, refl, ap, sym, ◌∙◌, Option, none, some, List, [], ◌∷◌, arith, length,
}
use mathlib.Core.Path.{subst}
use cosc.ChildPool.{
  Parent, Kernel, select_pipes, ok, newcomer, round, Event, accepted, closed, silent, to_event,
  Step, parent, child, Run, here, next, start, make_children, child_make,
}
use cosc.ChildPool.Loads.{Balanced, busy, held, first_ended}
use cosc.ChildPool.Collect.{outcome}
use cosc.ChildPool.Rounds.{IsSound, IsRound, arrives, round-Rounds}
use cosc.ChildPool.Steps.{count_accepted, count_closed, Kept, ChildStep-KeepsLoad, moved}

-- What holds in a state that is reached with the events `es`, the last first.
pub record IsAccounted (n : ℕ) (es : List Event) (s : Parent) : Type 0 where
  pub sound : IsSound s
  pub size : length s.cptr ≡ n
  pub kept : Kept es s

make_children-Balanced : (n : ℕ) → Balanced (make_children n)
unfolding make_children child_make
make_children-Balanced zero = tt
make_children-Balanced (suc n) = ((omega arith, omega arith), make_children-Balanced n)

busy-make_children : (n : ℕ) → busy (make_children n) ≡ 0
unfolding make_children child_make
busy-make_children zero = refl
busy-make_children (suc n) = omega (arith, busy-make_children n)

length-make_children : (n : ℕ) → length (make_children n) ≡ n
unfolding make_children child_make
length-make_children zero = refl
length-make_children (suc n) = ap suc (length-make_children n)

held-make_children : (fd n : ℕ) → held fd (make_children n) ≡ 0
unfolding make_children child_make
held-make_children fd zero = refl
held-make_children fd (suc n) = omega (arith, held-make_children fd n)

start-IsAccounted : (n : ℕ) → IsAccounted n [] (start n)
unfolding start
start-IsAccounted n = record {
  sound = record {
    balanced = make_children-Balanced n;
    free = omega (arith, busy-make_children n, length-make_children n);
  };
  size = length-make_children n;
  kept = λ fd. omega (arith, held-make_children fd n);
}

arrival :
    (o : Option ℕ) (es : List Event) (fd : ℕ)
    → (count_accepted fd (to_event o ∷ es) ≡ arrives fd o + count_accepted fd es)
      × (count_closed fd (to_event o ∷ es) ≡ count_closed fd es)
arrival none es fd = (omega arith, refl)
arrival (some x) es fd = (refl, refl)

closing :
    (e : Event) (es : List Event) (fd : ℕ)
    → (count_accepted fd (e ∷ es) ≡ count_accepted fd (e ∷ []) + count_accepted fd es)
      × (count_closed fd (e ∷ es) ≡ count_closed fd (e ∷ []) + count_closed fd es)
closing (accepted x) es fd = (omega arith, omega arith)
closing (closed x) es fd = (omega arith, omega arith)
closing silent es fd = (omega arith, omega arith)

ok-outcome : {A : Type 0} (o : Option ℕ) (a b : A) → ok b ≡ outcome o a → (o ≡ none) × (a ≡ b)
ok-outcome none a b h = (refl, cc)
ok-outcome (some j) a b h = cc

round-IsRound :
    (k : Kernel) (s t : Parent)
    → IsSound s
    → round k s ≡ ok t
    → IsRound (select_pipes k 0 s.cptr) (newcomer k s) s t
round-IsRound k s t v h =
    let (u, e, r) = round-Rounds k s v in
    let (n, same) = ok-outcome _ u t (sym h ∙ e) in
    subst (λ x. IsRound (select_pipes k 0 s.cptr) (newcomer k s) s x) same (r n)

Step-IsAccounted :
    {n : ℕ} {es : List Event} {s : Parent} {e : Event} {t : Parent}
    → IsAccounted n es s
    → Step s e t
    → IsAccounted n (e ∷ es) t
Step-IsAccounted {n} {es} {s} {e} v (parent k t h) =
    let r = round-IsRound k s t v.sound h in
    record {
      sound = r.sound;
      size = r.size ∙ v.size;
      kept = λ fd.
          let a = arrival (newcomer k s) es fd in
          let b = v.kept fd in let c = r.holds fd in omega (arith, a.0, a.1);
    }
Step-IsAccounted {n} {es} {s} {e} v (child bs rest c _ p h st) =
    let k = ChildStep-KeepsLoad st in
    let r = moved bs rest c k (subst Balanced h v.sound.balanced) in
    record {
      sound = record {
        balanced = r.balanced;
        free = omega (arith, r.size, r.same, v.sound.free, ap busy h, ap length h);
      };
      size = r.size ∙ ap length (sym h) ∙ v.size;
      kept = λ fd. omega (
        arith,
        k.quiet fd,
        r.holds fd,
        v.kept fd,
        ap (held fd) h,
        (closing e es fd).0,
        (closing e es fd).1,
      );
    }

-- In every state that is reached, whatever the kernel answers and in whatever order the children act:
-- the parent counts its available children right, each child that is marked has one connection or
-- one byte to be read or has ended, no other child has any, and each socket was accepted as often as
-- children hold it or have closed it.
pub Run-IsAccounted :
    {n : ℕ} {es : List Event} {s : Parent} → Run (start n) es s → IsAccounted n es s
Run-IsAccounted {n} here = start-IsAccounted n
Run-IsAccounted (next r st) = Step-IsAccounted (Run-IsAccounted r) st

-- In every state that is reached, and for every answer of the kernel, a round of the parent ends the
-- process exactly at the first reported child that has ended. Otherwise it goes on with the same
-- children in the same order: of each that is reported it has read one byte, and marks it, which was
-- busy, as available; the first of the others that is available receives the connection, if there is
-- one, is marked and counts one more; the rest are unchanged.
pub Run-round :
    (n : ℕ) {es : List Event} {s : Parent} (k : Kernel)
    → Run (start n) es s
    → let rset = select_pipes k 0 s.cptr in
      (t : Parent) × (round k s ≡ outcome (first_ended 0 rset s.cptr) t)
      × (first_ended 0 rset s.cptr ≡ none → IsRound rset (newcomer k s) s t)
Run-round n k r = round-Rounds k _ (Run-IsAccounted {n = n} r).sound
