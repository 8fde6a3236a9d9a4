-- ===== src/ChildPool/Steps.antt =====
-- What a step of a child changes, and the counts of what is seen of a run.
use cosc.Prelude.{ℕ, suc, ◌+◌, ◌≡◌, refl, ap, ◌∙◌, List, [], ◌∷◌, ◌++◌, ◌==◌, arith, length}
use cosc.ChildPool.{
  Process, Child, Parent, Event, accepted, closed, silent, ChildStep, receive, serve, fail, report,
  with_process,
}
use cosc.ChildPool.Loads.{load, Balanced, busy, held, occurrences, in_service, one_if}

-- How often a socket is accepted, and closed by a child.
abbrev pub count_accepted : ℕ → List Event → ℕ
count_accepted fd [] = 0
count_accepted fd (accepted x ∷ es) = one_if (x == fd) + count_accepted fd es
count_accepted fd (closed x ∷ es) = count_accepted fd es
count_accepted fd (silent ∷ es) = count_accepted fd es

abbrev pub count_closed : ℕ → List Event → ℕ
count_closed fd [] = 0
count_closed fd (accepted x ∷ es) = count_closed fd es
count_closed fd (closed x ∷ es) = one_if (x == fd) + count_closed fd es
count_closed fd (silent ∷ es) = count_closed fd es

-- What the two counts say of the sockets that the children hold.
abbrev pub Kept : List Event → Parent → Type 0
Kept es s = (fd : ℕ) → count_accepted fd es ≡ held fd s.cptr + count_closed fd es

abbrev pub is_closed : ℕ → Event → ℕ
is_closed fd (accepted x) = 0
is_closed fd (closed x) = one_if (x == fd)
is_closed fd silent = 0

-- A step of a child keeps its load, and lets go of the socket that it closes only.
pub record KeepsLoad (p : Process) (e : Event) (q : Process) : Type 0 where
  pub same : load q ≡ load p
  pub quiet : (fd : ℕ) → count_accepted fd (e ∷ []) ≡ 0
  pub holds :
      (fd : ℕ)
      → occurrences fd q.inbox + in_service fd q.phase + count_closed fd (e ∷ [])
        ≡ occurrences fd p.inbox + in_service fd p.phase

pub ChildStep-KeepsLoad : {p q : Process} {e : Event} → ChildStep p e q → KeepsLoad p e q
ChildStep-KeepsLoad {p} (receive fd fds h i) = record {
  same = rw h (rw i (omega arith));
  quiet = λ x. refl;
  holds = λ x. rw h (rw i (omega arith));
}
ChildStep-KeepsLoad {p} (serve fd h) = record {
  same = rw h (omega arith);
  quiet = λ x. refl;
  holds = λ x. rw h (omega arith);
}
ChildStep-KeepsLoad {p} (fail fd h) = record {
  same = rw h (omega arith);
  quiet = λ x. refl;
  holds = λ x. rw h (omega arith);
}
ChildStep-KeepsLoad {p} (report h) = record {
  same = rw h (omega arith);
  quiet = λ x. refl;
  holds = λ x. rw h (omega arith);
}

-- One child among the others changes.
pub record IsMoved (e : Event) (cs ds : List Child) : Type 0 where
  pub size : length ds ≡ length cs
  pub same : busy ds ≡ busy cs
  pub balanced : Balanced ds
  pub holds : (fd : ℕ) → held fd ds + count_closed fd (e ∷ []) ≡ held fd cs

pub moved :
    (bs rest : List Child) (c : Child) {e : Event} {q : Process}
    → KeepsLoad c.process e q
    → Balanced (bs ++ (c ∷ rest))
    → IsMoved e (bs ++ (c ∷ rest)) (bs ++ (with_process c q ∷ rest))
moved [] rest c k b = record {
  size = refl;
  same = refl;
  balanced = ((k.same ∙ b.0.0, b.0.1), b.1);
  holds = λ fd. let h = k.holds fd in omega arith;
}
moved (a ∷ bs) rest c {e} {q} k b =
    let r = moved bs rest c k b.1 in
    record {
      size = ap suc r.size;
      same = ap (λ n. a.child_status + n) r.same;
      balanced = (b.0, r.balanced);
      holds = λ fd. let h = r.holds fd in omega arith;
    }
