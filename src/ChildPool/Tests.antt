-- ===== src/ChildPool/Tests.antt =====
-- The server with two children on a concrete run.
use cosc.Prelude.{◌≡◌, refl, true, none, some, [], ◌∷◌}
use cosc.ChildPool.{
  Parent, Kernel, accepted, closed, silent, Run, here, next, start, make_children, child_make,
  select_pipes, count_set, give, read_byte, collect, round_from, round, newcomer, parent, child,
  receive, serve, fail, report, terminated,
}
use cosc.ChildPool.Loads.{first_ended}
use cosc.ChildPool.Collect.{outcome}
use cosc.ChildPool.Rounds.{IsRound}
use cosc.ChildPool.Runs.{IsAccounted, Run-IsAccounted, Run-round}

-- select(2) reports every pipe that can be read, and the socket 7, or none, is accepted.
abbrev arriving : Kernel
arriving = record { connection = some 7; reports = λ i. true }

abbrev alone : Kernel
alone = record { connection = none; reports = λ i. true }

-- The socket is handed to the first child, which serves it and reports that it is done.
abbrev served : (s : Parent) × Run (start 2) (silent ∷ closed 7 ∷ silent ∷ accepted 7 ∷ []) s
unfolding start make_children child_make select_pipes count_set give read_byte collect round_from
    round
served = (
  _,
  next
      (next
        (next (next here (parent arriving _ refl)) (child [] _ _ _ _ refl (receive 7 [] refl refl)))
        (child [] _ _ _ _ refl (serve 7 refl)))
      (child [] _ _ _ _ refl (report refl)),
)

-- The child ends while it serves.
abbrev failed : (s : Parent) × Run (start 2) (closed 7 ∷ silent ∷ accepted 7 ∷ []) s
unfolding start make_children child_make select_pipes count_set give read_byte collect round_from
    round
failed = (
  _,
  next (next (next here (parent arriving _ refl)) (child [] _ _ _ _ refl (receive 7 [] refl refl)))
      (child [] _ _ _ _ refl (fail 7 refl)),
)

failed_quits : round alone failed.0 ≡ terminated 0
unfolding start make_children child_make select_pipes count_set give read_byte collect round_from
    round
failed_quits = refl

Run-IsAccounted_example : IsAccounted 2 (silent ∷ closed 7 ∷ silent ∷ accepted 7 ∷ []) served.0
Run-IsAccounted_example = Run-IsAccounted served.1

Run-round_example :
    let rset = select_pipes arriving 0 served.0.cptr in
    (t : Parent) × (round arriving served.0 ≡ outcome (first_ended 0 rset served.0.cptr) t)
    × (first_ended 0 rset served.0.cptr ≡ none
        → IsRound rset (newcomer arriving served.0) served.0 t)
Run-round_example = Run-round 2 arriving served.1
