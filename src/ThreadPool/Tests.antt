-- ===== src/ThreadPool/Tests.antt =====
-- The thread pool on a concrete run.
use cosc.Prelude.{◌-◌, ◌≡◌, ◌≢◌, ◌↔◌, refl, none, List, [], ◌∷◌, ◌++◌, arith, length}
use cosc.ThreadPool.{
  Pool, Event, accepted, taken, closed, silent, Run, here, next, start, push, take_fd, accept,
  main_lock, main_push, signal_none, main_unlock, lock, take, unlock, serve, max_ncli, locking,
  waiting,
}
use cosc.ThreadPool.Ring.{IsRing, queue, push-none_iff}
use cosc.ThreadPool.Invariant.{IsSafe, Run-IsSafe}
use cosc.ThreadPool.Order.{all_accepted, all_taken, pending, Run-order}

-- Socket 7 is accepted and put into the ring, and the only thread takes and serves it.
abbrev events : List Event
events =
    accepted 7 ∷ silent ∷ silent ∷ silent ∷ silent ∷ silent ∷ taken 0 7 ∷ silent ∷ closed 0 7 ∷ []

locking_ne : locking ≢ waiting
locking_ne e = cc

abbrev one_served : (t : Pool) × Run 1 start events t
unfolding start push take_fd
one_served = (
  _,
  next
      (next
        (next
          (next
            (next
              (next
                (next (next (next here (accept 7 refl)) (main_lock 7 refl refl))
                  (main_push 7 _ refl refl))
                (signal_none refl (λ i h. locking_ne)))
              (main_unlock refl))
            (lock 0 (omega arith) refl refl))
          (take 0 (omega arith) refl (λ e. absurd (omega arith))))
        (unlock 0 7 (omega arith) refl))
      (serve 0 7 (omega arith) refl),
)

Run-order_example : all_accepted events ≡ all_taken events ++ pending one_served.0
Run-order_example = Run-order (omega arith) one_served.1

Run-IsSafe_example : IsSafe 1 one_served.0
Run-IsSafe_example = Run-IsSafe (omega arith) one_served.1

-- 31 connections wait.
abbrev full : Pool
unfolding start
full = record start { iput = 31 }

full-IsRing : IsRing full
unfolding start
full-IsRing = record { size = refl; get_in = omega arith; put_in = omega arith }

full_quits : push 5 full ≡ none
unfolding push start
full_quits = refl

push-none_iff_example : (push 5 full ≡ none) ↔ (length (queue full) ≡ max_ncli - 1)
push-none_iff_example = push-none_iff 5 full full-IsRing
