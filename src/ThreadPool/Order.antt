-- ===== src/ThreadPool/Order.antt =====
-- Every connection goes to one thread of the pool, in the order in which they were accepted.
use cosc.Prelude.{ℕ, ◌<◌, ◌≡◌, refl, ap, sym, ◌∙◌, List, [], ◌∷◌, ◌++◌, append-nil, append_assoc}
use cosc.ThreadPool.{
  MainPc, accepting, main_locking, pushing, signalling, main_unlocking, Pool, take_fd, Event,
  accepted, taken, closed, silent, Step, accept, main_lock, main_push, signal, signal_none,
  main_unlock, lock, wait, wake, relock, take, unlock, serve, Run, here, next, start,
}
use cosc.ThreadPool.Ring.{IsRing, queue, push_inv, queue-push, queue-take}
use cosc.ThreadPool.Invariant.{Run-IsSafe}

-- The sockets that are accepted, and those that the threads take.
abbrev pub all_accepted : List Event → List ℕ
all_accepted [] = []
all_accepted (accepted fd ∷ es) = fd ∷ all_accepted es
all_accepted (taken i fd ∷ es) = all_accepted es
all_accepted (closed i fd ∷ es) = all_accepted es
all_accepted (silent ∷ es) = all_accepted es

abbrev pub all_taken : List Event → List ℕ
all_taken [] = []
all_taken (accepted fd ∷ es) = all_taken es
all_taken (taken i fd ∷ es) = fd ∷ all_taken es
all_taken (closed i fd ∷ es) = all_taken es
all_taken (silent ∷ es) = all_taken es

-- The socket that the main thread has accepted and not yet put into the ring.
abbrev pub in_hand : MainPc → List ℕ
in_hand accepting = []
in_hand (main_locking fd) = fd ∷ []
in_hand (pushing fd) = fd ∷ []
in_hand signalling = []
in_hand main_unlocking = []

abbrev pub pending : Pool → List ℕ
pending s = queue s ++ in_hand s.main_pc

all_accepted-append :
    (es fs : List Event) → all_accepted (es ++ fs) ≡ all_accepted es ++ all_accepted fs
all_accepted-append [] fs = refl
all_accepted-append (accepted fd ∷ es) fs = ap (◌∷◌ fd) (all_accepted-append es fs)
all_accepted-append (taken i fd ∷ es) fs = all_accepted-append es fs
all_accepted-append (closed i fd ∷ es) fs = all_accepted-append es fs
all_accepted-append (silent ∷ es) fs = all_accepted-append es fs

all_taken-append : (es fs : List Event) → all_taken (es ++ fs) ≡ all_taken es ++ all_taken fs
all_taken-append [] fs = refl
all_taken-append (accepted fd ∷ es) fs = all_taken-append es fs
all_taken-append (taken i fd ∷ es) fs = ap (◌∷◌ fd) (all_taken-append es fs)
all_taken-append (closed i fd ∷ es) fs = all_taken-append es fs
all_taken-append (silent ∷ es) fs = all_taken-append es fs

-- What a step takes and what is then pending is what was pending and what it accepts.
Step-pending :
    {n : ℕ} {s t : Pool} {e : Event}
    → Step n s e t
    → IsRing s
    → pending s ++ all_accepted (e ∷ []) ≡ all_taken (e ∷ []) ++ pending t
unfolding take_fd
Step-pending {s} (accept fd m) v = simp (m, append-nil)
Step-pending {s} (main_lock fd m free) v = simp (m, append-nil)
Step-pending {s} (main_push fd t m done) v =
    let (room, e) = push_inv fd s t done in
    let signals : t.main_pc ≡ signalling = ap (λ u. u.main_pc) e in
    let (q, r) = queue-push fd s t v done in simp (m, signals, q, append-nil)
Step-pending {s} (signal i m h w) v = simp (m, append-nil)
Step-pending {s} (signal_none m w) v = simp (m, append-nil)
Step-pending {s} (main_unlock m) v = simp (m, append-nil)
Step-pending {s} (lock i h p free) v = append-nil _
Step-pending {s} (wait i h p empty) v = append-nil _
Step-pending {s} (wake i h p) v = append-nil _
Step-pending {s} (relock i h p free) v = append-nil _
Step-pending {s} (take i h p ne) v =
    append-nil _ ∙ ap (λ q. q ++ in_hand s.main_pc) (queue-take i s v ne).0
Step-pending {s} (unlock i fd h p) v = append-nil _
Step-pending {s} (serve i fd h p) v = append-nil _

-- However the threads interleave: the sockets that they have taken, in the order in which they took
-- them, and behind them those that still wait, are the accepted sockets in their order.
pub Run-order :
    {n : ℕ} {es : List Event} {t : Pool}
    → 0 < n
    → Run n start es t
    → all_accepted es ≡ all_taken es ++ pending t
unfolding start
Run-order h here = refl
Run-order {n} h (next {es} {e} {t} {u} r st) =
    all_accepted-append es (e ∷ [])
    ∙ ap (λ x. x ++ all_accepted (e ∷ [])) (Run-order h r)
    ∙ append_assoc (all_taken es) (pending t) (all_accepted (e ∷ []))
    ∙ ap (◌++◌ (all_taken es)) (Step-pending st (Run-IsSafe h r).ring)
    ∙ sym (append_assoc (all_taken es) (all_taken (e ∷ [])) (pending u))
    ∙ ap (λ x. x ++ pending u) (sym (all_taken-append es (e ∷ [])))
