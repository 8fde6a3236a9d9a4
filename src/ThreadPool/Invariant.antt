-- ===== src/ThreadPool/Invariant.antt =====
-- Who holds the mutex of the thread pool, and that no wakeup is lost.
use cosc.Prelude.{
  ℕ, ◌<◌, ◌≡◌, ◌≢◌, refl, ap, sym, ◌∙◌, Bool, true, false, Option, none, some, List, arith, ==_true,
  ==_false, none_some,
}
use mathlib.Core.Path.{subst}
use native.Mathlib.Decide.{ℕ_discrete}
use cosc.ThreadPool.{
  MainPc, accepting, main_locking, pushing, signalling, main_unlocking, WorkerPc, locking, testing,
  waiting, woken, unlocking, serving, Holder, main, worker, Pool, take_fd, next_fd, update, Event,
  Step, accept, main_lock, main_push, signal, signal_none, main_unlock, lock, wait, wake, relock,
  take, unlock, serve, Run, here, next, start,
}
use cosc.ThreadPool.Ring.{IsRing, push_inv, queue-push, queue-take}

-- The places in the code where the mutex is held.
abbrev pub in_main : MainPc → Bool
in_main accepting = false
in_main (main_locking fd) = false
in_main (pushing fd) = true
in_main signalling = true
in_main main_unlocking = true

abbrev pub in_worker : WorkerPc → Bool
in_worker locking = false
in_worker testing = true
in_worker waiting = false
in_worker woken = false
in_worker (unlocking fd) = true
in_worker (serving fd) = false

-- All threads of the pool wait.
abbrev pub AllWait : ℕ → (ℕ → WorkerPc) → Type 0
AllWait n pc = (i : ℕ) → i < n → pc i ≡ waiting

pub record IsSafe (n : ℕ) (s : Pool) : Type 0 where
  pub ring : IsRing s
  pub main_holds : in_main s.main_pc ≡ true → s.mutex ≡ some main
  pub worker_holds : (i : ℕ) → in_worker (s.pc i) ≡ true → s.mutex ≡ some (worker i)
  pub wakes : AllWait n s.pc → s.iget ≢ s.iput → s.main_pc ≡ signalling

update_self {ℓ} : {A : Type ℓ} (f : ℕ → A) (i : ℕ) (v : A) → update f i v i ≡ v
update_self f i v = rw (==_true i i refl)

update_ne {ℓ} : {A : Type ℓ} (f : ℕ → A) (i j : ℕ) (v : A) → j ≢ i → update f i v j ≡ f j
update_ne f i j v h = rw (==_false j i h)

-- A thread that moves leaves the mutex to those that hold it.
goes-holds :
    (f : ℕ → WorkerPc) (i : ℕ) (p : WorkerPc) {h h' : Option Holder}
    → ((j : ℕ) → in_worker (f j) ≡ true → h ≡ some (worker j))
    → (in_worker p ≡ true → h' ≡ some (worker i))
    → ((j : ℕ) → j ≢ i → h ≡ some (worker j) → h' ≡ some (worker j))
    → (j : ℕ) → in_worker (update f i p j) ≡ true
    → h' ≡ some (worker j)
goes-holds f i p {h} {h'} old self others j e = elim (ℕ_discrete j i) [
  | yes q ↦
      subst (λ k. h' ≡ some (worker k)) (sym q)
        (self (sym (ap in_worker (ap (update f i p) q ∙ update_self f i p)) ∙ e))
  | no q ↦ others j q (old j (sym (ap in_worker (update_ne f i j p q)) ∙ e))
]

-- Not all threads wait when one has gone elsewhere.
awake :
    (f : ℕ → WorkerPc) (n i : ℕ) (p : WorkerPc) → i < n → p ≢ waiting → ¬ AllWait n (update f i p)
awake f n i p h ne all = ne (sym (update_self f i p) ∙ all i h)

-- What a thread does not change where it keeps the mutex, or gives it up, or takes it.
module _ {n : ℕ} {s : Pool} (v : IsSafe n s) (i : ℕ) (p : WorkerPc) where
  keeps-holds :
      (in_worker p ≡ true → in_worker (s.pc i) ≡ true)
      → (j : ℕ) → in_worker (update s.pc i p j) ≡ true
      → s.mutex ≡ some (worker j)
  keeps-holds h = goes-holds s.pc i p v.worker_holds (λ e. v.worker_holds i (h e)) (λ j ne o. o)

  gives-holds :
      in_worker (s.pc i) ≡ true
      → in_worker p ≡ false
      → (j : ℕ) → in_worker (update s.pc i p j) ≡ true
      → none ≡ some (worker j)
  gives-holds h out =
      goes-holds s.pc i p v.worker_holds (λ e. absurd (cc))
        (λ j ne o. absurd (ne (cc (v.worker_holds i h))))

  takes-holds :
      s.mutex ≡ none
      → (j : ℕ) → in_worker (update s.pc i p j) ≡ true
      → some (worker i) ≡ some (worker j)
  takes-holds free = goes-holds s.pc i p v.worker_holds (λ e. refl) (λ j ne o. absurd (cc))

  -- While a thread holds the mutex the main thread does not.
  main_out : in_worker (s.pc i) ≡ true → in_main s.main_pc ≢ true
  main_out h e = cc (v.worker_holds i h, v.main_holds e)

  main_free : s.mutex ≡ none → in_main s.main_pc ≢ true
  main_free free e = cc (v.main_holds e)

pub Step-IsSafe : {n : ℕ} {s t : Pool} {e : Event} → 0 < n → Step n s e t → IsSafe n s → IsSafe n t
unfolding take_fd
Step-IsSafe {s} some_thread (accept fd m) v = record {
  ring = v.ring;
  main_holds = λ e. absurd (cc);
  worker_holds = v.worker_holds;
  wakes = λ all ne. absurd (cc (v.wakes all ne));
}
Step-IsSafe {s} some_thread (main_lock fd m free) v = record {
  ring = v.ring;
  main_holds = λ e. refl;
  worker_holds = λ i e. none_some (sym free ∙ v.worker_holds i e);
  wakes = λ all ne. absurd (cc (v.wakes all ne));
}
Step-IsSafe {n} {s} some_thread (main_push fd t m done) v =
    let (room, e) = push_inv fd s t done in
    let (_, r) = queue-push fd s t v.ring done in
    subst (IsSafe n) (sym e) (record {
      ring = subst IsRing e r;
      main_holds = λ e. v.main_holds (ap in_main m);
      worker_holds = v.worker_holds;
      wakes = λ all ne. refl;
    })
Step-IsSafe {n} {s} some_thread (signal i m h w) v = record {
  ring = v.ring;
  main_holds = λ e. v.main_holds (ap in_main m);
  worker_holds = keeps-holds v i woken (λ e. absurd (cc));
  wakes = λ all ne. absurd (awake s.pc n i woken h (λ e. cc) all);
}
Step-IsSafe {s} some_thread (signal_none m w) v = record {
  ring = v.ring;
  main_holds = λ e. v.main_holds (ap in_main m);
  worker_holds = v.worker_holds;
  wakes = λ all ne. absurd (w 0 some_thread (all 0 some_thread));
}
Step-IsSafe {s} some_thread (main_unlock m) v = record {
  ring = v.ring;
  main_holds = λ e. absurd (cc);
  worker_holds = λ i e. absurd (main_out v i testing e (ap in_main m));
  wakes = λ all ne. absurd (cc (v.wakes all ne));
}
Step-IsSafe {n} {s} some_thread (lock i h p free) v = record {
  ring = v.ring;
  main_holds = λ e. absurd (main_free v i testing free e);
  worker_holds = takes-holds v i testing free;
  wakes = λ all ne. absurd (awake s.pc n i testing h (λ e. cc) all);
}
Step-IsSafe {n} {s} some_thread (wait i h p empty) v = record {
  ring = v.ring;
  main_holds = λ e. absurd (main_out v i testing (ap in_worker p) e);
  worker_holds = gives-holds v i waiting (ap in_worker p) refl;
  wakes = λ all ne. absurd (ne empty);
}
Step-IsSafe {n} {s} some_thread (wake i h p) v = record {
  ring = v.ring;
  main_holds = v.main_holds;
  worker_holds = keeps-holds v i woken (λ e. absurd (cc));
  wakes = λ all ne. absurd (awake s.pc n i woken h (λ e. cc) all);
}
Step-IsSafe {n} {s} some_thread (relock i h p free) v = record {
  ring = v.ring;
  main_holds = λ e. absurd (main_free v i testing free e);
  worker_holds = takes-holds v i testing free;
  wakes = λ all ne. absurd (awake s.pc n i testing h (λ e. cc) all);
}
Step-IsSafe {n} {s} some_thread (take i h p ne) v = record {
  ring = (queue-take i s v.ring ne).1;
  main_holds = v.main_holds;
  worker_holds = keeps-holds v i (unlocking (next_fd s)) (λ e. ap in_worker p);
  wakes = λ all ne. absurd (awake s.pc n i (unlocking (next_fd s)) h (λ e. cc) all);
}
Step-IsSafe {n} {s} some_thread (unlock i fd h p) v = record {
  ring = v.ring;
  main_holds = λ e. absurd (main_out v i testing (ap in_worker p) e);
  worker_holds = gives-holds v i (serving fd) (ap in_worker p) refl;
  wakes = λ all ne. absurd (awake s.pc n i (serving fd) h (λ e. cc) all);
}
Step-IsSafe {n} {s} some_thread (serve i fd h p) v = record {
  ring = v.ring;
  main_holds = v.main_holds;
  worker_holds = keeps-holds v i locking (λ e. absurd (cc));
  wakes = λ all ne. absurd (awake s.pc n i locking h (λ e. cc) all);
}

start-IsSafe : (n : ℕ) → IsSafe n start
unfolding start
start-IsSafe n = record {
  ring = record { size = refl; get_in = omega arith; put_in = omega arith };
  main_holds = λ e. absurd (cc);
  worker_holds = λ i e. absurd (cc);
  wakes = λ all ne. absurd (ne refl);
}

-- The invariant holds whatever the threads have done since the start.
pub Run-IsSafe : {n : ℕ} {es : List Event} {t : Pool} → 0 < n → Run n start es t → IsSafe n t
Run-IsSafe {n} h here = start-IsSafe n
Run-IsSafe h (next r st) = Step-IsSafe h st (Run-IsSafe h r)
