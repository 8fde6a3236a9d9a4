-- ===== src/ThreadPool.antt =====
-- Lab2017/server/serv08.c and pthread08.c: the server that hands its connections to a pool of threads
-- over a ring, with a mutex and a condition variable. The threads interleave in any order: what each
-- does next is a step, and a run is a sequence of steps. Accept and the calls on the mutex and the
-- condition variable are taken to succeed: where they fail, their wrappers end the process.
pub mod Ring
pub mod Invariant
pub mod Order
mod Tests
use cosc.Prelude.{
  ℕ, zero, suc, ◌+◌, ◌<◌, ◌≡◌, ◌≢◌, Bool, true, false, Option, none, some, List, [], ◌∷◌, ◌++◌,
  ◌==◌, if◌then◌else◌, length, get_or, set, replicate,
}

-- `MAXNCLI`
abbrev pub max_ncli : ℕ
max_ncli = 32

-- What the main thread does next in its loop.
pub data MainPc : Type 0 where
  accepting : MainPc
  main_locking : ℕ → MainPc
  pushing : ℕ → MainPc
  signalling : MainPc
  main_unlocking : MainPc

-- What a thread of the pool does next: `waiting` and `woken` are inside pthread_cond_wait.
pub data WorkerPc : Type 0 where
  locking : WorkerPc
  testing : WorkerPc
  waiting : WorkerPc
  woken : WorkerPc
  unlocking : ℕ → WorkerPc
  serving : ℕ → WorkerPc

pub data Holder : Type 0 where
  main : Holder
  worker : ℕ → Holder

-- The globals, who holds `clifd_mutex`, and where each thread stands.
pub record Pool : Type 0 where
  pub clifd : List ℕ
  pub iget : ℕ
  pub iput : ℕ
  pub mutex : Option Holder
  pub main_pc : MainPc
  pub pc : ℕ → WorkerPc
  pub thread_count : ℕ → ℕ

-- `if (++i == MAXNCLI) i = 0`
abbrev pub advance : ℕ → ℕ
advance i = if suc i == max_ncli then 0 else suc i

-- what the main thread does with the ring while it holds the mutex, `none` for err_quit
unfoldable pub push : ℕ → Pool → Option Pool
push fd s =
    let iput = advance s.iput in
    if iput == s.iget
    then none
    else some (record s { clifd = set s.clifd s.iput fd; iput = iput; main_pc = signalling })

-- the socket that a thread takes from the ring, and the ring without it
unfoldable pub next_fd : Pool → ℕ
next_fd s = get_or s.clifd s.iget 0

abbrev pub update {ℓ} : {A : Type ℓ} → (ℕ → A) → ℕ → A → ℕ → A
update f i v j = if j == i then v else f j

unfoldable pub take_fd : ℕ → Pool → Pool
unfolding next_fd
take_fd i s = record s { iget = advance s.iget; pc = update s.pc i (unlocking (next_fd s)) }

-- What an observer sees of a step.
pub data Event : Type 0 where
  accepted : ℕ → Event
  taken : ℕ → ℕ → Event
  closed : ℕ → ℕ → Event
  silent : Event

abbrev pub goes : ℕ → WorkerPc → Pool → Pool
goes i p s = record s { pc = update s.pc i p }

-- The steps of a server with `n` threads.
pub data Step (n : ℕ) (s : Pool) : Event → Pool → Type 0 where
  accept :
      (fd : ℕ)
      → s.main_pc ≡ accepting
      → Step n s (accepted fd) (record s { main_pc = main_locking fd })
  main_lock :
      (fd : ℕ)
      → s.main_pc ≡ main_locking fd
      → s.mutex ≡ none
      → Step n s silent (record s { main_pc = pushing fd; mutex = some main })
  main_push : (fd : ℕ) (t : Pool) → s.main_pc ≡ pushing fd → push fd s ≡ some t → Step n s silent t
  -- pthread_cond_signal wakes a thread that waits
  signal :
      (i : ℕ)
      → s.main_pc ≡ signalling
      → i < n
      → s.pc i ≡ waiting
      → Step n s silent (record (goes i woken s) { main_pc = main_unlocking })
  -- or nobody, if none waits
  signal_none :
      s.main_pc ≡ signalling
      → ((i : ℕ) → i < n → s.pc i ≢ waiting)
      → Step n s silent (record s { main_pc = main_unlocking })
  main_unlock :
      s.main_pc ≡ main_unlocking → Step n s silent (record s { main_pc = accepting; mutex = none })
  lock :
      (i : ℕ)
      → i < n
      → (s.pc i ≡ locking)
      → s.mutex ≡ none
      → Step n s silent (record (goes i testing s) { mutex = some (worker i) })
  -- pthread_cond_wait gives up the mutex and waits
  wait :
      (i : ℕ)
      → i < n
      → s.pc i ≡ testing
      → s.iget ≡ s.iput
      → Step n s silent (record (goes i waiting s) { mutex = none })
  -- it may wake up without a signal
  wake : (i : ℕ) → i < n → s.pc i ≡ waiting → Step n s silent (goes i woken s)
  -- and holds the mutex again when it returns
  relock :
      (i : ℕ)
      → i < n
      → s.pc i ≡ woken
      → s.mutex ≡ none
      → Step n s silent (record (goes i testing s) { mutex = some (worker i) })
  take :
      (i : ℕ)
      → i < n
      → s.pc i ≡ testing
      → s.iget ≢ s.iput
      → Step n s (taken i (next_fd s)) (take_fd i s)
  unlock :
      (i fd : ℕ)
      → i < n
      → s.pc i ≡ unlocking fd
      → Step n s silent (record (goes i (serving fd) s) { mutex = none })
  -- counts, serves and closes the connection
  serve :
      (i fd : ℕ)
      → i < n
      → s.pc i ≡ serving fd
      → Step n s (closed i fd) (record (goes i locking s) {
        thread_count = update s.thread_count i (suc (s.thread_count i));
      })

-- A sequence of steps with what is seen of it.
pub data Run (n : ℕ) (s : Pool) : List Event → Pool → Type 0 where
  here : Run n s [] s
  next :
      {es : List Event} {e : Event} {t u : Pool}
      → Run n s es t
      → Step n t e u
      → Run n s (es ++ (e ∷ [])) u

-- The server before its loop, the threads created.
unfoldable pub start : Pool
start = record {
  clifd = replicate max_ncli 0;
  iget = 0;
  iput = 0;
  mutex = none;
  main_pc = accepting;
  pc = λ i. locking;
  thread_count = λ i. 0;
}
