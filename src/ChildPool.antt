-- ===== src/ChildPool.antt =====
-- Lab2017/server/serv05.c, child05.c and child.h: a server that forks its children beforehand and
-- hands each connection to a free child over a stream pipe. A round of the loop in `main` of the parent
-- is a function; the children act on their own, in any order, between two rounds. Accept, Write_fd,
-- Select and the opening of the pipes are taken to succeed. A child may end only while web_child serves.
pub mod Loads
pub mod Collect
pub mod Each
pub mod Rounds
pub mod Steps
pub mod Runs
mod Tests
use cosc.Prelude.{
  ℕ, zero, suc, ◌+◌, ◌-◌, ◌≡◌, Bool, true, false, Option, none, some, List, [], ◌∷◌, ◌++◌, ltb,
  ◌==◌, ◌&&◌, ◌||◌, if◌then◌else◌,
}

-- Where child_main stands in its loop: in Read_fd, in web_child, before its Write, or at its end.
pub data Phase : Type 0 where
  reading : Phase
  serving : ℕ → Phase
  reporting : Phase
  ended : Phase

-- The process at the other end of a stream pipe: the sockets that it has not yet received, where it
-- stands, and the number of bytes that it has written and the parent has not yet read.
pub record Process : Type 0 where
  pub inbox : List ℕ
  pub phase : Phase
  pub bytes : ℕ

-- `Child`, with the process in the place of the pipe that leads to it
pub record Child : Type 0 where
  pub process : Process
  pub child_status : ℕ
  pub child_count : ℕ

pub record Parent : Type 0 where
  pub cptr : List Child
  pub navail : ℕ

-- What the kernel answers in a round: the socket that accept(2) gives if the listening socket is ready,
-- and which of the pipes that can be read select(2) reports.
pub record Kernel : Type 0 where
  pub connection : Option ℕ
  pub reports : ℕ → Bool

abbrev pub is_ended : Phase → Bool
is_ended reading = false
is_ended (serving fd) = false
is_ended reporting = false
is_ended ended = true

-- A pipe can be read when there is a byte in it or its other end is closed.
abbrev pub can_read : Process → Bool
can_read p = ltb 0 p.bytes || is_ended p.phase

-- `rset` behind select(2), from the child `i`
unfoldable pub select_pipes : Kernel → ℕ → List Child → List Bool
select_pipes k i [] = []
select_pipes k i (c ∷ cs) = (k.reports i && can_read c.process) ∷ select_pipes k (suc i) cs

-- the number of the pipes in `rset`
unfoldable pub count_set : List Bool → ℕ
count_set [] = 0
count_set (b ∷ bs) = (if b then 1 else 0) + count_set bs

-- Write_fd
abbrev pub hand : ℕ → Process → Process
hand fd p = record p { inbox = p.inbox ++ (fd ∷ []) }

-- The round goes on or returns to its beginning with a result, or err_quit ends the parent.
pub data Result (A : Type 0) : Type 0 where
  ok : A → Result A
  no_available : Result A
  terminated : ℕ → Result A

abbrev pub and_then : {A B : Type 0} → Result A → (A → Result B) → Result B
and_then (ok a) f = f a
and_then no_available f = no_available
and_then (terminated i) f = terminated i

abbrev pub behind : Child → Result (List Child) → Result (List Child)
behind c r = and_then r (λ cs. ok (c ∷ cs))

-- the search for a child that is available, which gets the connection
unfoldable pub give : ℕ → List Child → Result (List Child)
give fd [] = no_available
give fd (c ∷ cs) =
    let rest = give fd cs in
    if c.child_status == 0
    then ok (
        record { process = hand fd c.process; child_status = 1; child_count = suc c.child_count }
        ∷ cs)
    else behind c rest

-- Read of one byte from a pipe that can be read, `none` where it returns 0
unfoldable pub read_byte : Process → Option Process
read_byte p = if ltb 0 p.bytes then some (record p { bytes = p.bytes - 1 }) else none

abbrev pub freed : Child → Process → Child
freed c p = record c { process = p; child_status = 0 }

abbrev pub one_more : Child → Result (List Child × ℕ) → Result (List Child × ℕ)
one_more c r = and_then r (λ q. ok (c ∷ q.0, suc q.1))

abbrev pub none_more : Child → Result (List Child × ℕ) → Result (List Child × ℕ)
none_more c r = and_then r (λ q. ok (c ∷ q.0, q.1))

-- the loop that finds the children that are newly available, from the child `i`, and how many they are;
-- it ends when `nsel` is used up
unfoldable pub collect : ℕ → List Bool → ℕ → List Child → Result (List Child × ℕ)
collect i [] nsel cs = ok (cs, 0)
collect i (b ∷ bs) nsel [] = ok ([], 0)
collect i (b ∷ bs) nsel (c ∷ cs) =
    let same = collect (suc i) bs nsel cs in
    let fewer = collect (suc i) bs (nsel - 1) cs in
    if b
    then elim (read_byte c.process) [
      | none ↦ terminated i
      | some p ↦ if nsel - 1 == 0 then ok (freed c p ∷ cs, 1) else one_more (freed c p) fewer
    ]
    else none_more c same

abbrev pub newly : ℕ → List Child × ℕ → Parent
newly navail q = record { cptr = q.0; navail = navail + q.1 }

-- the part of the round behind the connection
abbrev pub collect_all : List Bool → ℕ → Parent → Result Parent
collect_all rset nsel s = and_then (collect 0 rset nsel s.cptr) (λ q. ok (newly s.navail q))

-- whether the listening socket is in `rset`, with what accept(2) gives: it is taken out while no child
-- is available
abbrev pub newcomer : Kernel → Parent → Option ℕ
newcomer k s = if ltb 0 s.navail then k.connection else none

-- the round behind select(2), with what it reports; the kernel counts that in `nsel`
unfoldable pub round_from : List Bool → Option ℕ → Parent → Result Parent
round_from rset none s = collect_all rset (count_set rset) s
round_from rset (some fd) s = and_then (give fd s.cptr) (λ cs.
    let nsel = suc (count_set rset) in
    let t : Parent = record { cptr = cs; navail = s.navail - 1 } in
    if nsel - 1 == 0 then ok t else collect_all rset (nsel - 1) t)

-- one round of the loop of `main`
unfoldable pub round : Kernel → Parent → Result Parent
round k s = round_from (select_pipes k 0 s.cptr) (newcomer k s) s

-- What an observer sees of a step.
pub data Event : Type 0 where
  accepted : ℕ → Event
  closed : ℕ → Event
  silent : Event

abbrev pub to_event : Option ℕ → Event
to_event none = silent
to_event (some fd) = accepted fd

-- The steps of child_main. The socket of a process that ends is closed with it.
pub data ChildStep (p : Process) : Event → Process → Type 0 where
  receive :
      (fd : ℕ) (fds : List ℕ)
      → p.phase ≡ reading
      → p.inbox ≡ fd ∷ fds
      → ChildStep p silent (record p { inbox = fds; phase = serving fd })
  serve : (fd : ℕ) → p.phase ≡ serving fd → ChildStep p (closed fd) (record p { phase = reporting })
  fail : (fd : ℕ) → p.phase ≡ serving fd → ChildStep p (closed fd) (record p { phase = ended })
  report :
      p.phase ≡ reporting → ChildStep p silent (record p { phase = reading; bytes = suc p.bytes })

abbrev pub with_process : Child → Process → Child
with_process c p = record c { process = p }

pub data Step (s : Parent) : Event → Parent → Type 0 where
  parent : (k : Kernel) (t : Parent) → round k s ≡ ok t → Step s (to_event (newcomer k s)) t
  child :
      (before after : List Child) (c : Child) (e : Event) (p : Process)
      → s.cptr ≡ before ++ (c ∷ after)
      → ChildStep c.process e p
      → Step s e (record s { cptr = before ++ (with_process c p ∷ after) })

-- A sequence of steps with what is seen of it, the last first.
pub data Run (s : Parent) : List Event → Parent → Type 0 where
  here : Run s [] s
  next : {es : List Event} {e : Event} {t u : Parent} → Run s es t → Step t e u → Run s (e ∷ es) u

-- child_make, behind fork(2) in the parent
unfoldable pub child_make : Child
child_make = record {
  process = record { inbox = []; phase = reading; bytes = 0 };
  child_status = 0;
  child_count = 0;
}

unfoldable pub make_children : ℕ → List Child
make_children zero = []
make_children (suc n) = child_make ∷ make_children n

-- the parent before its loop
unfoldable pub start : ℕ → Parent
start nchildren = record { cptr = make_children nchildren; navail = nchildren }
