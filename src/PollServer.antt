-- ===== src/PollServer.antt =====
-- Lab2017/tcpcliserv/tcpservpoll01.c: the echo server over poll(2). The table `client` without its
-- first entry, the listening socket, is a list of slots; maxi is the number of slots in use.
pub mod Echo
pub mod Slots
pub mod Rounds
mod Tests
use cosc.Prelude.{
  ℕ, zero, suc, ◌+◌, ◌-◌, Bool, true, false, Option, none, some, List, [], ◌∷◌, ◌++◌, ltb, leb,
  if◌then◌else◌, ◌>>=◌, Bytes, replicate,
}

-- `client[i].fd`, `none` where it is -1, and whether `client[i].revents` has POLLRDNORM or POLLERR
pub record Slot : Type 0 where
  pub fd : Option ℕ
  pub ready : Bool

-- What read(2) returns: bytes (none at the end of the stream), -1 with ECONNRESET, or -1 with another
-- error.
pub data Reading : Type 0 where
  bytes : Bytes → Reading
  reset : Reading
  broken : Reading

pub data Action : Type 0 where
  echo : ℕ → Bytes → Action
  close : ℕ → Action

pub record Server : Type 0 where
  pub slots : List Slot
  pub maxi : ℕ

-- What the kernel answers in one round: poll(2) finds a connection, or data on a socket, and returns
-- `nready`; accept(2) gives a socket, unless it fails; read(2) gives what it gives on each socket; and
-- writen hands everything over to a socket, unless it fails.
pub record Poll : Type 0 where
  pub connects : Bool
  pub ready : ℕ → Bool
  pub nready : ℕ
  pub accepted : Option ℕ
  pub reading : ℕ → Reading
  pub writes : ℕ → Bool

-- The server goes on, having acted, or the process ends by err_quit or err_sys.
pub data Round : Type 0 where
  goes_on : Server → List Action → Round
  quits : Round

-- What poll(2) stores in the first `k` slots; it sets `revents` to 0 where `fd` is negative.
unfoldable pub poll_slots : (ℕ → Bool) → ℕ → List Slot → List Slot
poll_slots ready zero ss = ss
poll_slots ready (suc k) [] = []
poll_slots ready (suc k) (s ∷ ss) =
    record { fd = s.fd; ready = elim s.fd [ none ↦ false | some fd ↦ ready fd ] }
    ∷ poll_slots ready k ss

-- The new socket in the first free slot, with the index of that slot in `client`; `revents` stays as
-- it is.
unfoldable pub place : ℕ → List Slot → Option (List Slot × ℕ)
place fd [] = none
place fd (s ∷ ss) =
    let rest = place fd ss in
    elim s.fd [
      | none ↦ some (record { fd = some fd; ready = s.ready } ∷ ss, 1)
      | some n ↦ rest >>= (λ r. some (s ∷ r.0, r.1 + 1))
    ]

abbrev pub release : Slot → Slot
release s = record { fd = none; ready = s.ready }

-- the branch of the loop for a ready socket: the slot afterwards and what is done, `none` where the
-- process ends
unfoldable pub handle : Poll → ℕ → Slot → Reading → Option (Slot × Action)
handle p fd s reset = some (release s, close fd)
handle p fd s broken = none
handle p fd s (bytes []) = some (release s, close fd)
handle p fd s (bytes (b ∷ bs)) = if p.writes fd then some (s, echo fd (b ∷ bs)) else none

-- A slot that the loop leaves as it is, and one that it has handled.
abbrev pub pass : Slot → Option (List Slot × List Action) → Option (List Slot × List Action)
pass s none = none
pass s (some (ss, acts)) = some (s ∷ ss, acts)

abbrev pub handled :
    Slot × Action → Option (List Slot × List Action) → Option (List Slot × List Action)
handled (s, a) none = none
handled (s, a) (some (ss, acts)) = some (s ∷ ss, a ∷ acts)

-- the loop over the first `k` slots; it ends when `nready` sockets have been served
unfoldable pub serve : Poll → ℕ → ℕ → List Slot → Option (List Slot × List Action)
serve p zero nready ss = some (ss, [])
serve p (suc k) nready [] = some ([], [])
serve p (suc k) nready (s ∷ ss) =
    let same = serve p k nready ss in
    let fewer = serve p k (nready - 1) ss in
    elim s.fd [
      | none ↦ pass s same
      | some fd ↦
          if s.ready
          then (handle p fd s (p.reading fd)
              >>= (λ h. if leb nready 1 then handled h (some (ss, [])) else handled h fewer))
          else pass s same
    ]

abbrev pub to_round : ℕ → Option (List Slot × List Action) → Round
to_round maxi none = quits
to_round maxi (some (ss, acts)) = goes_on (record { slots = ss; maxi = maxi }) acts

-- the branch of the round for a connection, with the slots as poll(2) leaves them
unfoldable pub connect : Poll → ℕ → List Slot → Round
connect p maxi ss = elim (p.accepted >>= (λ fd. place fd ss)) [
  | none ↦ quits
  | some (placed, i) ↦
      let top = if ltb maxi i then i else maxi in
      if leb p.nready 1
      then goes_on (record { slots = placed; maxi = top }) []
      else to_round top (serve p top (p.nready - 1) placed)
]

-- one round of the loop of `main`
unfoldable pub round : Poll → Server → Round
round p s =
    let polled = poll_slots p.ready s.maxi s.slots in
    if p.connects then connect p s.maxi polled else to_round s.maxi (serve p s.maxi p.nready polled)

-- `n` entries of `client` from the index `i` on, where the loop of `main` has stored -1 in `fd`;
-- `revents` is what the memory of the array held
unfoldable pub fresh_slots : (ℕ → Bool) → ℕ → ℕ → List Slot
fresh_slots old i zero = []
fresh_slots old i (suc n) = record { fd = none; ready = old i } ∷ fresh_slots old (i + 1) n

-- the server before the loop, with room for `open_max` descriptors
unfoldable pub start : (ℕ → Bool) → ℕ → Server
unfolding fresh_slots
start old open_max = record { slots = fresh_slots old 1 (open_max - 1); maxi = 0 }
