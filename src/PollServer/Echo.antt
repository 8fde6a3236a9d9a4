-- ===== src/PollServer/Echo.antt =====
-- What a round of the echo server over poll(2) does: which sockets it serves, and which it keeps.
use cosc.Prelude.{
  ℕ, zero, suc, ◌-◌, ◌≡◌, ◌≢◌, refl, Bool, true, false, Option, none, some, List, [], ◌∷◌, ◌++◌,
  if◌then◌else◌, arith, inl, inr, ◌⊎◌,
}
use cosc.PollServer.{
  Slot, Reading, bytes, reset, broken, Action, echo, close, Poll, release, handle, serve,
}

abbrev pub add_socket : Option ℕ → List ℕ → List ℕ
add_socket none rest = rest
add_socket (some fd) rest = fd ∷ rest

-- The sockets of the slots, in order.
abbrev pub sockets : List Slot → List ℕ
sockets [] = []
sockets (s ∷ ss) = add_socket s.fd (sockets ss)

-- What is done on a socket from which this was read, and whether the socket is kept.
abbrev pub reply : ℕ → Reading → List Action
reply fd (bytes []) = close fd ∷ []
reply fd (bytes (b ∷ bs)) = echo fd (b ∷ bs) ∷ []
reply fd reset = close fd ∷ []
reply fd broken = []

abbrev pub stays : Reading → Bool
stays (bytes []) = false
stays (bytes (b ∷ bs)) = true
stays reset = false
stays broken = true

-- The replies to all ready sockets, and the sockets that are kept.
abbrev pub replies : Poll → List ℕ → List Action
replies p [] = []
replies p (fd ∷ fds) = (if p.ready fd then reply fd (p.reading fd) else []) ++ replies p fds

abbrev pub kept : Poll → List ℕ → List ℕ
kept p [] = []
kept p (fd ∷ fds) =
    let rest = kept p fds in
    if p.ready fd then (if stays (p.reading fd) then fd ∷ rest else rest) else fd ∷ rest

-- The number of ready sockets.
abbrev pub count : (ℕ → Bool) → List ℕ → ℕ
count ready [] = 0
count ready (fd ∷ fds) = let rest = count ready fds in if ready fd then suc rest else rest

-- Slots behind the first `k` are free.
abbrev pub FreeFrom : ℕ → List Slot → Type 0
FreeFrom k [] = Unit
FreeFrom zero (s ∷ ss) = (s.fd ≡ none) × FreeFrom zero ss
FreeFrom (suc k) (s ∷ ss) = FreeFrom k ss

-- Nothing ends the process: read(2) gives no error but ECONNRESET, and what is read is written.
pub record NoError (p : Poll) : Type 0 where
  pub reads : (fd : ℕ) → p.reading fd ≢ broken
  pub writes : (fd : ℕ) → p.writes fd ≡ true

-- A slot behind the loop, with what was done for it.
abbrev pub slot_reply : Poll → Slot → List Action
slot_reply p s = elim s.fd [ none ↦ [] | some fd ↦ if s.ready then reply fd (p.reading fd) else [] ]

abbrev pub after : Poll → Slot → Slot
after p s = elim s.fd [
  | none ↦ s
  | some fd ↦ if s.ready then (if stays (p.reading fd) then s else release s) else s
]

abbrev pub slot_replies : Poll → List Slot → List Action
slot_replies p [] = []
slot_replies p (s ∷ ss) = slot_reply p s ++ slot_replies p ss

abbrev pub slot_count : List Slot → ℕ
slot_count [] = 0
slot_count (s ∷ ss) =
    let rest = slot_count ss in
    elim s.fd [ none ↦ rest | some fd ↦ if s.ready then suc rest else rest ]

abbrev pub all_after : Poll → List Slot → List Slot
all_after p [] = []
all_after p (s ∷ ss) = after p s ∷ all_after p ss

pub free_idle :
    (p : Poll) (ss : List Slot)
    → FreeFrom zero ss
    → (all_after p ss ≡ ss) × (slot_replies p ss ≡ []) × (slot_count ss ≡ 0)
free_idle p [] h = (refl, refl, refl)
free_idle p (s ∷ ss) h = ground (arith, free_idle p ss h.1)

pub done_idle :
    (p : Poll) (ss : List Slot)
    → slot_count ss ≡ 0
    → (all_after p ss ≡ ss) × (slot_replies p ss ≡ [])
done_idle p [] h = (refl, refl)
done_idle p (s ∷ ss) h = ground (arith, done_idle p ss)

pub Option-cases {ℓ} : {A : Type ℓ} (o : Option A) → (o ≡ none) ⊎ ((a : A) × (o ≡ some a))
Option-cases none = inl refl
Option-cases (some a) = inr (a, refl)

-- A ready socket is served, if that ends the process neither in read(2) nor in writen.
pub handle_lem :
    (p : Poll) (fd : ℕ) (s : Slot) (r : Reading)
    → r ≢ broken
    → p.writes fd ≡ true
    → (a : Action) × (handle p fd s r ≡ some (if stays r then s else release s, a))
      × (reply fd r ≡ a ∷ [])
unfolding handle
handle_lem p fd s (bytes []) e w = (close fd, refl, refl)
handle_lem p fd s (bytes (b ∷ bs)) e w = (echo fd (b ∷ bs), rw w, refl)
handle_lem p fd s reset e w = (close fd, refl, refl)
handle_lem p fd s broken e w = absurd (e refl)

-- The loop serves every slot that is ready, if `nready` is their number.
pub serve_lem :
    (p : Poll) (k n : ℕ) (ss : List Slot)
    → NoError p
    → FreeFrom k ss
    → slot_count ss ≡ n
    → serve p k n ss ≡ some (all_after p ss, slot_replies p ss)
unfolding serve
serve_lem p zero n ss e f c = let r = free_idle p ss f in rw (r.0, r.1)
serve_lem p (suc k) n [] e f c = refl
serve_lem p (suc k) n (s ∷ ss) e f c = elim (Option-cases s.fd) [
  | inl free ↦ ground (arith, serve_lem p k n ss e f)
  | inr (fd, used) ↦
      let h = handle_lem p fd s (p.reading fd) (e.reads fd) (e.writes fd) in
      ground (arith, h.1, h.2, serve_lem p k n ss e f, serve_lem p k (n - 1) ss e f, done_idle p ss)
]
