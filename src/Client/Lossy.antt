-- ===== src/Client/Lossy.antt =====
-- Which bytes `chatUser` of Lab3/chatclient.c loses.
use cosc.Prelude.{
  ℕ, zero, suc, ◌≤◌, ◌<◌, ◌≡◌, refl, ap, true, some, List, [], ◌∷◌, ◌++◌, append-nil, append_assoc,
  lt→ltb, if◌then◌else◌, length, length-append, length-take, take, take_all, Bytes, arith,
  Bool-cases, inl, inr, ◌↔◌,
}
use cosc.Client.{buff_size, Kernel, User, goes_on, on_chat, on_stdin, round, chat_user}

-- No call of a round fails, what is read leaves room for the NUL, and write(2) takes `taken` bytes at
-- most.
pub record Works (k : Kernel) : Type 0 where
  pub selects : k.selects ≡ true
  pub taken : ℕ
  pub writes : k.writes ≡ some taken
  pub room : length k.from_chat < buff_size

abbrev pub AllWork : List Kernel → Type 0
AllWork [] = Unit
AllWork (k ∷ ks) = Works k × AllWork ks

-- What a round reads from the server and from the terminal: with the server ready the terminal waits.
abbrev pub heard : Kernel → Bytes
heard k = if k.chat_ready then k.from_chat else []

abbrev pub typed : Kernel → Bytes
typed k = if k.chat_ready then [] else if k.stdin_ready then k.from_stdin else []

abbrev pub all_heard : List Kernel → Bytes
all_heard [] = []
all_heard (k ∷ ks) = heard k ++ all_heard ks

abbrev pub all_typed : List Kernel → Bytes
all_typed [] = []
all_typed (k ∷ ks) = typed k ++ all_typed ks

-- Every write(2) takes all that it is given.
abbrev pub AllTaken : (ks : List Kernel) → AllWork ks → Type 0
AllTaken [] w = Unit
AllTaken (k ∷ ks) (w, ws) =
    (length (heard k) ≤ w.taken) × (length (typed k) ≤ w.taken) × AllTaken ks ws

abbrev heard_out : (ks : List Kernel) → AllWork ks → Bytes
heard_out [] w = []
heard_out (k ∷ ks) (w, ws) = take w.taken (heard k) ++ heard_out ks ws

abbrev typed_out : (ks : List Kernel) → AllWork ks → Bytes
typed_out [] w = []
typed_out (k ∷ ks) (w, ws) = take w.taken (typed k) ++ typed_out ks ws

abbrev gains : Bytes → Bytes → User → User
gains a b u = record { shown = u.shown ++ a; sent = u.sent ++ b }

on_chat_works :
    (n : ℕ) (bs : Bytes) (u : User)
    → length bs < buff_size
    → on_chat (some n) bs u ≡ goes_on (gains (take n bs) [] u)
unfolding on_chat
on_chat_works zero [] u h = rw (append-nil u.shown, append-nil u.sent)
on_chat_works (suc n) [] u h = rw (append-nil u.shown, append-nil u.sent)
on_chat_works n (b ∷ bs) u h = rw (lt→ltb (length (b ∷ bs)) buff_size h, append-nil u.sent)

on_stdin_works :
    (n : ℕ) (bs : Bytes) (u : User) → on_stdin (some n) bs u ≡ goes_on (gains [] (take n bs) u)
unfolding on_stdin
on_stdin_works zero [] u = rw (append-nil u.shown, append-nil u.sent)
on_stdin_works (suc n) [] u = rw (append-nil u.shown, append-nil u.sent)
on_stdin_works n (b ∷ bs) u = rw (append-nil u.shown)

take-nil : (n : ℕ) → take {A = ℕ} n [] ≡ []
take-nil zero = refl
take-nil (suc n) = refl

round_works :
    (k : Kernel) (u : User) (w : Works k)
    → round k u ≡ goes_on (gains (take w.taken (heard k)) (take w.taken (typed k)) u)
unfolding round
round_works k u w = elim (Bool-cases k.chat_ready) [
  | inl chat ↦
      rw (w.selects, chat, w.writes, take-nil w.taken) (on_chat_works w.taken k.from_chat u w.room)
  | inr quiet ↦ elim (Bool-cases k.stdin_ready) [
    | inl ready ↦
        rw (w.selects, quiet, ready, w.writes, take-nil w.taken)
          (on_stdin_works w.taken k.from_stdin u)
    | inr idle ↦
        rw (w.selects, quiet, idle, take-nil w.taken, append-nil u.shown, append-nil u.sent)
  ]
]

chat_user_works :
    (ks : List Kernel) (u : User) (w : AllWork ks)
    → chat_user ks u ≡ goes_on (gains (heard_out ks w) (typed_out ks w) u)
unfolding chat_user
chat_user_works [] u w = rw (append-nil u.shown, append-nil u.sent)
chat_user_works (k ∷ ks) u (w, ws) = rw (
  round_works k u w,
  chat_user,
  chat_user_works ks _ ws,
  append_assoc u.shown,
  append_assoc u.sent,
)

out_le :
    (ks : List Kernel) (w : AllWork ks)
    → (length (heard_out ks w) ≤ length (all_heard ks))
      × (length (typed_out ks w) ≤ length (all_typed ks))
out_le [] w = (omega arith, omega arith)
out_le (k ∷ ks) (w, ws) =
    let r = out_le ks ws in
    (
      omega (
        arith,
        r.0,
        length-append (take w.taken (heard k)) (heard_out ks ws),
        length-append (heard k) (all_heard ks),
        length-take w.taken (heard k),
      ),
      omega (
        arith,
        r.1,
        length-append (take w.taken (typed k)) (typed_out ks ws),
        length-append (typed k) (all_typed ks),
        length-take w.taken (typed k),
      ),
    )

long_enough :
    (ks : List Kernel) (w : AllWork ks)
    → length (heard_out ks w) ≡ length (all_heard ks)
    → length (typed_out ks w) ≡ length (all_typed ks)
    → AllTaken ks w
long_enough [] w h t = tt
long_enough (k ∷ ks) (w, ws) h t =
    let r = out_le ks ws in
    let ha = length-append (take w.taken (heard k)) (heard_out ks ws) in
    let hb = length-append (heard k) (all_heard ks) in
    let hc = length-take w.taken (heard k) in
    let ta = length-append (take w.taken (typed k)) (typed_out ks ws) in
    let tb = length-append (typed k) (all_typed ks) in
    let tc = length-take w.taken (typed k) in
    (
      omega (arith, h, r.0, ha, hb, hc),
      omega (arith, t, r.1, ta, tb, tc),
      long_enough ks ws (omega (arith, h, r.0, ha, hb, hc)) (omega (arith, t, r.1, ta, tb, tc)),
    )

all_out :
    (ks : List Kernel) (w : AllWork ks)
    → AllTaken ks w
    → (heard_out ks w ≡ all_heard ks) × (typed_out ks w ≡ all_typed ks)
all_out [] w a = (refl, refl)
all_out (k ∷ ks) (w, ws) a =
    let r = all_out ks ws a.2 in
    (rw (take_all w.taken (heard k) a.0, r.0) refl, rw (take_all w.taken (typed k) a.1, r.1) refl)

same_length : (a b c : Bytes) → a ++ b ≡ a ++ c → length b ≡ length c
same_length a b c h = omega (arith, ap length h, length-append a b, length-append a c)

-- As long as no call fails and no read fills the buffer the client goes on; and it then has shown all
-- that it has read from the server, and sent all that it has read from the terminal, in order, exactly
-- if every write(2) took all that it was given. It reads the terminal only in rounds in which the
-- server is silent.
pub chat_user_iff :
    (ks : List Kernel) (u : User) (w : AllWork ks)
    → (t : User) × (chat_user ks u ≡ goes_on t)
      × (((t.shown ≡ u.shown ++ all_heard ks) × (t.sent ≡ u.sent ++ all_typed ks)) ↔ AllTaken ks w)
chat_user_iff ks u w = (
  gains (heard_out ks w) (typed_out ks w) u,
  chat_user_works ks u w,
  (
    λ h. long_enough ks w (same_length u.shown _ _ h.0) (same_length u.sent _ _ h.1),
    λ a. let r = all_out ks w a in (ap (λ x. u.shown ++ x) r.0, ap (λ x. u.sent ++ x) r.1),
  ),
)
