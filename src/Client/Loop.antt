-- ===== src/Client/Loop.antt =====
-- What `chatUser` of Lab3/chatclient.c does when its buffer is full or the server is gone.
use cosc.Prelude.{ℕ, Option, ◌≡◌, refl, true, List, [], ◌∷◌, ltb-false, length, Bytes, All, arith}
use cosc.Client.{buff_size, Kernel, User, goes_on, overflows, on_chat, round, chat_user}

on_chat_full :
    (w : Option ℕ) (bs : Bytes) (u : User) → length bs ≡ buff_size → on_chat w bs u ≡ overflows u
unfolding on_chat
on_chat_full w [] u h = absurd (omega arith)
on_chat_full w (b ∷ bs) u h = rw (ltb-false (length (b ∷ bs)) buff_size (omega arith))

-- A read that fills the buffer makes the client write its NUL behind it.
pub round_overflow :
    (k : Kernel) (u : User)
    → k.selects ≡ true
    → k.chat_ready ≡ true
    → length k.from_chat ≡ buff_size
    → round k u ≡ overflows u
unfolding round
round_overflow k u s c h = rw (s, c) (on_chat_full k.writes k.from_chat u h)

-- The server has closed the connection: its socket is ready and read(2) gives nothing.
abbrev pub Hangup : Kernel → Type 0
Hangup k = (k.selects ≡ true) × (k.chat_ready ≡ true) × (k.from_chat ≡ [])

round-Hangup : (k : Kernel) (u : User) → Hangup k → round k u ≡ goes_on u
unfolding round on_chat
round-Hangup k u h = rw (h.0, h.1, h.2)

-- After that the client goes round for ever: it does not end, and sends nothing more of what is typed.
pub chat_user_spins : (ks : List Kernel) (u : User) → All Hangup ks → chat_user ks u ≡ goes_on u
unfolding chat_user
chat_user_spins [] u h = refl
chat_user_spins (k ∷ ks) u h = rw (round-Hangup k u h.0, chat_user) (chat_user_spins ks u h.1)
