-- ===== src/Client.antt =====
-- Lab3/chatclient.c: `chatUser`, which copies between the terminal and the chat server.
pub mod Lossy
pub mod Loop
mod Tests
use cosc.Prelude.{
  ℕ, ◌+◌, Bool, true, false, List, [], ◌∷◌, ◌++◌, ltb, Option, none, some, take, if◌then◌else◌,
  length, Bytes,
}

-- `BUFF_SIZE`
abbrev pub buff_size : ℕ
buff_size = 10000

-- What the kernel answers in one round: whether select(2) fails, which descriptors it leaves set, what
-- read(2) gives on them (nothing at the end or on an error), and how many bytes write(2) takes, if it
-- does not fail.
pub record Kernel : Type 0 where
  pub selects : Bool
  pub chat_ready : Bool
  pub stdin_ready : Bool
  pub from_chat : Bytes
  pub from_stdin : Bytes
  pub writes : Option ℕ

-- What the client has shown and what it has sent.
pub record User : Type 0 where
  pub shown : Bytes
  pub sent : Bytes

-- The loop goes on, the process ends by exit(3), or a byte is written behind the buffer.
pub data Round : Type 0 where
  goes_on : User → Round
  exits : User → Round
  overflows : User → Round

-- the branch of the socket: `buffer[nread]=0`, then one `write` to standard output; what this does not
-- take is gone
unfoldable pub on_chat : Option ℕ → Bytes → User → Round
on_chat writes [] u = goes_on u
on_chat writes (b ∷ bs) u =
    if ltb (length (b ∷ bs)) buff_size
    then elim writes [
      | none ↦ exits u
      | some n ↦ goes_on (record u { shown = u.shown ++ take n (b ∷ bs) })
    ]
    else overflows u

-- the branch of standard input
unfoldable pub on_stdin : Option ℕ → Bytes → User → Round
on_stdin writes [] u = goes_on u
on_stdin writes (b ∷ bs) u = elim writes [
  | none ↦ exits u
  | some n ↦ goes_on (record u { sent = u.sent ++ take n (b ∷ bs) })
]

-- one round of the loop of `chatUser`
unfoldable pub round : Kernel → User → Round
round k u =
    if k.selects
    then (if k.chat_ready
        then on_chat k.writes k.from_chat u
        else if k.stdin_ready
        then on_stdin k.writes k.from_stdin u
        else goes_on u)
    else exits u

-- the loop
unfoldable pub chat_user : List Kernel → User → Round
chat_user [] u = goes_on u
chat_user (k ∷ ks) u = elim (round k u) [
  | goes_on t ↦ chat_user ks t
  | exits t ↦ exits t
  | overflows t ↦ overflows t
]
