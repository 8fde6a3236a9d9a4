-- ===== src/Chat.antt =====
-- Lab3/chatserver.c: the tables of the chat server and the functions that serve its chatters.
-- The globals fd_chats, name_chats and numChats are the record `Chat`, with what the process has
-- written, closed and printed so far. `none` stands for a write outside an array.
pub mod Tables
pub mod Watch
mod Tests
pub mod Keeps
pub mod Rounds
pub mod Effects
pub mod Valid
pub mod Roster
use cosc.Prelude.{
  ℕ, zero, suc, ◌+◌, ◌-◌, Bool, true, false, Option, none, some, List, [], ◌∷◌, ◌++◌, ltb, leb,
  ◌==◌, if◌then◌else◌, ◌&&◌, ◌||◌, ◌>>=◌, ◌>>◌, guard, length, get_or, set, drop, replicate, Bytes,
  codes, until_nul, drop_last, starts_with, decimal,
}

abbrev pub name_size : ℕ
name_size = 40

abbrev pub max_chats : ℕ
max_chats = 40

abbrev pub buff_size : ℕ
buff_size = 100000

abbrev pub chat_full : Bytes
chat_full = codes "Max chats achieved, NO SEAT available :-("

abbrev pub welcome_msg : Bytes
welcome_msg = codes "Welcome to chatter: Enter your name with a command like: -name=Haibo\n"

abbrev pub change_name : Bytes
change_name = codes "-name="

-- A system call with an effect that others see.
pub data Action : Type 0 where
  write : ℕ → Bytes → Action
  close : ℕ → Action
  print : Bytes → Action

pub record Chat : Type 0 where
  pub fds : List ℕ
  pub names : List Bytes
  pub num : ℕ
  pub out : List Action

-- The globals before `main`: C sets them to zero.
unfoldable pub start : Chat
start = record { fds = replicate max_chats 0; names = replicate max_chats []; num = 0; out = [] }

-- What the kernel answers in one round of `chatLoop`: the sockets that select(2) leaves set, the
-- socket of accept(2), the bytes of read(2) on a socket (none at the end or on an error), and the
-- printed address and the port of getpeername(2).
pub record Net : Type 0 where
  pub select : ℕ → (ℕ → Bool) → ℕ → Bool
  pub accepted : ℕ
  pub received : ℕ → Bytes
  pub peer_ip : ℕ → Bytes
  pub peer_port : ℕ → ℕ

abbrev pub emit : Action → Chat → Chat
emit a s = record s { out = s.out ++ (a ∷ []) }

abbrev pub fd_at : Chat → ℕ → ℕ
fd_at s i = get_or s.fds i 0

abbrev pub name_at : Chat → ℕ → Bytes
name_at s i = get_or s.names i []

-- `strcpy` into a row of `name_chats`, which holds `name_size` bytes and the NUL.
unfoldable pub copy_name : ℕ → Bytes → Chat → Option Chat
copy_name i name s =
    if ltb i max_chats && leb (length name) name_size
    then some (record s { names = set s.names i name })
    else none

-- `sprintf` into an array of `buff_size` bytes.
abbrev pub sprintf : Bytes → Option Bytes
sprintf text = if ltb (length text) buff_size then some text else none

abbrev pub renamed : Bytes → Bytes
renamed name = codes "Your name has been changed to: " ++ (name ++ codes "\n")

abbrev pub signed : Bytes → Bytes → Bytes
signed name text = name ++ (codes ":\n" ++ (text ++ codes "\n"))

-- the loop of `processChat` over the chatters from `j` on, `n` of them
unfoldable pub send_from : ℕ → ℕ → ℕ → Bytes → Chat → Chat
send_from zero j i text s = s
send_from (suc n) j i text s =
    send_from n (j + 1) i text (if j == i then s else emit (write (fd_at s j) text) s)

unfoldable pub rename : ℕ → Bytes → Chat → Option Chat
rename i name s = do
  s' ← copy_name i name s
  reply ← sprintf (renamed (name_at s' i))
  some (emit (write (fd_at s' i) reply) s')

unfoldable pub broadcast : ℕ → Bytes → Chat → Option Chat
broadcast i text s = do
  message ← sprintf (signed (name_at s i) text)
  some (send_from s.num 0 i message s)

-- `processChat`, on the string that stands in the buffer
unfoldable pub process : ℕ → Bytes → Chat → Option Chat
process i text s =
    if starts_with change_name text
    then rename i (drop (length change_name) text) s
    else broadcast i text s

-- the loop of `addChatter` that lists the names from `j` on, `n` of them
unfoldable pub list_names : ℕ → ℕ → Chat → Bytes
list_names zero j s = []
list_names (suc n) j s = name_at s j ++ (codes " " ++ list_names n (j + 1) s)

unfoldable pub present : Chat → Bytes
present s =
    if s.num == 0
    then codes "You are the first chatter!\n"
    else codes " Current Chatters: " ++ list_names s.num 0 s

-- the text that `addChatter` builds
unfoldable pub greeting : Chat → Bytes
greeting s = welcome_msg ++ (present s ++ codes "\n")

unfoldable pub add_chatter : ℕ → Chat → Option Chat
add_chatter fd s = do
  s' ← copy_name s.num (codes "unknown:" ++ decimal s.num) s
  text ← sprintf (greeting s')
  guard (ltb s'.num max_chats)
  some (record (emit (write fd text) s') { fds = set s'.fds s'.num fd; num = s'.num + 1 })

-- the loop of `remove_chatter`: `n` rounds from row `k` on
unfoldable pub compress : ℕ → ℕ → Chat → Chat
compress zero k s = s
compress (suc n) k s = compress n (k + 1) (record s {
  fds = set s.fds k (get_or s.fds (k + 1) 0);
  names = set s.names k (get_or s.names (k + 1) []);
})

unfoldable pub leaves : Bytes → ℕ → Bytes
leaves ip port =
    codes "Chatter " ++ (ip ++ (codes "/" ++ (decimal port ++ codes " leaves the chat\n")))

unfoldable pub remove_chatter : Net → ℕ → Chat → Chat
remove_chatter net i s =
    let fd = fd_at s i in
    let t = compress (s.num - 1 - i) i s in
    emit (close fd)
      (emit (print (leaves (net.peer_ip fd) (net.peer_port fd))) (record t { num = s.num - 1 }))

-- `buffer[nread-1]=0`, and the string that is then in `buffer`
abbrev pub message_of : Bytes → Bytes
message_of bytes = until_nul (drop_last bytes)

unfoldable pub closing : ℕ → Bytes
closing fd = codes "Time to close out chat file descriptor: " ++ (decimal fd ++ codes "\n")

-- the body of the second loop of `chatLoop`, on what `read` returns
unfoldable pub on_read : Net → ℕ → Bytes → Chat → Option Chat
on_read net i [] s = some (remove_chatter net i (emit (print (closing (fd_at s i))) s))
on_read net i (c ∷ cs) s = process i (message_of (c ∷ cs)) s

unfoldable pub serve_one : Net → (ℕ → Bool) → ℕ → Chat → Option Chat
serve_one net ready i s =
    if ready (fd_at s i) then on_read net i (net.received (fd_at s i)) s else some s

-- the second loop of `chatLoop`, which reads numChats anew in each round; `f` is fuel
unfoldable pub serve_from : Net → (ℕ → Bool) → ℕ → ℕ → Chat → Option Chat
serve_from net ready zero i s = if ltb i s.num then none else some s
serve_from net ready (suc f) i s = elim (ltb i s.num) [
  | true ↦ serve_one net ready i s >>= (λ t. serve_from net ready f (i + 1) t)
  | false ↦ some s
]

unfoldable pub joins : Bytes → ℕ → Bytes
joins ip port =
    codes "Chatter "
    ++ (ip ++ (codes " connected to the server via port " ++ (decimal port ++ codes "\n")))

-- the branch of `chatLoop` for the listening socket; `sizeof CHAT_FULL` counts the NUL
unfoldable pub admit : Net → Chat → Option Chat
admit net s =
    let fd = net.accepted in
    let t = emit (print (joins (net.peer_ip fd) (net.peer_port fd))) s in
    if ltb max_chats t.num
    then some (emit (close fd) (emit (write fd (chat_full ++ (0 ∷ []))) t))
    else add_chatter fd t

-- the first loop of `chatLoop`: FD_SET for `n` chatters from `j` on, and `maxfd`
unfoldable pub watch_from : ℕ → ℕ → Chat → (ℕ → Bool) → ℕ → (ℕ → Bool) × ℕ
watch_from zero j s watched top = (watched, top)
watch_from (suc n) j s watched top =
    let fd = fd_at s j in
    watch_from n (j + 1) s (λ x. x == fd || watched x) (if ltb top fd then fd else top)

unfoldable pub watch : ℕ → Chat → (ℕ → Bool) × ℕ
watch listen s = watch_from s.num 0 s (λ x. x == listen) listen

-- the sockets that FD_ISSET finds set behind select(2)
unfoldable pub ready_in : ℕ → Net → Chat → ℕ → Bool
ready_in listen net s = let (watched, top) = watch listen s in net.select (top + 1) watched

unfoldable pub admit_if : Bool → Net → Chat → Option Chat
admit_if true net s = admit net s
admit_if false net s = some s

-- one round of `chatLoop`
unfoldable pub round : ℕ → Net → Chat → Option Chat
round listen net s =
    let ready = ready_in listen net s in
    admit_if (ready listen) net s >>= (λ t. serve_from net ready t.num 0 t)

-- `chatLoop`, over the answers of the kernel in each round
unfoldable pub chat_loop : ℕ → List Net → Chat → Option Chat
chat_loop listen [] s = some s
chat_loop listen (net ∷ nets) s = round listen net s >>= (λ t. chat_loop listen nets t)
