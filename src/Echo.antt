-- ===== src/Echo.antt =====
-- The echo client and server of Lab2017: `str_cli` of select/strcliselect02.c, `str_echo` of
-- lib/str_echo.c, and the two of them on a connection. Writen returns when all is written; a read that a
-- signal interrupts is made again and changes nothing. When str_echo returns, its process exits, which
-- closes the connection.
pub mod Order
pub mod Ending
mod Tests
use cosc.Prelude.{
  ℕ, zero, suc, ◌+◌, ◌≤◌, ◌≡◌, Bool, true, false, not, Option, none, some, [], ◌++◌, length, take,
  drop, Bytes, if◌then◌else◌,
}

abbrev pub maxline : ℕ
maxline = 4096

-- What a read gives that is made when there is something to read: some bytes, or the end.
pub data Got : Type 0 where
  got : ℕ → Got
  eof : Got

-- The client is in its loop, has returned from it, or has ended in err_quit.
pub data Client : Type 0 where
  runs : Client
  returned : Client
  quits : Client

-- The two programs and what is between them: `input` is what standard input still gives, `up` and `down`
-- are on their way, `shown` is on standard output. The FIN of the client is sent with `stdineof`, that of
-- the server when str_echo returns.
pub record Session : Type 0 where
  pub input : Bytes
  pub stdineof : Bool
  pub up : Bytes
  pub down : Bytes
  pub shown : Bytes
  pub client : Client
  pub echoing : Bool

pub start : Bytes → Session
start input = record {
  input = input;
  stdineof = false;
  up = [];
  down = [];
  shown = [];
  client = runs;
  echoing = true;
}

-- the part of the loop of `str_cli` for the socket
unfoldable pub read_socket : Got → Session → Session
read_socket (got n) s = record s { down = drop n s.down; shown = s.shown ++ take n s.down }
read_socket eof s = record s { client = if s.stdineof then returned else quits }

-- and for standard input
unfoldable pub read_stdin : Got → Session → Session
read_stdin (got n) s = record s { input = drop n s.input; up = s.up ++ take n s.input }
read_stdin eof s = record s { stdineof = true }

-- one round of `str_cli`, for what select(2) finds ready
unfoldable pub str_cli : Option Got → Option Got → Session → Session
str_cli none none s = s
str_cli none (some i) s = read_stdin i s
str_cli (some g) none s = read_socket g s
str_cli (some g) (some i) s =
    let t = read_socket g s in elim t.client [ runs ↦ read_stdin i t | returned ↦ t | quits ↦ t ]

-- one round of `str_echo`
unfoldable pub str_echo : Got → Session → Session
str_echo (got n) s = record s { up = drop n s.up; down = s.down ++ take n s.up }
str_echo eof s = record s { echoing = false }

-- A read of a stream that is not empty gives from 1 to MAXLINE of its bytes; at its end it gives 0.
abbrev pub Gives : Got → Bytes → Bool → Type 0
Gives (got n) bytes ended = (1 ≤ n) × (n ≤ length bytes) × (n ≤ maxline)
Gives eof bytes ended = (bytes ≡ []) × (ended ≡ true)

-- A step of the client or of the server; the client looks at standard input until its end.
pub data Step (s : Session) : Session → Type 0 where
  socket :
      (g : Got)
      → s.client ≡ runs
      → Gives g s.down (not s.echoing)
      → Step s (str_cli (some g) none s)
  stdin :
      (i : Got)
      → s.client ≡ runs
      → s.stdineof ≡ false
      → Gives i s.input true
      → Step s (str_cli none (some i) s)
  both :
      (g i : Got)
      → s.client ≡ runs
      → s.stdineof ≡ false
      → Gives g s.down (not s.echoing)
      → Gives i s.input true
      → Step s (str_cli (some g) (some i) s)
  server : (g : Got) → s.echoing ≡ true → Gives g s.up s.stdineof → Step s (str_echo g s)

-- A number of steps.
pub data Run (s : Session) : ℕ → Session → Type 0 where
  here : Run s 0 s
  next : {n : ℕ} {t u : Session} → Run s n t → Step t u → Run s (suc n) u
