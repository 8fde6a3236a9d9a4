-- ===== src/Copying.antt =====
-- Lab2017/nonblock/strclinonb.c: `str_cli` with nonblocking sockets, which copies standard input to the
-- socket and the socket to standard output through two buffers.
pub mod Conserve
mod Tests
use cosc.Prelude.{
  ℕ, zero, suc, ◌+◌, ◌-◌, Bool, true, false, not, ◌&&◌, ◌||◌, List, [], ◌∷◌, ◌++◌, ltb, leb, ◌==◌,
  if◌then◌else◌, length, take, drop, Bytes,
}

abbrev pub maxline : ℕ
maxline = 4096

-- One buffer: the bytes before the input pointer (toiptr, friptr) and the index of the output pointer
-- (tooptr, froptr).
pub record Buffer : Type 0 where
  pub cells : Bytes
  pub out : ℕ

abbrev pub empty : Buffer
empty = record { cells = []; out = 0 }

abbrev pub pending : Buffer → Bytes
pending b = drop b.out b.cells

-- The variables of the loop, with what has passed each descriptor and how often FIN was sent.
pub record Copy : Type 0 where
  pub to : Buffer
  pub fr : Buffer
  pub stdineof : Bool
  pub stdin_read : Bytes
  pub sock_written : Bytes
  pub sock_read : Bytes
  pub stdout_written : Bytes
  pub fins : ℕ

pub start : Copy
start = record {
  to = empty;
  fr = empty;
  stdineof = false;
  stdin_read = [];
  sock_written = [];
  sock_read = [];
  stdout_written = [];
  fins = 0;
}

-- What read(2) and write(2) return: -1 with EWOULDBLOCK is `later`.
pub data In : Type 0 where
  got : Bytes → In
  later : In
  failed : In

pub data Out : Type 0 where
  took : ℕ → Out
  later : Out
  failed : Out

-- What the kernel answers in one round: the descriptors that select(2) leaves set if asked, and what
-- each call returns for the number of bytes that it is given.
pub record Kernel : Type 0 where
  pub stdin_ready : Bool
  pub sock_ready : Bool
  pub sock_writable : Bool
  pub stdout_writable : Bool
  pub from_stdin : ℕ → In
  pub from_sock : ℕ → In
  pub onto_stdout : ℕ → Out
  pub onto_sock : ℕ → Out

-- The loop goes on, `str_cli` returns, or the process ends by err_quit or err_sys.
pub data Result {ℓ} (A : Type ℓ) : Type ℓ where
  ok : A → Result A
  returns : Copy → Result A
  premature : Copy → Result A
  sys_error : Copy → Result A

infixl 5 ◌>>=◌
abbrev pub ◌>>=◌ {ℓ κ} : {A : Type ℓ} {B : Type κ} → Result A → (A → Result B) → Result B
ok a >>= f = f a
returns s >>= f = returns s
premature s >>= f = premature s
sys_error s >>= f = sys_error s

-- `read` from standard input; the flag is that of the socket in `wset`
unfoldable pub take_stdin : In → Bool → Copy → Result (Copy × Bool)
take_stdin failed w s = sys_error s
take_stdin later w s = ok (s, w)
take_stdin (got []) w s = ok (
  record s { stdineof = true; fins = if s.to.out == length s.to.cells then s.fins + 1 else s.fins },
  w,
)
take_stdin (got (b ∷ bs)) w s = ok (
  record s {
    to = record { cells = s.to.cells ++ (b ∷ bs); out = s.to.out };
    stdin_read = s.stdin_read ++ (b ∷ bs);
  },
  true,
)

-- `read` from the socket; the flag is that of standard output in `wset`
unfoldable pub take_sock : In → Bool → Copy → Result (Copy × Bool)
take_sock failed w s = sys_error s
take_sock later w s = ok (s, w)
take_sock (got []) w s = if s.stdineof then returns s else premature s
take_sock (got (b ∷ bs)) w s = ok (
  record s {
    fr = record { cells = s.fr.cells ++ (b ∷ bs); out = s.fr.out };
    sock_read = s.sock_read ++ (b ∷ bs);
  },
  true,
)

-- A buffer behind a `write` of `k` bytes: back to its beginning when all is written.
abbrev pub advance : ℕ → Buffer → Buffer
advance k b =
    if b.out + k == length b.cells then empty else record { cells = b.cells; out = b.out + k }

-- `write` to standard output
unfoldable pub give_stdout : Out → Copy → Result Copy
give_stdout failed s = sys_error s
give_stdout later s = ok s
give_stdout (took k) s =
    ok
      (record s { fr = advance k s.fr; stdout_written = s.stdout_written ++ take k (pending s.fr) })

-- `write` to the socket
unfoldable pub give_sock : Out → Copy → Result Copy
give_sock failed s = sys_error s
give_sock later s = ok s
give_sock (took k) s = ok (record s {
  to = advance k s.to;
  sock_written = s.sock_written ++ take k (pending s.to);
  fins = if (s.to.out + k == length s.to.cells) && s.stdineof then s.fins + 1 else s.fins;
})

-- The four requests to select(2) at the top of the loop.
abbrev pub asks_stdin : Copy → Bool
asks_stdin s = not s.stdineof && ltb (length s.to.cells) maxline

abbrev pub asks_sock : Copy → Bool
asks_sock s = ltb (length s.fr.cells) maxline

abbrev pub has_pending : Buffer → Bool
has_pending b = not (b.out == length b.cells)

abbrev pub read_if :
    Bool → (In → Bool → Copy → Result (Copy × Bool)) → In → Bool → Copy → Result (Copy × Bool)
read_if b read answer w s = if b then read answer w s else ok (s, w)

abbrev pub write_if : Bool → (Out → Copy → Result Copy) → Out → Copy → Result Copy
write_if b write answer s = if b then write answer s else ok s

abbrev room : Buffer → ℕ
room b = maxline - length b.cells

abbrev stdin_part : Kernel → Copy → Result (Copy × Bool)
stdin_part k s =
    read_if (asks_stdin s && k.stdin_ready) take_stdin (k.from_stdin (room s.to))
      (has_pending s.to && k.sock_writable) s

-- Whether standard output is in `wset` is settled by the buffer as select(2) saw it.
abbrev sock_part : Kernel → Copy → Copy → Result (Copy × Bool)
sock_part k seen s =
    read_if (asks_sock seen && k.sock_ready) take_sock (k.from_sock (room s.fr))
      (has_pending seen.fr && k.stdout_writable) s

abbrev stdout_part : Kernel → Bool → Copy → Result Copy
stdout_part k w s =
    write_if (w && ltb s.fr.out (length s.fr.cells)) give_stdout
      (k.onto_stdout (length s.fr.cells - s.fr.out)) s

abbrev sock_write_part : Kernel → Bool → Copy → Result Copy
sock_write_part k w s =
    write_if (w && ltb s.to.out (length s.to.cells)) give_sock
      (k.onto_sock (length s.to.cells - s.to.out)) s

-- one round of the loop
unfoldable pub round : Kernel → Copy → Result Copy
round k s = do
  a ← stdin_part k s
  b ← sock_part k s a.0
  c ← stdout_part k b.1 b.0
  sock_write_part k a.1 c

-- the loop, over the answers of the kernel in each round
unfoldable pub str_cli : List Kernel → Copy → Result Copy
str_cli [] s = ok s
str_cli (k ∷ ks) s = round k s >>= (λ t. str_cli ks t)
