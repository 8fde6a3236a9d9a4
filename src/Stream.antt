-- ===== src/Stream.antt =====
-- Lab2017/lib/readn.c, writen.c and readline.c: reading and writing that a stream cuts in pieces. What
-- the kernel answers to the calls of read(2) and write(2) is a list, one reply to a call.
pub mod ReadExact
pub mod WriteAll
pub mod Lines
mod Tests
use cosc.Prelude.{
  ℕ, zero, suc, ◌+◌, ◌-◌, ◌%◌, ◌^◌, ◌≤◌, Bool, true, false, List, [], ◌∷◌, ◌++◌, ltb, ◌==◌,
  if◌then◌else◌, length, take, drop, Bytes,
}
use cosc.Prelude.Int.{ℤ, pos, negsuc}

-- What read(2) returns: bytes (none at the end of the stream), -1 with EINTR, or -1 with another error.
pub data Reply : Type 0 where
  got : Bytes → Reply
  interrupted : Reply
  failed : Reply

-- `a - b` at the type size_t
abbrev pub sub_size : ℕ → ℕ → ℕ
sub_size a b = (a + 2 ^ 64 - b) % 2 ^ 64

-- a size_t returned as an ssize_t
abbrev pub ssize : ℕ → ℤ
ssize w = if ltb w (2 ^ 63) then pos w else negsuc (2 ^ 64 - 1 - w)

-- What `readn` comes to: it returns a number, with what it stored and the replies that it leaves, it
-- returns -1, or it waits for a reply that does not come.
pub data Outcome : Type 0 where
  done : ℤ → Bytes → List Reply → Outcome
  error : Outcome
  blocks : Outcome

-- the loop of `readn` for `n` bytes: `nleft` of them are missing behind those stored
unfoldable pub readn_from : ℕ → ℕ → Bytes → List Reply → Outcome
readn_from n nleft stored [] =
    if nleft == 0 then done (ssize (sub_size n nleft)) stored [] else blocks
readn_from n nleft stored (got [] ∷ rs) =
    if nleft == 0
    then done (ssize (sub_size n nleft)) stored (got [] ∷ rs)
    else done (ssize (sub_size n nleft)) stored rs
readn_from n nleft stored (got (b ∷ bs) ∷ rs) =
    let more = readn_from n (sub_size nleft (length (b ∷ bs))) (stored ++ (b ∷ bs)) rs in
    if nleft == 0 then done (ssize (sub_size n nleft)) stored (got (b ∷ bs) ∷ rs) else more
readn_from n nleft stored (interrupted ∷ rs) =
    let more = readn_from n nleft stored rs in
    if nleft == 0 then done (ssize (sub_size n nleft)) stored (interrupted ∷ rs) else more
readn_from n nleft stored (failed ∷ rs) =
    if nleft == 0 then done (ssize (sub_size n nleft)) stored (failed ∷ rs) else error

unfoldable pub readn : ℕ → List Reply → Outcome
unfolding readn_from
readn n rs = readn_from n n [] rs

-- What write(2) returns: a count, -1 with EINTR, or -1 with another error.
pub data Taken : Type 0 where
  took : ℕ → Taken
  cut : Taken
  broken : Taken

-- What `writen` comes to, with the bytes that the kernel took: it returns its argument, it returns
-- -1, or it waits.
pub data Written : Type 0 where
  all_out : Bytes → Written
  fault : Bytes → Written
  waits : Bytes → Written

-- the loop of `writen`: `nleft` bytes from `rest` on are to be written
unfoldable pub writen_from : ℕ → Bytes → Bytes → List Taken → Written
writen_from nleft rest out [] = if nleft == 0 then all_out out else waits out
writen_from nleft rest out (took zero ∷ ts) = if nleft == 0 then all_out out else fault out
writen_from nleft rest out (took (suc k) ∷ ts) =
    let more =
      writen_from (sub_size nleft (suc k)) (drop (suc k) rest) (out ++ take (suc k) rest) ts in
    if nleft == 0 then all_out out else more
writen_from nleft rest out (cut ∷ ts) =
    let more = writen_from nleft rest out ts in if nleft == 0 then all_out out else more
writen_from nleft rest out (broken ∷ ts) = if nleft == 0 then all_out out else fault out

unfoldable pub writen : Bytes → List Taken → Written
unfolding writen_from
writen bytes ts = writen_from (length bytes) bytes [] ts

-- The statics of readline.c: what is left in `read_buf`, with the replies to come.
pub record Buffered : Type 0 where
  pub buf : Bytes
  pub replies : List Reply

-- What `my_read` comes to.
pub data Char1 : Type 0 where
  one : ℕ → Buffered → Char1
  end : Buffered → Char1
  bad : Char1
  stuck : Char1

-- `my_read` with an empty buffer
unfoldable pub fill : List Reply → Char1
fill [] = stuck
fill (got [] ∷ rs) = end (record { buf = []; replies = rs })
fill (got (b ∷ bs) ∷ rs) = one b (record { buf = bs; replies = rs })
fill (interrupted ∷ rs) = fill rs
fill (failed ∷ rs) = bad

unfoldable pub my_read : Bytes → List Reply → Char1
unfolding fill
my_read (b ∷ bs) rs = one b (record { buf = bs; replies = rs })
my_read [] rs = fill rs

-- What `readline` comes to: the string that it stored, its return value and the statics after it.
pub data Line : Type 0 where
  line : Bytes → ℕ → Buffered → Line
  line_error : Line
  line_waits : Line

-- the loop of `readline`: `room` more rounds, from `n` on, behind the bytes stored
unfoldable pub readline_from : ℕ → ℕ → Bytes → Buffered → Line
readline_from zero n stored s = line stored n s
readline_from (suc room) n stored s = elim (my_read s.buf s.replies) [
  | one c t ↦
      let more = readline_from room (n + 1) (stored ++ (c ∷ [])) t in
      if c == b'\n' then line (stored ++ (c ∷ [])) n t else more
  | end t ↦ line stored (n - 1) t
  | bad ↦ line_error
  | stuck ↦ line_waits
]

unfoldable pub readline : ℕ → Buffered → Line
unfolding readline_from
readline maxlen s = readline_from (maxlen - 1) 1 [] s
