-- ===== src/Stream/ReadExact.antt =====
-- `readn` of Lab2017/lib/readn.c against what it is for: the next `n` bytes of the stream, however
-- the kernel cuts them.
use cosc.Prelude.{
  ℕ, zero, suc, ◌-◌, ◌^◌, ◌≤◌, ◌<◌, ◌≡◌, refl, sym, ap, ◌∙◌, List, [], ◌∷◌, ◌++◌, append-nil,
  append_assoc, leb, if◌then◌else◌, length, length-append, take, Bytes, arith, le→leb, leb-false,
  ==_false, ◌+◌, lt→ltb,
}
use cosc.Prelude.Int.{ℤ, pos, negsuc}
use native.Mathlib.Decide.{dec_le}
use cosc.Stream.{
  Reply, got, interrupted, failed, Outcome, done, error, blocks, sub_size, ssize, readn_from, readn,
}

-- The bytes that a list of replies carries up to the end of the stream or an error.
abbrev pub stream : List Reply → Bytes
stream [] = []
stream (got [] ∷ rs) = []
stream (got (b ∷ bs) ∷ rs) = (b ∷ bs) ++ stream rs
stream (interrupted ∷ rs) = stream rs
stream (failed ∷ rs) = []

-- How they end.
pub data Ending : Type 0 where
  closed reset open_end : Ending

abbrev pub ending : List Reply → Ending
ending [] = open_end
ending (got [] ∷ rs) = closed
ending (got (b ∷ bs) ∷ rs) = ending rs
ending (interrupted ∷ rs) = ending rs
ending (failed ∷ rs) = reset

-- No read(2) returns more than the bytes that are asked for, `n` in all.
abbrev pub Obeys : ℕ → List Reply → Type 0
Obeys zero rs = Unit
Obeys (suc n) [] = Unit
Obeys (suc n) (got bs ∷ rs) = (length bs ≤ suc n) × Obeys (suc n - length bs) rs
Obeys (suc n) (interrupted ∷ rs) = Obeys (suc n) rs
Obeys (suc n) (failed ∷ rs) = Unit

-- What a caller of `readn` sees: the number that it returns and the bytes that it stored, -1, or
-- nothing yet.
pub data Answer : Type 0 where
  full : ℤ → Bytes → Answer
  minus_one : Answer
  waiting : Answer

abbrev pub answer : Outcome → Answer
answer (done n bs rs) = full n bs
answer error = minus_one
answer blocks = waiting

-- The reference: `n` bytes of a stream, or all that there are before its end, and how many they are.
pub first_of_stream : ℕ → Bytes → Ending → Answer
first_of_stream n s e =
    if leb n (length s)
    then full (pos n) (take n s)
    else (elim e [ closed ↦ full (pos (length s)) s | reset ↦ minus_one | open_end ↦ waiting ])

abbrev plus : ℕ → ℤ → ℤ
plus m (pos n) = pos (m + n)
plus m (negsuc n) = negsuc n

-- The answer for a stream that goes on where `front` ends.
abbrev behind : Bytes → Answer → Answer
behind front (full n bs) = full (plus (length front) n) (front ++ bs)
behind front minus_one = minus_one
behind front waiting = waiting

plus-plus : (a b : Bytes) (n : ℤ) → plus (length a) (plus (length b) n) ≡ plus (length (a ++ b)) n
plus-plus a b (pos n) = ap pos (omega (arith, length-append a b))
plus-plus a b (negsuc n) = refl

behind-behind : (a b : Bytes) (r : Answer) → behind a (behind b r) ≡ behind (a ++ b) r
behind-behind a b (full n c) = rw (plus-plus a b n, append_assoc a b c)
behind-behind a b minus_one = refl
behind-behind a b waiting = refl

take-append : (n : ℕ) (a s : Bytes) → length a ≤ n → take n (a ++ s) ≡ a ++ take (n - length a) s
take-append n [] s h = ap (λ k. take k s) (omega arith)
take-append zero (x ∷ a) s h = absurd (omega arith)
take-append (suc n) (x ∷ a) s h =
    ap (◌∷◌ x) (take-append n a s (omega arith) ∙ ap (λ k. a ++ take k s) (omega arith))

full_eq : {m n : ℤ} {a b : Bytes} → m ≡ n → a ≡ b → full m a ≡ full n b
full_eq h k = cc

first_of_stream-append :
    (n : ℕ) (a s : Bytes) (e : Ending)
    → length a ≤ n
    → first_of_stream n (a ++ s) e ≡ behind a (first_of_stream (n - length a) s e)
unfolding first_of_stream
first_of_stream-append n a s e h = elim (dec_le n (length (a ++ s))) [
  | yes p ↦
      rw
        (
          le→leb n (length (a ++ s)) p,
          le→leb (n - length a) (length s) (omega (arith, length-append a s)),
        )
        (full_eq (ap pos (omega arith)) (take-append n a s h))
  | no p ↦
      rw
        (
          leb-false n (length (a ++ s)) (omega arith),
          leb-false (n - length a) (length s) (omega (arith, length-append a s)),
        )
        (ends a s e)
]
  where
    ends :
        (a s : Bytes) (e : Ending)
        → ◌≡◌ {A = Answer}
            (elim e [
              | closed ↦ full (pos (length (a ++ s))) (a ++ s)
              | reset ↦ minus_one
              | open_end ↦ waiting
            ])
            (behind a (elim e [
              | closed ↦ full (pos (length s)) s
              | reset ↦ minus_one
              | open_end ↦ waiting
            ]))
    ends a s closed = ap (λ k. full (pos k) (a ++ s)) (length-append a s)
    ends a s reset = refl
    ends a s open_end = refl

-- the number returned behind `stored`, with `left` bytes missing
ssize-sub_size :
    (n left : ℕ) (stored : Bytes)
    → length stored + left ≡ n
    → n < 2 ^ 63
    → ssize (sub_size n left) ≡ pos (length stored + 0)
ssize-sub_size n left stored e h =
    let k : sub_size n left ≡ length stored + 0 = omega arith in
    rw (k, lt→ltb (length stored + 0) (2 ^ 63) (omega arith))

stops :
    (n left : ℕ) (stored : Bytes)
    → length stored + left ≡ n
    → n < 2 ^ 63
    → full (ssize (sub_size n left)) stored ≡ behind stored (full (pos 0) [])
stops n left stored e h = full_eq (ssize-sub_size n left stored e h) (sym (append-nil stored))

first_of_stream-zero : (s : Bytes) (e : Ending) → first_of_stream 0 s e ≡ full (pos 0) []
unfolding first_of_stream
first_of_stream-zero s e = rw (le→leb 0 (length s) (omega arith))

readn_from-zero :
    (n : ℕ) (stored : Bytes) (rs : List Reply)
    → answer (readn_from n 0 stored rs) ≡ full (ssize (sub_size n 0)) stored
unfolding readn_from
readn_from-zero n stored [] = refl
readn_from-zero n stored (got [] ∷ rs) = refl
readn_from-zero n stored (got (b ∷ bs) ∷ rs) = refl
readn_from-zero n stored (interrupted ∷ rs) = refl
readn_from-zero n stored (failed ∷ rs) = refl

sub_size_le : (a b : ℕ) → b ≤ a → a < 2 ^ 64 → sub_size a b ≡ a - b
sub_size_le a b h k = omega arith

readn_from-answer :
    (n left : ℕ) (stored : Bytes) (rs : List Reply)
    → length stored + left ≡ n
    → n < 2 ^ 63
    → Obeys left rs
    → answer (readn_from n left stored rs)
      ≡ behind stored (first_of_stream left (stream rs) (ending rs))
unfolding readn_from first_of_stream
readn_from-answer n zero stored rs e h o =
    readn_from-zero n stored rs
    ∙ rw (first_of_stream-zero (stream rs) (ending rs)) (stops n 0 stored e h)
readn_from-answer n (suc left) stored [] e h o = ground arith
readn_from-answer n (suc left) stored (got [] ∷ rs) e h o =
    rw (==_false (suc left) 0 (omega arith), leb-false (suc left) 0 (omega arith))
      (stops n (suc left) stored e h)
readn_from-answer n (suc left) stored (got (b ∷ bs) ∷ rs) e h o =
    let k = length (b ∷ bs) in
    let rest =
      readn_from-answer n (suc left - k) (stored ++ (b ∷ bs)) rs
        (omega (arith, o.0, length-append stored (b ∷ bs))) h o.1 in
    rw (==_false (suc left) 0 (omega arith), readn_from, sub_size_le (suc left) k o.0 (omega arith))
      (rest
        ∙ sym (behind-behind stored (b ∷ bs) _)
        ∙ ap (behind stored)
            (sym (first_of_stream-append (suc left) (b ∷ bs) (stream rs) (ending rs) o.0)))
readn_from-answer n (suc left) stored (interrupted ∷ rs) e h o =
    rw (==_false (suc left) 0 (omega arith), readn_from)
      (readn_from-answer n (suc left) stored rs e h o)
readn_from-answer n (suc left) stored (failed ∷ rs) e h o = ground arith

plus-zero : (n : ℤ) → plus 0 n ≡ n
plus-zero (pos n) = ap pos (omega arith)
plus-zero (negsuc n) = refl

behind-nil : (r : Answer) → behind [] r ≡ r
behind-nil (full n bs) = ap (λ k. full k bs) (plus-zero n)
behind-nil minus_one = refl
behind-nil waiting = refl

-- For fewer than 2 ^ 63 bytes: `readn` stores the next `n` bytes of the stream and returns `n` if there
-- are as many; it stores those before its end and returns how many they are if it is closed earlier;
-- and it returns -1 if an error comes first, whatever the pieces in which read(2) hands them over and
-- however often it is interrupted, if no read(2) hands over more than it is asked for.
pub readn_lem :
    (n : ℕ) (rs : List Reply)
    → n < 2 ^ 63
    → Obeys n rs
    → answer (readn n rs) ≡ first_of_stream n (stream rs) (ending rs)
unfolding readn
readn_lem n rs h o = readn_from-answer n n [] rs (omega arith) h o ∙ behind-nil _
