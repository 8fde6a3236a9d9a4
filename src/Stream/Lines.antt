-- ===== src/Stream/Lines.antt =====
-- `readline` of Lab2017/lib/readline.c against the lines of the stream: what it stores, what it returns
-- and what it leaves in its buffer for the next call.
use cosc.Prelude.{
  ℕ, zero, suc, ◌+◌, ◌-◌, ◌<◌, ◌≡◌, ◌≢◌, refl, sym, ◌∙◌, List, [], ◌∷◌, ◌++◌, append-nil,
  append_assoc, length, Bytes, All, arith, ==_false,
}
use cosc.Stream.{
  Reply, got, interrupted, failed, Buffered, one, end, fill, my_read, line, readline_from, readline,
}
use cosc.Stream.ReadExact.{stream, closed, ending}

-- The bytes that are still to be handed out: those of the buffer, then those of the stream.
abbrev pub left : Buffered → Bytes
left s = s.buf ++ stream s.replies

-- `t` stands `c` behind `s`.
pub record Behind (s t : Buffered) (more : Bytes) : Type 0 where
  pub rest : left t ≡ more
  pub same_end : ending t.replies ≡ ending s.replies

fill-one :
    (rs : List Reply) (c : ℕ) (more : Bytes)
    → stream rs ≡ c ∷ more
    → (t : Buffered) × (fill rs ≡ one c t) × Behind (record { buf = []; replies = rs }) t more
unfolding fill
fill-one [] c more e = absurd (cc)
fill-one (got [] ∷ rs) c more e = absurd (cc)
fill-one (got (b ∷ bs) ∷ rs) c more e =
    (record { buf = bs; replies = rs }, cc, record { rest = cc; same_end = refl })
fill-one (interrupted ∷ rs) c more e =
    let r = fill-one rs c more e in (r.0, r.1, record { rest = r.2.rest; same_end = r.2.same_end })
fill-one (failed ∷ rs) c more e = absurd (cc)

my_read-one :
    (bs : Bytes) (rs : List Reply) (c : ℕ) (more : Bytes)
    → bs ++ stream rs ≡ c ∷ more
    → (t : Buffered) × (my_read bs rs ≡ one c t) × Behind (record { buf = bs; replies = rs }) t more
unfolding my_read
my_read-one [] rs c more e = fill-one rs c more e
my_read-one (b ∷ bs) rs c more e =
    (record { buf = bs; replies = rs }, cc, record { rest = cc; same_end = refl })

fill-end :
    (rs : List Reply)
    → stream rs ≡ []
    → ending rs ≡ closed
    → (t : Buffered) × (fill rs ≡ end t) × (t.buf ≡ [])
unfolding fill
fill-end [] e k = absurd (cc)
fill-end (got [] ∷ rs) e k = (record { buf = []; replies = rs }, refl, refl)
fill-end (got (b ∷ bs) ∷ rs) e k = absurd (cc)
fill-end (interrupted ∷ rs) e k = fill-end rs e k
fill-end (failed ∷ rs) e k = absurd (cc)

my_read-end :
    (bs : Bytes) (rs : List Reply)
    → bs ++ stream rs ≡ []
    → ending rs ≡ closed
    → (t : Buffered) × (my_read bs rs ≡ end t) × (t.buf ≡ [])
unfolding my_read
my_read-end [] rs e k = fill-end rs e k
my_read-end (b ∷ bs) rs e k = absurd (cc)

abbrev pub NoNewline : Bytes → Type 0
NoNewline text = All (λ c. c ≢ b'\n') text

step-char :
    (r n c : ℕ) (stored : Bytes) (s t : Buffered)
    → my_read s.buf s.replies ≡ one c t
    → c ≢ b'\n'
    → readline_from (suc r) n stored s ≡ readline_from r (n + 1) (stored ++ (c ∷ [])) t
unfolding readline_from
step-char r n c stored s t e h = rw (e, readline_from) (rw (==_false c b'\n' h))

step-newline :
    (r n : ℕ) (stored : Bytes) (s t : Buffered)
    → my_read s.buf s.replies ≡ one b'\n' t
    → readline_from (suc r) n stored s ≡ line (stored ++ (b'\n' ∷ [])) n t
unfolding readline_from
step-newline r n stored s t e = rw (e, readline_from)

step-end :
    (r n : ℕ) (stored : Bytes) (s t : Buffered)
    → my_read s.buf s.replies ≡ end t
    → readline_from (suc r) n stored s ≡ line stored (n - 1) t
unfolding readline_from
step-end r n stored s t e = rw (e, readline_from)

-- The loop runs over bytes that end no line.
readline_from-text :
    (text more stored : Bytes) (r room n : ℕ) (s : Buffered)
    → NoNewline text
    → r ≡ length text + room
    → left s ≡ text ++ more
    → (t : Buffered) × (readline_from r n stored s
        ≡ readline_from room (n + length text) (stored ++ text) t)
      × Behind s t more
readline_from-text [] more stored r room n s h e l =
    let rounds : r ≡ room = omega arith in
    let count : n + 0 ≡ n = omega arith in
    (s, rw (append-nil stored, rounds, count), record { rest = l; same_end = refl })
readline_from-text (c ∷ text) more stored zero room n s h e l = absurd (omega arith)
readline_from-text (c ∷ text) more stored (suc r) room n s h e l =
    let f = my_read-one s.buf s.replies c (text ++ more) l in
    let q =
      readline_from-text text more (stored ++ (c ∷ [])) r room (n + 1) f.0 h.1 (omega arith)
        f.2.rest in
    let count : n + suc (length text) ≡ n + 1 + length text = omega arith in
    (
      q.0,
      step-char r n c stored s f.0 f.1 h.0 ∙ q.1 ∙ rw (count, append_assoc stored (c ∷ []) text),
      record { rest = q.2.rest; same_end = q.2.same_end ∙ f.2.same_end },
    )

-- A line that fits is stored with its newline, its length is returned, and the next call goes on
-- behind it.
pub readline_lem :
    (maxlen : ℕ) (text more : Bytes) (s : Buffered)
    → NoNewline text
    → left s ≡ text ++ (b'\n' ∷ more)
    → length text + 1 < maxlen
    → (t : Buffered) × (readline maxlen s ≡ line (text ++ (b'\n' ∷ [])) (length text + 1) t)
      × Behind s t more
unfolding readline
readline_lem maxlen text more s h l fits =
    let room : ℕ = maxlen - length text - 2 in
    let q =
      readline_from-text text (b'\n' ∷ more) [] (maxlen - 1) (suc room) 1 s h (omega arith) l in
    let f = my_read-one q.0.buf q.0.replies b'\n' more q.2.rest in
    let count : 1 + length text ≡ length text + 1 = omega arith in
    (
      f.0,
      q.1 ∙ step-newline room (1 + length text) text q.0 f.0 f.1 ∙ rw count,
      record { rest = f.2.rest; same_end = f.2.same_end ∙ q.2.same_end },
    )

-- The last line of a closed stream, without a newline, is stored and its length is returned; at the
-- very end nothing is stored and 0 is returned.
pub readline_at_end :
    (maxlen : ℕ) (text : Bytes) (s : Buffered)
    → NoNewline text
    → left s ≡ text
    → ending s.replies ≡ closed
    → length text + 1 < maxlen
    → (t : Buffered) × (readline maxlen s ≡ line text (length text) t) × (t.buf ≡ [])
unfolding readline
readline_at_end maxlen text s h l k fits =
    let room : ℕ = maxlen - length text - 2 in
    let q =
      readline_from-text text [] [] (maxlen - 1) (suc room) 1 s h (omega arith)
        (l ∙ sym (append-nil text)) in
    let f = my_read-end q.0.buf q.0.replies q.2.rest (q.2.same_end ∙ k) in
    let count : 1 + length text - 1 ≡ length text = omega arith in
    (f.0, q.1 ∙ step-end room (1 + length text) text q.0 f.0 f.1 ∙ rw count, f.2)

-- Of a line that does not fit, one byte less than the buffer holds is stored, and the rest is left for
-- the next call; what is returned is one more than the number of bytes stored.
pub readline_too_long :
    (maxlen : ℕ) (text more : Bytes) (s : Buffered)
    → NoNewline text
    → left s ≡ text ++ more
    → length text + 1 ≡ maxlen
    → (t : Buffered) × (readline maxlen s ≡ line text (length text + 1) t) × Behind s t more
unfolding readline readline_from
readline_too_long maxlen text more s h l e =
    let q = readline_from-text text more [] (maxlen - 1) 0 1 s h (omega arith) l in
    let count : 1 + length text ≡ length text + 1 = omega arith in (q.0, q.1 ∙ rw count, q.2)
