-- ===== src/Transfer/Amount.antt =====
-- How much `send_data_to` of Lab4/tcp_sender.c sends.
use cosc.Prelude.{
  ℕ, zero, suc, ◌+◌, ◌*◌, ◌^◌, ◌≤◌, ◌<◌, ◌≡◌, refl, sym, ap, ◌∙◌, List, [], ◌∷◌, ◌++◌, append-nil,
  append_assoc, length, length-append, length-take, take, take_all, replicate, Bytes, All, arith,
  ltb-false, lt→ltb,
}
use mathlib.Core.Path.{subst}
use native.Mathlib.Decide.{dec_lt}
use cosc.Stream.{Taken, took, cut, broken, sub_size}
use cosc.Transfer.{writeamt, letters, success, waits, send_from, send_data_to}

-- No write(2) takes more than the buffer that it is given.
abbrev pub InBuffer : Taken → Type 0
InBuffer (took k) = k ≤ writeamt
InBuffer cut = Unit
InBuffer broken = Unit

length-letters : (n i : ℕ) → length (letters n i) ≡ n
unfolding letters
length-letters zero i = refl
length-letters (suc n) i = ap suc (length-letters n (i + 1))

-- Fewer bytes than asked for, and short of it by no more than one buffer.
abbrev pub ShortOf : ℕ → Bytes → Type 0
ShortOf amount out = (length out < amount) × (amount ≤ length out + writeamt)

success_inj : {a b : Bytes} → success a ≡ success b → a ≡ b
success_inj h = cc

send_from-success :
    (amount done : ℕ) (out : Bytes) (ts : List Taken) {sent : Bytes}
    → All InBuffer ts
    → writeamt < amount
    → amount + length out ≡ done
    → done < 2 ^ 64
    → send_from amount out ts ≡ success sent
    → ShortOf done sent
unfolding send_from
send_from-success amount done out [] o w e h s = absurd (cc)
send_from-success amount done out (took zero ∷ ts) o w e h s = absurd (cc)
send_from-success amount done out (took (suc k) ∷ ts) {sent = sent} o w e h s =
    let left = sub_size amount (suc k) in
    let exact : left + suc k ≡ amount = omega (arith, o.0) in
    let out' = out ++ take (suc k) (letters writeamt 0) in
    let grown : length out' ≡ length out + suc k = omega (
      arith,
      o.0,
      length-append out (take (suc k) (letters writeamt 0)),
      length-take (suc k) (letters writeamt 0),
      length-letters writeamt 0,
    ) in
    elim (dec_lt writeamt left) [
      | yes p ↦
          send_from-success left done out' ts o.1 p (omega arith) h
            (rw (lt→ltb writeamt left p, send_from) at s)
      | no p ↦
          let same : out' ≡ sent =
            success_inj (rw (ltb-false writeamt left (omega arith), send_from) at s) in
          subst (ShortOf done) same (omega arith, omega (arith, o.0))
    ]
send_from-success amount done out (cut ∷ ts) o w e h s = absurd (cc)
send_from-success amount done out (broken ∷ ts) o w e h s = absurd (cc)

-- Asked for more than one buffer, `send_data_to` never sends all of it: whenever it returns 0 it has
-- sent fewer bytes, and at most one buffer fewer, whatever part of the buffer each write(2) takes.
pub send_data_to_short :
    (amount : ℕ) (ts : List Taken) {sent : Bytes}
    → All InBuffer ts
    → writeamt < amount
    → amount < 2 ^ 64
    → send_data_to amount ts ≡ success sent
    → (length sent < amount) × (amount ≤ length sent + writeamt)
unfolding send_data_to
send_data_to_short amount ts o w h s = send_from-success amount amount [] ts o w (omega arith) h s

send_from-nil : (a : ℕ) (out : Bytes) → send_from a out [] ≡ waits out
unfolding send_from
send_from-nil a out = refl

-- `n` copies of the buffer.
pub copies : ℕ → Bytes
copies zero = []
copies (suc n) = letters writeamt 0 ++ copies n

take-letters : take writeamt (letters writeamt 0) ≡ letters writeamt 0
take-letters = take_all writeamt (letters writeamt 0) (omega (arith, length-letters writeamt 0))

step_on :
    (a : ℕ) (out : Bytes) (ts : List Taken)
    → writeamt < sub_size a writeamt
    → send_from a out (took writeamt ∷ ts)
      ≡ send_from (sub_size a writeamt) (out ++ letters writeamt 0) ts
unfolding send_from
step_on a out ts h = rw (lt→ltb writeamt (sub_size a writeamt) h, take-letters)

step_last :
    (a : ℕ) (out : Bytes) (ts : List Taken)
    → sub_size a writeamt ≤ writeamt
    → send_from a out (took writeamt ∷ ts) ≡ success (out ++ letters writeamt 0)
unfolding send_from
step_last a out ts h = rw (ltb-false writeamt (sub_size a writeamt) h, take-letters)

send_from_whole :
    (q r a : ℕ) (out : Bytes)
    → a ≡ suc q * writeamt + r
    → 0 < r
    → r ≤ writeamt
    → a < 2 ^ 64
    → send_from a out (replicate (suc q) (took writeamt)) ≡ success (out ++ copies (suc q))
unfolding copies
send_from_whole zero r a out e l u h =
    step_last a out [] (omega arith) ∙ ap (λ bs. success (out ++ bs)) (sym (append-nil _))
send_from_whole (suc q) r a out e l u h =
    step_on a out (replicate (suc q) (took writeamt)) (omega arith)
    ∙ send_from_whole q r (sub_size a writeamt) (out ++ letters writeamt 0) (omega arith) l u
        (omega arith)
    ∙ ap success (append_assoc out (letters writeamt 0) (copies (suc q)))

-- Asked for `suc q` buffers and `r` more bytes, at least one and at most a buffer, with every write(2)
-- taking a whole buffer, it sends the `suc q` buffers, returns 0, and never sends the last `r` bytes.
pub send_data_to_whole :
    (q r : ℕ)
    → 0 < r
    → r ≤ writeamt
    → suc q * writeamt + r < 2 ^ 64
    → send_data_to (suc q * writeamt + r) (replicate (suc q) (took writeamt))
      ≡ success (copies (suc q))
unfolding send_data_to
send_data_to_whole q r l u h = send_from_whole q r (suc q * writeamt + r) [] refl l u h

-- A write(2) that takes something, and no more than the buffer.
abbrev pub Takes : Taken → Type 0
Takes (took k) = (0 < k) × (k ≤ writeamt)
Takes cut = ⊥
Takes broken = ⊥

-- What such writes send: of each the beginning of the buffer.
abbrev pub pieces : List Taken → Bytes
pieces [] = []
pieces (took k ∷ ts) = take k (letters writeamt 0) ++ pieces ts
pieces (cut ∷ ts) = pieces ts
pieces (broken ∷ ts) = pieces ts

send_from-Takes :
    (a : ℕ) (out : Bytes) (ts : List Taken)
    → All Takes ts
    → suc (length ts) * writeamt < a
    → a < 2 ^ 64
    → send_from a out ts ≡ waits (out ++ pieces ts)
unfolding send_from
send_from-Takes a out [] w l h = ap waits (sym (append-nil out))
send_from-Takes a out (took zero ∷ ts) w l h = absurd (omega (arith, w.0.0))
send_from-Takes a out (took (suc k) ∷ ts) w l h =
    let left = sub_size a (suc k) in
    let exact : left + suc k ≡ a = omega (arith, w.0.1) in
    let more : writeamt < left = omega (arith, w.0.1) in
    rw (lt→ltb writeamt left more, send_from)
      (send_from-Takes left (out ++ take (suc k) (letters writeamt 0)) ts w.1 (omega (arith, w.0.1))
          (omega arith)
        ∙ ap waits (append_assoc out (take (suc k) (letters writeamt 0)) (pieces ts)))
send_from-Takes a out (cut ∷ ts) w l h = absurd w.0
send_from-Takes a out (broken ∷ ts) w l h = absurd w.0

-- If the first write(2) takes more than the amount asked for, as it may when this is less than one
-- buffer, the count of what is left wraps: as long as no write(2) fails, takes nothing or takes more than
-- the buffer, the function goes on sending from the buffer, for up to 2 ^ 48 writes, and does not return.
pub send_data_to_runaway :
    (amount k : ℕ) (ts : List Taken)
    → amount < suc k
    → suc k ≤ writeamt
    → All Takes ts
    → length ts < 2 ^ 48
    → send_data_to amount (took (suc k) ∷ ts) ≡ waits (pieces (took (suc k) ∷ ts))
unfolding send_data_to send_from
send_data_to_runaway amount k ts l u w h =
    let left = sub_size amount (suc k) in
    let more : writeamt < left = omega arith in
    rw (lt→ltb writeamt left more, send_from)
      (send_from-Takes left (take (suc k) (letters writeamt 0)) ts w (omega arith) (omega arith))
