-- ===== src/Stream/WriteAll.antt =====
-- `writen` of Lab2017/lib/writen.c against what it is for: all the bytes, once and in order.
use cosc.Prelude.{
  ℕ, zero, suc, ◌+◌, ◌-◌, ◌^◌, ◌≤◌, ◌<◌, ◌≡◌, refl, sym, ap, ◌∙◌, Bool, true, false, List, [], ◌∷◌,
  ◌++◌, append-nil, append_assoc, leb, if◌then◌else◌, length, take, drop, Bytes, arith, le→leb,
  leb-false, ==_false, length-drop, take-append-drop,
}
use native.Mathlib.Decide.{dec_le}
use cosc.Stream.{
  Taken, took, cut, broken, Written, all_out, fault, waits, sub_size, writen_from, writen,
}

-- How many bytes a list of replies takes before one is an error or takes nothing.
abbrev pub taken : List Taken → ℕ
taken [] = 0
taken (took zero ∷ ts) = 0
taken (took (suc k) ∷ ts) = suc k + taken ts
taken (cut ∷ ts) = taken ts
taken (broken ∷ ts) = 0

-- There is such a reply.
abbrev pub stops : List Taken → Bool
stops [] = false
stops (took zero ∷ ts) = true
stops (took (suc k) ∷ ts) = stops ts
stops (cut ∷ ts) = stops ts
stops (broken ∷ ts) = true

-- No write(2) takes more bytes than it is given, `n` in all.
abbrev pub TakesAtMost : ℕ → List Taken → Type 0
TakesAtMost zero ts = Unit
TakesAtMost (suc n) [] = Unit
TakesAtMost (suc n) (took k ∷ ts) = (k ≤ suc n) × TakesAtMost (suc n - k) ts
TakesAtMost (suc n) (cut ∷ ts) = TakesAtMost (suc n) ts
TakesAtMost (suc n) (broken ∷ ts) = Unit

-- The reference: what is out when `room` bytes can be taken.
pub send_all : Bytes → ℕ → Bool → Written
send_all bytes room stop =
    if leb (length bytes) room
    then all_out bytes
    else if stop
    then fault (take room bytes)
    else waits (take room bytes)

abbrev after : Bytes → Written → Written
after out (all_out bs) = all_out (out ++ bs)
after out (fault bs) = fault (out ++ bs)
after out (waits bs) = waits (out ++ bs)

after-after : (a b : Bytes) (w : Written) → after (a ++ b) w ≡ after a (after b w)
after-after a b (all_out c) = ap all_out (append_assoc a b c)
after-after a b (fault c) = ap fault (append_assoc a b c)
after-after a b (waits c) = ap waits (append_assoc a b c)

after-nil : (w : Written) → after [] w ≡ w
after-nil (all_out c) = refl
after-nil (fault c) = refl
after-nil (waits c) = refl

take-nil : (r : ℕ) → take {A = ℕ} r [] ≡ []
take-nil zero = refl
take-nil (suc r) = refl

take-add : (k r m : ℕ) (bs : Bytes) → m ≡ k + r → take m bs ≡ take k bs ++ take r (drop k bs)
take-add zero r m bs e = ap (λ n. take n bs) (omega arith)
take-add (suc k) r zero bs e = absurd (omega arith)
take-add (suc k) r (suc m) [] e = sym (take-nil r)
take-add (suc k) r (suc m) (b ∷ bs) e = ap (◌∷◌ b) (take-add k r m bs (omega arith))

after-stop :
    (out bs : Bytes) (stop : Bool)
    → ◌≡◌ {A = Written}
        (if stop then fault (out ++ bs) else waits (out ++ bs))
        (after out (if stop then fault bs else waits bs))
after-stop out bs true = refl
after-stop out bs false = refl

send_all-add :
    (bytes : Bytes) (k room : ℕ) (stop : Bool)
    → k ≤ length bytes
    → send_all bytes (k + room) stop ≡ after (take k bytes) (send_all (drop k bytes) room stop)
unfolding send_all
send_all-add bytes k room stop h = elim (dec_le (length bytes) (k + room)) [
  | yes p ↦
      rw
        (
          le→leb (length bytes) (k + room) p,
          le→leb (length (drop k bytes)) room (omega (arith, length-drop k bytes)),
        )
        (ap all_out (sym (take-append-drop k bytes)))
  | no p ↦
      rw
        (
          leb-false (length bytes) (k + room) (omega arith),
          leb-false (length (drop k bytes)) room (omega (arith, length-drop k bytes)),
          take-add k room (k + room) bytes refl,
        )
        (after-stop (take k bytes) (take room (drop k bytes)) stop)
]

writen_from-zero : (out : Bytes) (ts : List Taken) → writen_from 0 [] out ts ≡ all_out out
unfolding writen_from
writen_from-zero out [] = refl
writen_from-zero out (took zero ∷ ts) = refl
writen_from-zero out (took (suc k) ∷ ts) = refl
writen_from-zero out (cut ∷ ts) = refl
writen_from-zero out (broken ∷ ts) = refl

sub_size_le : (a b : ℕ) → b ≤ a → a < 2 ^ 64 → sub_size a b ≡ a - b
sub_size_le a b h k = omega arith

writen_from_lem :
    (n : ℕ) (rest out : Bytes) (ts : List Taken)
    → n ≡ length rest
    → n < 2 ^ 64
    → TakesAtMost n ts
    → writen_from n rest out ts ≡ after out (send_all rest (taken ts) (stops ts))
unfolding writen_from send_all
writen_from_lem zero [] out ts e h o =
    writen_from-zero out ts
    ∙ rw (le→leb 0 (taken ts) (omega arith)) (ap all_out (sym (append-nil out)))
writen_from_lem zero (b ∷ rest) out ts e h o = absurd (omega arith)
writen_from_lem (suc n) rest out [] e h o = ground (arith, append-nil out)
writen_from_lem (suc n) rest out (took zero ∷ ts) e h o = ground (arith, append-nil out)
writen_from_lem (suc n) rest out (took (suc k) ∷ ts) e h o =
    let more =
      writen_from_lem (suc n - suc k) (drop (suc k) rest) (out ++ take (suc k) rest) ts
        (omega (arith, length-drop (suc k) rest)) (omega arith) o.1 in
    rw (==_false (suc n) 0 (omega arith), writen_from, sub_size_le (suc n) (suc k) o.0 h)
      (more
        ∙ after-after out (take (suc k) rest) _
        ∙ ap (after out)
            (sym (send_all-add rest (suc k) (taken ts) (stops ts) (omega (arith, o.0)))))
writen_from_lem (suc n) rest out (cut ∷ ts) e h o =
    rw (==_false (suc n) 0 (omega arith), writen_from) (writen_from_lem (suc n) rest out ts e h o)
writen_from_lem (suc n) rest out (broken ∷ ts) e h o = ground (arith, append-nil out)

-- Fewer than 2 ^ 64 bytes: `writen` hands over all of them, once and in order, and returns their
-- number if the kernel takes as many; else it has handed over those that fit, and returns -1 at the
-- first error or empty write, whatever the pieces and the interruptions.
pub writen_lem :
    (bytes : Bytes) (ts : List Taken)
    → length bytes < 2 ^ 64
    → TakesAtMost (length bytes) ts
    → writen bytes ts ≡ send_all bytes (taken ts) (stops ts)
unfolding writen
writen_lem bytes ts h o = writen_from_lem (length bytes) bytes [] ts refl h o ∙ after-nil _
