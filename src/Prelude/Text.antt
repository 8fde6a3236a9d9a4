-- ===== src/Prelude/Text.antt =====
-- C strings as lists of bytes, the terminating NUL left off, and the formats of printf.
use Prim.Native.Nat.{ℕ, zero, suc, ◌+◌, ◌/◌, ◌%◌, ◌^◌, ◌≤◌, ◌<◌}
use Prim.Native.Char.{code}
use Prim.Native.String.{String}
use mathlib.Core.Path.{◌≡◌, refl, ap}
use mathlib.Core.Bool.{Bool, true, false, ◌&&◌}
use mathlib.Core.List.{List, [], ◌∷◌, ◌++◌}
use native.Mathlib.Omega.{arith}
use native.Mathlib.Nat.{pow-suc}
use cosc.Prelude.Tests.{◌==◌, ltb, if◌then◌else◌}
use cosc.Prelude.Lists.{length}

abbrev pub Bytes : Type 0
Bytes = List ℕ

-- The bytes of an ASCII literal.
unfoldable pub codes : String → Bytes
codes String.[] = []
codes (String.◌∷◌ c s) = code c ∷ codes s

-- The string that stands in an array of bytes: what comes before the first NUL.
abbrev pub until_nul : Bytes → Bytes
until_nul [] = []
until_nul (c ∷ cs) = if c == 0 then [] else c ∷ until_nul cs

-- All bytes but the last.
abbrev pub drop_last : Bytes → Bytes
drop_last [] = []
drop_last (c ∷ []) = []
drop_last (c ∷ d ∷ cs) = c ∷ drop_last (d ∷ cs)

-- `strncmp(prefix, s, strlen(prefix)) == 0`
abbrev pub starts_with : Bytes → Bytes → Bool
starts_with [] s = true
starts_with (p ∷ ps) [] = false
starts_with (p ∷ ps) (c ∷ cs) = p == c && starts_with ps cs

-- `%d` of a number, with `n` for fuel; a number has at most as many digits as its value, and one.
unfoldable pub decimal_from : ℕ → ℕ → Bytes → Bytes
decimal_from zero n rest = rest
decimal_from (suc f) n rest =
    let out = (48 + n % 10) ∷ rest in
    let more = decimal_from f (n / 10) out in if ltb n 10 then out else more

unfoldable pub decimal : ℕ → Bytes
unfolding decimal_from
decimal n = decimal_from (suc n) n []

decimal_forty : decimal 40 ≡ codes "40"
unfolding decimal codes
decimal_forty = refl

tenth : (n k : ℕ) → n < 10 ^ suc k → n / 10 < 10 ^ k
tenth n k h = let e = pow-suc 10 k in omega (arith, e)

decimal_from-length :
    (f n k : ℕ) (rest : Bytes)
    → n < 10 ^ suc k
    → length (decimal_from f n rest) ≤ suc k + length rest
unfolding decimal_from
decimal_from-length zero n k rest h = omega arith
decimal_from-length (suc f) n zero rest h = ground (arith, pow-suc 10 0)
decimal_from-length (suc f) n (suc k) rest h =
    ground (arith, decimal_from-length f (n / 10) k ((48 + n % 10) ∷ rest) (tenth n (suc k) h))

-- A number below a power of ten prints in that many digits.
pub length-decimal : (n k : ℕ) → n < 10 ^ suc k → length (decimal n) ≤ suc k
unfolding decimal
length-decimal n k h = omega (arith, decimal_from-length (suc n) n k [] h)

pub length-until_nul : (s : Bytes) → length (until_nul s) ≤ length s
length-until_nul [] = omega arith
length-until_nul (c ∷ cs) = ground (arith, length-until_nul cs)

pub length-drop_last : (c : ℕ) (cs : Bytes) → length (drop_last (c ∷ cs)) ≡ length cs
length-drop_last c [] = refl
length-drop_last c (d ∷ cs) = omega (arith, length-drop_last d cs)

pub drop_last-append : (s : Bytes) (c : ℕ) → drop_last (s ++ (c ∷ [])) ≡ s
drop_last-append [] c = refl
drop_last-append (x ∷ []) c = refl
drop_last-append (x ∷ y ∷ s) c = ap (◌∷◌ x) (drop_last-append (y ∷ s) c)
