-- ===== src/Common/Decimals.antt =====
-- The standard library's `to_string`, `stoi` and `stoll` on byte strings. `none` is an exception.
use Prim.Native.Nat.{ℕ, zero, suc, ◌+◌, ◌-◌, ◌*◌, ◌/◌, ◌%◌, ◌^◌, ◌≤◌, ◌<◌}
use mathlib.Core.Path.{◌≡◌, refl}
use mathlib.Core.Bool.{Bool, true, false, not, ◌&&◌, ◌||◌}
use mathlib.Core.Option.{Option, none, some}
use mathlib.Core.List.{[], ◌∷◌, ◌++◌}
use native.Mathlib.Omega.{arith}
use cloud_backup_system.Common.BoolTests.{ltb, leb, ◌==◌, if◌then◌else◌}
use cloud_backup_system.Common.Lists.{length}
use cloud_backup_system.Common.ByteStrings.{Bytes}
use cloud_backup_system.Common.Integers.{ℤ, pos, negsuc}

-- The digits of `n` before `out`, given more rounds than `n` has digits.
unfoldable pub emit : ℕ → ℕ → Bytes → Bytes
emit zero n out = out
emit (suc fuel) n out =
    let more = emit fuel (n / 10) ((48 + n % 10) ∷ out) in if ltb n 10 then (48 + n) ∷ out else more

unfoldable pub to_string : ℕ → Bytes
to_string n = emit (suc n) n []

unfoldable pub to_string_ℤ : ℤ → Bytes
to_string_ℤ (pos n) = to_string n
to_string_ℤ (negsuc n) = 45 ∷ to_string (suc n)

abbrev pub is_digit : ℕ → Bool
is_digit c = leb 48 c && leb c 57

-- Not a digit at the start.
abbrev pub stops : Bytes → Bool
stops [] = true
stops (c ∷ s) = not (is_digit c)

-- The value of the digits that a text starts with, behind digits of the value `n`.
unfoldable pub scan : ℕ → Bytes → ℕ
scan n [] = n
scan n (c ∷ s) = let more = scan (n * 10 + (c - 48)) s in if is_digit c then more else n

abbrev pub is_space : ℕ → Bool
is_space c = (c == 32) || leb 9 c && leb c 13

unfoldable pub skip_spaces : Bytes → Bytes
skip_spaces [] = []
skip_spaces (c ∷ s) = let rest = skip_spaces s in if is_space c then rest else c ∷ s

abbrev pub magnitude : Bytes → Option ℕ
magnitude s = if stops s then none else some (scan 0 s)

-- A number whose magnitude is at most `limit`, one more where it is negative.
abbrev pub within : ℕ → Bool → Option ℕ → Option ℤ
within limit minus none = none
within limit false (some n) = if leb n limit then some (pos n) else none
within limit true (some zero) = some (pos 0)
within limit true (some (suc n)) = if leb n limit then some (negsuc n) else none

abbrev pub signed : ℕ → Bytes → Option ℤ
signed limit [] = none
signed limit (c ∷ s) =
    if c == 45
    then within limit true (magnitude s)
    else if c == 43
    then within limit false (magnitude s)
    else within limit false (magnitude (c ∷ s))

unfoldable pub stoi : Bytes → Option ℤ
unfolding skip_spaces
stoi s = signed (2 ^ 31 - 1) (skip_spaces s)

unfoldable pub stoll : Bytes → Option ℤ
unfolding skip_spaces
stoll s = signed (2 ^ 63 - 1) (skip_spaces s)

scan_last : (n : ℕ) (s : Bytes) → scan (n / 10) ((48 + n % 10) ∷ s) ≡ scan n s
unfolding scan
scan_last n s = ground arith

-- Reading what was printed before `out` gives the number back.
scan-emit : (fuel n : ℕ) (out : Bytes) → n < fuel → scan 0 (emit fuel n out) ≡ scan n out
unfolding emit scan
scan-emit zero n out h = absurd (omega arith)
scan-emit (suc fuel) n out h =
    ground (arith, scan-emit fuel (n / 10) ((48 + n % 10) ∷ out), scan_last n out)

-- A print starts with a digit.
pub starts : Bytes → Bool
starts [] = false
starts (c ∷ s) = is_digit c

starts-emit : (fuel n : ℕ) (out : Bytes) → n < fuel → starts (emit fuel n out) ≡ true
unfolding emit starts
starts-emit zero n out h = absurd (omega arith)
starts-emit (suc fuel) n out h = ground (arith, starts-emit fuel (n / 10) ((48 + n % 10) ∷ out))

emit-append : (fuel n : ℕ) (out s : Bytes) → emit fuel n out ++ s ≡ emit fuel n (out ++ s)
unfolding emit
emit-append zero n out s = refl
emit-append (suc fuel) n out s = ground (arith, emit-append fuel (n / 10) ((48 + n % 10) ∷ out) s)

scan-stops : (n : ℕ) (s : Bytes) → stops s ≡ true → scan n s ≡ n
unfolding scan
scan-stops n [] h = refl
scan-stops n (c ∷ s) h = ground arith

signed_digits :
    (limit n : ℕ) (s : Bytes)
    → starts s ≡ true
    → scan 0 s ≡ n
    → n ≤ limit
    → signed limit (skip_spaces s) ≡ some (pos n)
unfolding skip_spaces starts
signed_digits limit n [] d e h = absurd (ground arith)
signed_digits limit n (c ∷ s) d e h = ground (arith, e)

module _ (n : ℕ) (s : Bytes) (end : stops s ≡ true) where
  printed : scan 0 (to_string n ++ s) ≡ n
  unfolding to_string
  printed =
      rw (emit-append (suc n) n [] s, scan-emit (suc n) n s (omega arith)) (scan-stops n s end)

  starts-to_string : starts (to_string n ++ s) ≡ true
  unfolding to_string
  starts-to_string = rw (emit-append (suc n) n [] s) (starts-emit (suc n) n s (omega arith))

  pub stoi-to_string : n < 2 ^ 31 → stoi (to_string n ++ s) ≡ some (pos n)
  unfolding stoi
  stoi-to_string h =
      signed_digits (2 ^ 31 - 1) n (to_string n ++ s) starts-to_string printed (omega arith)

  pub stoll-to_string : n < 2 ^ 63 → stoll (to_string n ++ s) ≡ some (pos n)
  unfolding stoll
  stoll-to_string h =
      signed_digits (2 ^ 63 - 1) n (to_string n ++ s) starts-to_string printed (omega arith)

-- A byte that a text does not have.
abbrev pub lacks : ℕ → Bytes → Bool
lacks b [] = true
lacks b (c ∷ s) = if c == b then false else lacks b s

lacks-emit :
    (b fuel n : ℕ) (out : Bytes)
    → is_digit b ≡ false
    → lacks b out ≡ true
    → lacks b (emit fuel n out) ≡ true
unfolding emit
lacks-emit b zero n out no_digit h = h
lacks-emit b (suc fuel) n out no_digit h =
    ground (arith, lacks-emit b fuel (n / 10) ((48 + n % 10) ∷ out) no_digit)

pub lacks-to_string : (b n : ℕ) → is_digit b ≡ false → lacks b (to_string n) ≡ true
unfolding to_string
lacks-to_string b n no_digit = lacks-emit b (suc n) n [] no_digit refl

length-starts : (s : Bytes) → starts s ≡ true → 1 ≤ length s
unfolding starts
length-starts [] h = absurd (ground arith)
length-starts (c ∷ s) h = omega arith

pub length-to_string : (n : ℕ) → 1 ≤ length (to_string n)
unfolding to_string
length-to_string n = length-starts (to_string n) (starts-emit (suc n) n [] (omega arith))
