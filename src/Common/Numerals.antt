-- ===== src/Common/Numerals.antt =====
-- A Go int of 64 bits, and the functions of strconv that read and write it and bool.
use Prim.Native.Nat.{ℕ, zero, suc, ◌+◌, ◌-◌, ◌*◌, ◌/◌, ◌%◌, ◌<◌}
use mathlib.Core.Path.{◌≡◌, refl}
use mathlib.Core.Bool.{Bool, true, false, ◌&&◌, ◌||◌}
use mathlib.Core.List.{[], ◌∷◌}
use mathlib.Core.Logic.{◌≢◌, inl, inr}
use mathlib.Core.Option.{Option, none, some, none-ne-some}
use native.Mathlib.Omega.{arith}
use meow_cli.Common.Tests.{ltb, leb, ◌==◌, if◌then◌else◌, Bool-cases, lt→ltb}
use meow_cli.Common.Text.{Text, text_eq, bytes}
use meow_cli.Common.Strings.{itoa, digits_loop}

pub data ℤ : Type 0 where
  pos negsuc : ℕ → ℤ

-- n > 0.
abbrev pub is_positive : ℤ → Bool
is_positive (pos n) = ltb 0 n
is_positive (negsuc n) = false

-- m < n.
abbrev pub ltb_int : ℤ → ℤ → Bool
ltb_int (pos m) (pos n) = ltb m n
ltb_int (negsuc m) (pos n) = true
ltb_int (pos m) (negsuc n) = false
ltb_int (negsuc m) (negsuc n) = ltb n m

abbrev pub int_limit : ℕ
int_limit = 9223372036854775808

-- The values of int.
abbrev pub IsInt : ℤ → Type 0
IsInt (pos n) = n < int_limit
IsInt (negsuc n) = n < int_limit

abbrev is_digit : ℕ → Bool
is_digit c = leb b'0' c && leb c b'9'

unfoldable pub digits_value : ℕ → Text → Option ℕ
digits_value acc [] = some acc
digits_value acc (c ∷ s) =
    let rest = digits_value (acc * 10 + (c - 48)) s in if is_digit c then rest else none

abbrev magnitude : Text → Option ℕ
magnitude [] = none
magnitude (c ∷ s) = digits_value 0 (c ∷ s)

abbrev positive : Option ℕ → Option ℤ
positive none = none
positive (some n) = if ltb n int_limit then some (pos n) else none

abbrev negative : Option ℕ → Option ℤ
negative none = none
negative (some zero) = some (pos 0)
negative (some (suc n)) = if ltb n int_limit then some (negsuc n) else none

-- strconv.Atoi: a sign, and digits.
unfoldable pub atoi : Text → Option ℤ
unfolding digits_value
atoi [] = none
atoi (c ∷ s) =
    if c == b'-'
    then negative (magnitude s)
    else if c == b'+'
    then positive (magnitude s)
    else positive (magnitude (c ∷ s))

-- strconv.Itoa.
unfoldable pub itoa_int : ℤ → Text
unfolding itoa
itoa_int (pos n) = itoa n
itoa_int (negsuc n) = b'-' ∷ itoa (suc n)

-- strconv.ParseBool and FormatBool.
unfoldable pub parse_bool : Text → Option Bool
unfolding text_eq
parse_bool s =
    if text_eq s (bytes "1")
      || text_eq s (bytes "t")
      || text_eq s (bytes "T")
      || text_eq s (bytes "TRUE")
      || text_eq s (bytes "true")
      || text_eq s (bytes "True")
    then some true
    else if text_eq s (bytes "0")
        || text_eq s (bytes "f")
        || text_eq s (bytes "F")
        || text_eq s (bytes "FALSE")
        || text_eq s (bytes "false")
        || text_eq s (bytes "False")
    then some false
    else none

abbrev pub format_bool : Bool → Text
format_bool b = if b then bytes "true" else bytes "false"

pub parse_bool-format_bool : (b : Bool) → parse_bool (format_bool b) ≡ some b
unfolding parse_bool
parse_bool-format_bool true = refl
parse_bool-format_bool false = refl

digits_value-digits_loop :
    (fuel n : ℕ) (acc : Text)
    → n < fuel
    → digits_value 0 (digits_loop fuel n acc) ≡ digits_value n acc
unfolding digits_value digits_loop
digits_value-digits_loop zero n acc h = absurd (omega arith)
digits_value-digits_loop (suc fuel) n acc h =
    ground (arith, digits_value-digits_loop fuel (n / 10) ((48 + n % 10) ∷ acc))

digits_value-itoa : (n : ℕ) → digits_value 0 (itoa n) ≡ some n
unfolding itoa digits_value
digits_value-itoa n = digits_value-digits_loop (suc n) n [] (omega arith)

-- The text of a number that has a value does not begin with a sign.
atoi-unsigned :
    (s : Text) (n : ℕ) → s ≢ [] → digits_value 0 s ≡ some n → n < int_limit → atoi s ≡ some (pos n)
unfolding atoi digits_value
atoi-unsigned [] n ne h lt = absurd (ne refl)
atoi-unsigned (c ∷ s) n ne h lt = elim (Bool-cases (is_digit c)) [
  | inl d ↦
      let k = rw d at h in
      let minus : (c == b'-') ≡ false = ground arith in
      let plus : (c == b'+') ≡ false = ground arith in rw (minus, plus, d, k, lt→ltb n int_limit lt)
  | inr d ↦ absurd (none-ne-some n (rw d at h))
]

digits_loop-ne-nil : (fuel n : ℕ) (acc : Text) → acc ≢ [] → digits_loop fuel n acc ≢ []
unfolding digits_loop
digits_loop-ne-nil zero n acc ne = ne
digits_loop-ne-nil (suc fuel) n acc ne =
    ground (arith, digits_loop-ne-nil fuel (n / 10) ((48 + n % 10) ∷ acc))

itoa-ne-nil : (n : ℕ) → itoa n ≢ []
unfolding itoa digits_loop
itoa-ne-nil n = ground (arith, digits_loop-ne-nil n (n / 10) ((48 + n % 10) ∷ []))

magnitude_lem : (s : Text) → s ≢ [] → magnitude s ≡ digits_value 0 s
magnitude_lem [] ne = absurd (ne refl)
magnitude_lem (c ∷ s) ne = refl

pub atoi-itoa_int : (n : ℤ) → IsInt n → atoi (itoa_int n) ≡ some n
unfolding itoa_int atoi
atoi-itoa_int (pos n) h = atoi-unsigned (itoa n) n (itoa-ne-nil n) (digits_value-itoa n) h
atoi-itoa_int (negsuc n) h = rw (
  magnitude_lem (itoa (suc n)) (itoa-ne-nil (suc n)),
  digits_value-itoa (suc n),
  lt→ltb n int_limit h,
)
