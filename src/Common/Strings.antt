-- ===== src/Common/Strings.antt =====
-- The functions of Go's packages strings and strconv that the code calls, on ASCII bytes: other white
-- space and other letters of Unicode are left alone.
use mathlib.Core.List.{[], ◌∷◌, reverse}
use mathlib.Core.Bool.{Bool, ◌&&◌, ◌||◌}
use Prim.Native.Nat.{ℕ, zero, suc, ◌+◌, ◌/◌, ◌%◌}
use meow_cli.Common.Tests.{ltb, leb, ◌==◌, if◌then◌else◌}
use meow_cli.Common.Text.{Text, text_eq, has_prefix}

unfoldable pub is_space : ℕ → Bool
is_space c = c == b' ' || (leb 9 c && leb c 13)

unfoldable pub trim_left : Text → Text
unfolding is_space
trim_left [] = []
trim_left (c ∷ s) = if is_space c then trim_left s else c ∷ s

-- strings.TrimSpace.
unfoldable pub trim_space : Text → Text
unfolding trim_left
trim_space s = reverse (trim_left (reverse (trim_left s)))

lower_byte : ℕ → ℕ
lower_byte c = if leb b'A' c && leb c b'Z' then c + 32 else c

-- strings.ToLower.
unfoldable pub to_lower : Text → Text
unfolding lower_byte
to_lower [] = []
to_lower (c ∷ s) = lower_byte c ∷ to_lower s

-- strings.EqualFold.
unfoldable pub equal_fold : Text → Text → Bool
unfolding to_lower text_eq
equal_fold s t = text_eq (to_lower s) (to_lower t)

-- strings.Contains.
unfoldable pub contains : Text → Text → Bool
unfolding has_prefix
contains [] t = has_prefix t []
contains (c ∷ s) t = has_prefix t (c ∷ s) || contains s t

unfoldable pub digits_loop : ℕ → ℕ → Text → Text
digits_loop zero n acc = acc
digits_loop (suc fuel) n acc =
    let rest = digits_loop fuel (n / 10) ((48 + n % 10) ∷ acc) in
    if ltb n 10 then (48 + n) ∷ acc else rest

-- strconv.Itoa of a number that is not negative; a number n has at most n + 1 digits.
unfoldable pub itoa : ℕ → Text
unfolding digits_loop
itoa n = digits_loop (suc n) n []
