-- ===== src/Float/Fixed.antt =====
-- A concrete type of numbers for the tests: signed millionths. It shows that the laws can be met.
use meow_cli.Common.{ℕ, ◌+◌, ◌-◌, ◌*◌, ◌/◌, ◌^◌, ◌≡◌, Bool, false, arith, ltb, leb, if◌then◌else◌}
use meow_cli.Float.Defs.{Float, IsFloat}

-- `negsuc n` is -(n + 1) millionths.
pub data Fixed : Type 0 where
  pos negsuc : ℕ → Fixed

abbrev pub pos_part : Fixed → ℕ
pos_part (pos n) = n
pos_part (negsuc n) = 0

abbrev pub neg_part : Fixed → ℕ
neg_part (pos n) = 0
neg_part (negsuc n) = n + 1

-- a - b, as a number of either sign.
abbrev pub minus : ℕ → ℕ → Fixed
minus a b = if leb b a then pos (a - b) else negsuc (b - a - 1)

abbrev fixed_lt : Fixed → Fixed → Bool
fixed_lt a b = ltb (pos_part a + neg_part b) (pos_part b + neg_part a)

abbrev fixed_le : Fixed → Fixed → Bool
fixed_le a b = leb (pos_part a + neg_part b) (pos_part b + neg_part a)

-- Rounded towards zero, part by part.
abbrev scale : (ℕ → ℕ → ℕ) → Fixed → Fixed → Fixed
scale op (pos a) (pos b) = pos (op a b)
scale op (pos a) (negsuc b) = minus 0 (op a (b + 1))
scale op (negsuc a) (pos b) = minus 0 (op (a + 1) b)
scale op (negsuc a) (negsuc b) = pos (op (a + 1) (b + 1))

instance abbrev pub fixed_float : Float Fixed
fixed_float = record {
  lit = λ n k. pos (n * 1_000_000 / 10 ^ k);
  minus_one = negsuc 999_999;
  smallest = pos 1;
  of_ns = λ n. pos (n / 1000);
  of_int = λ n. pos (n * 1_000_000);
  add = λ a b. minus (pos_part a + pos_part b) (neg_part a + neg_part b);
  sub = λ a b. minus (pos_part a + neg_part b) (neg_part a + pos_part b);
  mul = scale λ a b. a * b / 1_000_000;
  quotient = scale λ a b. a * 1_000_000 / b;
  min_of = λ a b. if fixed_le a b then a else b;
  max_of = λ a b. if fixed_le a b then b else a;
  lt = fixed_lt;
  le = fixed_le;
}

nonneg_mul :
    (x y : Fixed)
    → fixed_lt x (pos 0) ≡ false
    → fixed_lt y (pos 0) ≡ false
    → fixed_lt (scale (λ a b. a * b / 1_000_000) x y) (pos 0) ≡ false
nonneg_mul (pos a) (pos b) h k = ground arith
nonneg_mul (pos a) (negsuc b) h k = ground arith
nonneg_mul (negsuc a) y h k = ground arith

pub Fixed-IsFloat : IsFloat Fixed
Fixed-IsFloat = record {
  le_of_lt = λ x y h. ground arith;
  lt_asymm = λ x y h. ground arith;
  lt-not-le = λ x y h. ground arith;
  le_trans = λ x y z h k. ground arith;
  le_of_not_lt = λ x y h k e. ground arith;
  lt_of_not_le = λ x y h k e. ground arith;
  minus_one_neg = ground arith;
  mul_nonneg = nonneg_mul;
}
