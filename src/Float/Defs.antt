-- ===== src/Float/Defs.antt =====
-- float64, which the scheduler's scores and weights are. The type and its operations are a parameter
-- of the model; `IsFloat` holds what is used of IEEE 754 comparison, NaN included.
use meow_cli.Common.{ℕ, ◌≡◌, Bool, true, false}

pub record Float (W : Type 0) : Type 0 where
  -- `lit n k` is the constant n / 10 ^ k of the source, `of_ns` is `time.Duration.Seconds`, and
  -- `of_int` converts an integer.
  pub lit : ℕ → ℕ → W
  pub minus_one : W
  pub smallest : W
  pub of_ns : ℕ → W
  pub of_int : ℕ → W
  pub add : W → W → W
  pub sub : W → W → W
  pub mul : W → W → W
  pub quotient : W → W → W
  pub min_of : W → W → W
  pub max_of : W → W → W
  pub lt : W → W → Bool
  pub le : W → W → Bool

abbrev pub nought : {W : Type 0} ⦃f : Float W⦄ → W
nought ⦃f⦄ = f.lit 0 0

abbrev pub one : {W : Type 0} ⦃f : Float W⦄ → W
one ⦃f⦄ = f.lit 1 0

-- `x <= x` fails for NaN alone.
pub record IsFloat (W : Type 0) ⦃f : Float W⦄ : Type 0 where
  pub le_of_lt : (x y : W) → f.lt x y ≡ true → f.le x y ≡ true
  pub lt_asymm : (x y : W) → f.lt x y ≡ true → f.lt y x ≡ false
  pub lt-not-le : (x y : W) → f.lt x y ≡ true → f.le y x ≡ false
  pub le_trans : (x y z : W) → f.le x y ≡ true → f.le y z ≡ true → f.le x z ≡ true
  pub le_of_not_lt :
      (x y : W) → f.le x x ≡ true → f.le y y ≡ true → f.lt y x ≡ false → f.le x y ≡ true
  pub lt_of_not_le :
      (x y : W) → f.le x x ≡ true → f.le y y ≡ true → f.le y x ≡ false → f.lt x y ≡ true
  pub minus_one_neg : f.lt f.minus_one (f.lit 0 0) ≡ true
  pub mul_nonneg :
      (x y : W)
      → f.lt x (f.lit 0 0) ≡ false
      → f.lt y (f.lit 0 0) ≡ false
      → f.lt (f.mul x y) (f.lit 0 0) ≡ false
