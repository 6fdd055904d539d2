-- ===== src/Double.antt =====
-- What the code under apps/asteroids does with a `double`, as an interface: literals, arithmetic,
-- <cmath>, comparisons and conversions. The laws that some theorems take are those of the IEEE 754
-- comparisons, with NaN; `Milli` shows that they can be met.
pub mod Milli
use geoff.Prelude.{ℕ, ◌≡◌, Bool, true, false}

pub record Double (W : Type 0) : Type 0 where
  -- An `int` or a `uint16_t` that is not negative, converted.
  pub of_nat : ℕ → W
  -- The literal n * 10 ^ -k of type `double`, and that of type `float`, widened.
  pub dbl : ℕ → ℕ → W
  pub flt : ℕ → ℕ → W
  pub add : W → W → W
  pub sub : W → W → W
  pub mul : W → W → W
  pub div : W → W → W
  pub neg : W → W
  pub cos : W → W
  pub sin : W → W
  pub sqrt : W → W
  pub pow : W → ℕ → W
  -- x < y and x <= y; x > y is y < x, and x >= y is y <= x.
  pub lt : W → W → Bool
  pub le : W → W → Bool
  -- static_cast<uint16_t>, static_cast<int16_t> as its bit pattern, and static_cast<int> of a value
  -- that is not negative. Out of range C++ leaves the result undefined, and so does the interface.
  pub to_u16 : W → ℕ
  pub to_i16 : W → ℕ
  pub to_int : W → ℕ

-- x is not NaN.
abbrev pub IsNum : {W : Type 0} ⦃d : Double W⦄ → W → Type 0
IsNum ⦃d⦄ x = d.le x x ≡ true

pub record IsOrdered (W : Type 0) ⦃d : Double W⦄ : Type 0 where
  pub num_of_le : (x y : W) → d.le x y ≡ true → (IsNum x) × (IsNum y)
  pub le_of_lt : (x y : W) → d.lt x y ≡ true → d.le x y ≡ true
  pub le_trans : (x y z : W) → d.le x y ≡ true → d.le y z ≡ true → d.le x z ≡ true
  pub le_of_not_lt : (x y : W) → IsNum x → IsNum y → d.lt x y ≡ false → d.le y x ≡ true
  pub lt_of_not_le : (x y : W) → IsNum x → IsNum y → d.le x y ≡ false → d.lt y x ≡ true
  pub not_lt_of_le : (x y : W) → d.le x y ≡ true → d.lt y x ≡ false
