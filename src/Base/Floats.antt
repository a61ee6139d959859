-- ===== src/Base/Floats.antt =====
-- What the code does with floats, which are words here: arithmetic and comparisons as a parameter.
use Prim.Native.Nat.{ℕ}
use mathlib.Core.Path.{◌≡◌}
use mathlib.Core.Bool.{Bool, true, false}
use pop_cpp.Base.Int.{ℤ}

pub record Floats : Type 0 where
  pub add : ℕ → ℕ → ℕ
  pub sub : ℕ → ℕ → ℕ
  pub div : ℕ → ℕ → ℕ
  pub less : ℕ → ℕ → Bool
  pub le : ℕ → ℕ → Bool
  pub nought : ℕ
  pub one : ℕ
  pub of_int : ℤ → ℕ

-- The comparisons of floats that are no NaN.
pub record IsOrdered (f : Floats) : Type 0 where
  pub less_asym : (a b : ℕ) → f.less a b ≡ true → f.less b a ≡ false
  pub le_of_less : (a b : ℕ) → f.less a b ≡ true → f.le a b ≡ true
  pub le_of_not_less : (a b : ℕ) → f.less a b ≡ false → f.le b a ≡ true
  pub le_refl : (a : ℕ) → f.le a a ≡ true
  pub le_of_not_le : (a b : ℕ) → f.le a b ≡ false → f.le b a ≡ true
  pub le_trans : (a b c : ℕ) → f.le a b ≡ true → f.le b c ≡ true → f.le a c ≡ true
