-- ===== src/Prelude/Float.antt =====
-- Go's `float64` as an interface: literals, the operations and comparisons that the services use,
-- and the IEEE 754 facts about them that the theorems name as hypotheses.
use Prim.Native.Nat.{ℕ}
use mathlib.Core.Path.{◌≡◌}
use mathlib.Core.Logic.{◌⊎◌}
use mathlib.Core.Bool.{Bool, true, not}

-- `lit n d` is the literal n / 10^d, so `lit n 0` is also `float64(n)` of a count. `lt` and `le` are
-- `<` and `<=`; the source's `a > b` and `a >= b` are `lt b a` and `le b a`, also for NaN.
pub record Float64 (F : Type 0) : Type 0 where
  pub lit : ℕ → ℕ → F
  pub neg : F → F
  pub add : F → F → F
  pub sub : F → F → F
  pub mul : F → F → F
  pub div : F → F → F
  pub exp : F → F
  pub lt : F → F → Bool
  pub le : F → F → Bool
  pub eq : F → F → Bool

module _ {F : Type 0} ⦃f : Float64 F⦄ where
  -- NaN is the value that is not `<=` itself.
  abbrev pub IsNumber : F → Type 0
  IsNumber x = f.le x x ≡ true

  infix 4 ◌≼◌
  abbrev pub ◌≼◌ : F → F → Type 0
  x ≼ y = f.le x y ≡ true

-- The comparisons: a total order on the numbers, false as soon as a NaN takes part.
pub record IsOrdered (F : Type 0) ⦃f : Float64 F⦄ : Type 0 where
  pub numbers_of_le : (x y : F) → x ≼ y → IsNumber x × IsNumber y
  pub le_trans : (x y z : F) → x ≼ y → y ≼ z → x ≼ z
  pub le_total : (x y : F) → IsNumber x → IsNumber y → (x ≼ y) ⊎ (y ≼ x)
  pub lt-eq-not-le : (x y : F) → IsNumber x → IsNumber y → f.lt x y ≡ not (f.le y x)
  pub lt-le : (x y : F) → f.lt x y ≡ true → x ≼ y
