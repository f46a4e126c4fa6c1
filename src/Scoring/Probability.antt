-- ===== src/Scoring/Probability.antt =====
-- The predictions are probabilities.
use bidflock.Prelude.{ℕ, ◌≡◌}
use bidflock.Prelude.Float.{Float64, IsNumber, ◌≼◌}
use bidflock.Scoring.Predictor.{
  FeatureVector, LogisticRegressor, fv_to_slice, predict, sigmoid, weighted_sum,
}

-- IEEE 754 and math.Exp: the sign of a number changes to a number, the exponential of a number is
-- not negative, adding such a number to one does not lessen it, and a quotient of one by such a sum
-- is between zero and one.
pub record IsExponential (F : Type 0) ⦃f : Float64 F⦄ : Type 0 where
  pub neg_number : (x : F) → IsNumber x → IsNumber (f.neg x)
  pub exp_sign : (x : F) → IsNumber x → f.lit 0 0 ≼ f.exp x
  pub one_plus : (x : F) → f.lit 0 0 ≼ x → f.lit 1 0 ≼ f.add (f.lit 1 0) x
  pub one_over :
      (x : F)
      → f.lit 1 0 ≼ x
      → (f.lit 0 0 ≼ f.div (f.lit 1 0) x) × (f.div (f.lit 1 0) x ≼ f.lit 1 0)

-- IEEE 754 and math.Exp: what is increasing or decreasing in an argument, where the results are
-- numbers, and a sum or a product that is a number has operands that are.
pub record IsMonotone (F : Type 0) ⦃f : Float64 F⦄ : Type 0 where
  pub lit_sign : (n d : ℕ) → f.lit 0 0 ≼ f.lit n d
  pub neg_le : (x y : F) → x ≼ y → f.neg y ≼ f.neg x
  pub exp_le : (x y : F) → x ≼ y → f.exp x ≼ f.exp y
  pub one_plus_le : (x y : F) → x ≼ y → f.add (f.lit 1 0) x ≼ f.add (f.lit 1 0) y
  pub one_over_le : (x y : F) → f.lit 1 0 ≼ x → x ≼ y → f.div (f.lit 1 0) y ≼ f.div (f.lit 1 0) x
  pub add_le :
      (x y u v : F)
      → x ≼ y
      → u ≼ v
      → IsNumber (f.add x u)
      → IsNumber (f.add y v)
      → f.add x u ≼ f.add y v
  pub add_left : (x u : F) → IsNumber (f.add x u) → IsNumber x
  pub add_right : (x u : F) → IsNumber (f.add x u) → IsNumber u
  pub mul_comm : (x y : F) → f.mul x y ≡ f.mul y x
  pub mul_right : (w x : F) → IsNumber (f.mul w x) → IsNumber x
  pub mul_sign :
      (w x : F) → f.lit 0 0 ≼ w → f.lit 0 0 ≼ x → IsNumber (f.mul w x) → f.lit 0 0 ≼ f.mul w x
  pub mul_le :
      (w x y : F)
      → f.lit 0 0 ≼ w
      → f.lit 0 0 ≼ x
      → x ≼ y
      → IsNumber (f.mul w x)
      → IsNumber (f.mul w y)
      → f.mul w x ≼ f.mul w y
  pub neg_mul_le :
      (w x y : F)
      → f.lit 0 0 ≼ w
      → f.lit 0 0 ≼ x
      → x ≼ y
      → IsNumber (f.mul (f.neg w) x)
      → IsNumber (f.mul (f.neg w) y)
      → f.mul (f.neg w) y ≼ f.mul (f.neg w) x

module _ {F : Type 0} ⦃f : Float64 F⦄ (laws : IsExponential F) where
  open laws use {neg_number, exp_sign, one_plus, one_over}

  -- A prediction lies between 0 and 1, both included, whatever the weights and the features are,
  -- unless the weighted sum of the features is NaN.
  pub predict_bounds :
      (lr : LogisticRegressor F) (fv : FeatureVector F)
      → IsNumber (weighted_sum lr.bias lr.weights (fv_to_slice fv))
      → (f.lit 0 0 ≼ predict lr fv) × (predict lr fv ≼ f.lit 1 0)
  unfolding predict sigmoid
  predict_bounds lr fv n = one_over _ (one_plus _ (exp_sign _ (neg_number _ n)))
