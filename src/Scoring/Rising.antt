-- ===== src/Scoring/Rising.antt =====
-- In which direction the features of the two predictors of internal/scoring/predictor.go count.
use bidflock.Prelude.{ℕ, subst₂, List, [], ◌∷◌}
use bidflock.Prelude.Float.{Float64, IsNumber, ◌≼◌}
use bidflock.Scoring.Predictor.{
  FeatureVector, LogisticRegressor, new_ctr_predictor, new_cvr_predictor, fv_to_slice, predict,
  sigmoid, weighted_sum,
}
use bidflock.Scoring.Probability.{IsExponential, IsMonotone, predict_bounds}

module _ {F : Type 0} ⦃f : Float64 F⦄ where
  open f use {lit, neg, add, mul}

  -- The second is at least the first, which is not negative.
  abbrev pub Up : F → F → Type 0
  Up x y = (lit 0 0 ≼ x) × (x ≼ y)

  -- No feature of the second is below that of the first, but for the hour, which is not above it.
  pub record Favours (a b : FeatureVector F) : Type 0 where
    pub age : Up a.age_group b.age_group
    pub gender : Up a.gender_male b.gender_male
    pub geo : Up a.geo_us b.geo_us
    pub device : Up a.device_mobile b.device_mobile
    pub banner : Up a.ad_type_banner b.ad_type_banner
    pub video : Up a.ad_type_video b.ad_type_video
    pub hour : Up b.hour_of_day a.hour_of_day
    pub day : Up a.day_of_week b.day_of_week
    pub campaign_ctr : Up a.campaign_historical_ctr b.campaign_historical_ctr
    pub ad_ctr : Up a.ad_historical_ctr b.ad_historical_ctr

  -- The weighted sum of the features is a number.
  abbrev pub HasSum : LogisticRegressor F → FeatureVector F → Type 0
  HasSum lr fv = IsNumber (weighted_sum lr.bias lr.weights (fv_to_slice fv))

  -- One prediction is no higher than another, and both are probabilities.
  abbrev pub IsRanked : LogisticRegressor F → FeatureVector F → FeatureVector F → Type 0
  IsRanked lr a b =
      (lit 0 0 ≼ predict lr a) × (predict lr a ≼ predict lr b) × (predict lr b ≼ lit 1 0)

  abbrev TermLe : F → F → F → F → Type 0
  TermLe v w x y = IsNumber (mul v x) → IsNumber (mul w y) → mul v x ≼ mul w y

  abbrev TermsLe : List F → List F → List F → Type 0
  TermsLe [] _ _ = Unit
  TermsLe (_ ∷ _) [] [] = Unit
  TermsLe (_ ∷ _) [] (_ ∷ _) = ⊥
  TermsLe (_ ∷ _) (_ ∷ _) [] = ⊥
  TermsLe (w ∷ ws) (x ∷ xs) (y ∷ ys) = TermLe w w x y × TermsLe ws xs ys

  module _ (laws : IsExponential F) (monotone : IsMonotone F) where
    open laws use {neg_number, exp_sign, one_plus}
    open monotone use {
      lit_sign, neg_le, exp_le, one_plus_le, one_over_le, add_le, add_left, add_right, mul_comm,
      mul_right, mul_sign, mul_le, neg_mul_le,
    }

    start-IsNumber : (z : F) (ws xs : List F) → IsNumber (weighted_sum z ws xs) → IsNumber z
    start-IsNumber z [] xs n = n
    start-IsNumber z (w ∷ ws) [] n = start-IsNumber z ws [] n
    start-IsNumber z (w ∷ ws) (x ∷ xs) n =
        add_left z (mul w x) (start-IsNumber (add z (mul w x)) ws xs n)

    sum_le :
        (z u : F) (ws xs ys : List F)
        → z ≼ u
        → TermsLe ws xs ys
        → IsNumber (weighted_sum z ws xs)
        → IsNumber (weighted_sum u ws ys)
        → weighted_sum z ws xs ≼ weighted_sum u ws ys
    sum_le z u [] xs ys h _ m n = h
    sum_le z u (w ∷ ws) [] [] h _ m n = sum_le z u ws [] [] h (none_left ws) m n
      where
        none_left : (ws : List F) → TermsLe ws [] []
        none_left [] = tt
        none_left (_ ∷ _) = tt
    sum_le z u (w ∷ ws) [] (_ ∷ _) h k m n = absurd k
    sum_le z u (w ∷ ws) (_ ∷ _) [] h k m n = absurd k
    sum_le z u (w ∷ ws) (x ∷ xs) (y ∷ ys) h (k, ks) m n =
        let here = start-IsNumber (add z (mul w x)) ws xs m in
        let there = start-IsNumber (add u (mul w y)) ws ys n in
        sum_le (add z (mul w x)) (add u (mul w y)) ws xs ys
          (add_le z u (mul w x) (mul w y) h
            (k (add_right z (mul w x) here) (add_right u (mul w y) there)) here there)
          ks m n

    sigmoid_le : (z u : F) → IsNumber u → z ≼ u → sigmoid z ≼ sigmoid u
    unfolding sigmoid
    sigmoid_le z u n h =
        let down = exp_le _ _ (neg_le z u h) in
        one_over_le _ _ (one_plus _ (exp_sign _ (neg_number u n))) (one_plus_le _ _ down)

    rises : (n d : ℕ) {x y : F} → Up x y → TermLe (lit n d) (lit n d) x y
    rises n d {x} {y} (sign, le) = mul_le (lit n d) x y (lit_sign n d) sign le

    falls : (n d : ℕ) {x y : F} → Up y x → TermLe (neg (lit n d)) (neg (lit n d)) x y
    falls n d {x} {y} (sign, le) i j = neg_mul_le (lit n d) y x (lit_sign n d) sign le j i

    tenfold :
        (n d : ℕ) {x y : F}
        → Up x y
        → TermLe (lit n d) (lit n d) (mul x (lit 10 0)) (mul y (lit 10 0))
    tenfold n d {x} {y} (sign, le) i j =
        let ten = lit 10 0 in
        let ix = mul_right (lit n d) (mul x ten) i in
        let iy = mul_right (lit n d) (mul y ten) j in
        let more : mul x ten ≼ mul y ten =
          subst₂ (λ p q. IsNumber p → IsNumber q → p ≼ q) (mul_comm ten x) (mul_comm ten y)
            (mul_le ten x y (lit_sign 10 0) sign le) ix iy in
        rises n d (mul_sign x ten sign (lit_sign 10 0) ix, more) i j

    ranked :
        (lr : LogisticRegressor F) (a b : FeatureVector F)
        → TermsLe lr.weights (fv_to_slice a) (fv_to_slice b)
        → HasSum lr a
        → HasSum lr b
        → IsRanked lr a b
    unfolding predict
    ranked lr a b k m n = (
      (predict_bounds laws lr a m).0,
      sigmoid_le _ _ n (
          sum_le lr.bias lr.bias lr.weights _ _
            (start-IsNumber lr.bias lr.weights (fv_to_slice a) m) k m n),
      (predict_bounds laws lr b n).1,
    )

    -- Both predictors rank: for features that are not negative, a vector with no feature below those
    -- of another, but for the hour of the day, which is not above it, has at least the other's
    -- predicted click and conversion rate, unless a weighted sum is NaN. All four are probabilities
    -- from 0 to 1.
    pub predict_ranks :
        (a b : FeatureVector F)
        → Favours a b
        → HasSum new_ctr_predictor a
        → HasSum new_ctr_predictor b
        → HasSum new_cvr_predictor a
        → HasSum new_cvr_predictor b
        → IsRanked new_ctr_predictor a b × IsRanked new_cvr_predictor a b
    predict_ranks a b h ma mb na nb = (
      ranked new_ctr_predictor a b
          (
            rises 5 2 h.age,
            (
              rises 10 2 h.gender,
              (
                rises 30 2 h.geo,
                (
                  rises 40 2 h.device,
                  (
                    rises 20 2 h.banner,
                    (
                      rises 50 2 h.video,
                      (
                        falls 10 2 h.hour,
                        (
                          rises 5 2 h.day,
                          (tenfold 200 2 h.campaign_ctr, (tenfold 250 2 h.ad_ctr, tt)),
                        ),
                      ),
                    ),
                  ),
                ),
              ),
            ),
          )
          ma mb,
      ranked new_cvr_predictor a b
          (
            rises 10 2 h.age,
            (
              rises 5 2 h.gender,
              (
                rises 25 2 h.geo,
                (
                  rises 30 2 h.device,
                  (
                    rises 15 2 h.banner,
                    (
                      rises 35 2 h.video,
                      (
                        falls 5 2 h.hour,
                        (
                          rises 10 2 h.day,
                          (tenfold 150 2 h.campaign_ctr, (tenfold 180 2 h.ad_ctr, tt)),
                        ),
                      ),
                    ),
                  ),
                ),
              ),
            ),
          )
          na nb,
    )
