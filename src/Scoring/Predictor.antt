-- ===== src/Scoring/Predictor.antt =====
-- internal/scoring/predictor.go: logistic regression.
use bidflock.Prelude.{List, [], ◌∷◌}
use bidflock.Prelude.Float.{Float64}

pub record FeatureVector (F : Type 0) : Type 0 where
  pub age_group : F
  pub gender_male : F
  pub geo_us : F
  pub device_mobile : F
  pub ad_type_banner : F
  pub ad_type_video : F
  pub hour_of_day : F
  pub day_of_week : F
  pub campaign_historical_ctr : F
  pub ad_historical_ctr : F

pub record LogisticRegressor (F : Type 0) : Type 0 where
  pub weights : List F
  pub bias : F

module _ {F : Type 0} ⦃f : Float64 F⦄ where
  open f use {lit, neg, add, mul, div, exp}

  -- `NewCTRPredictor`
  abbrev pub new_ctr_predictor : LogisticRegressor F
  new_ctr_predictor = record {
    weights =
        lit 5 2
        ∷ lit 10 2
        ∷ lit 30 2
        ∷ lit 40 2
        ∷ lit 20 2
        ∷ lit 50 2
        ∷ neg (lit 10 2)
        ∷ lit 5 2
        ∷ lit 200 2
        ∷ lit 250 2
        ∷ [];
    bias = neg (lit 30 1);
  }

  -- `NewCVRPredictor`
  abbrev pub new_cvr_predictor : LogisticRegressor F
  new_cvr_predictor = record {
    weights =
        lit 10 2
        ∷ lit 5 2
        ∷ lit 25 2
        ∷ lit 30 2
        ∷ lit 15 2
        ∷ lit 35 2
        ∷ neg (lit 5 2)
        ∷ lit 10 2
        ∷ lit 150 2
        ∷ lit 180 2
        ∷ [];
    bias = neg (lit 40 1);
  }

  unfoldable pub sigmoid : F → F
  sigmoid x = div (lit 1 0) (add (lit 1 0) (exp (neg x)))

  abbrev pub fv_to_slice : FeatureVector F → List F
  fv_to_slice fv =
      fv.age_group
      ∷ fv.gender_male
      ∷ fv.geo_us
      ∷ fv.device_mobile
      ∷ fv.ad_type_banner
      ∷ fv.ad_type_video
      ∷ fv.hour_of_day
      ∷ fv.day_of_week
      ∷ mul fv.campaign_historical_ctr (lit 10 0)
      ∷ mul fv.ad_historical_ctr (lit 10 0)
      ∷ []

  -- The loop of `Predict` from the accumulator `z`; weights without a feature count nothing.
  abbrev pub weighted_sum : F → List F → List F → F
  weighted_sum z [] xs = z
  weighted_sum z (w ∷ ws) [] = weighted_sum z ws []
  weighted_sum z (w ∷ ws) (x ∷ xs) = weighted_sum (add z (mul w x)) ws xs

  unfoldable pub predict : LogisticRegressor F → FeatureVector F → F
  unfolding sigmoid
  predict lr fv = sigmoid (weighted_sum lr.bias lr.weights (fv_to_slice fv))
