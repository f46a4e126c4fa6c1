-- ===== src/Scoring/Feature.antt =====
-- internal/scoring/feature.go: the features of a request, a campaign and an ad.
use bidflock.Prelude.{
  ℕ, Bool, true, false, ◌||◌, Option, none, some, List, [], ◌∷◌, String, str_eq, if◌then◌else◌,
}
use bidflock.Prelude.State.{Act, ◌>>=◌, pure}
use bidflock.Prelude.Float.{Float64}
use bidflock.Prelude.Text.{concat}
use bidflock.Models.Campaign.{AdType, CampaignCache, ad_type_video}
use bidflock.Models.Messages.{BidContext}
use bidflock.Scoring.Store.{Store}
use bidflock.Scoring.Predictor.{FeatureVector}

-- keyFeature with "ctr:" before the type of the entity.
abbrev pub feature_key : String → String → String
feature_key entity_type entity_id =
    concat "feature:" (concat (concat "ctr:" entity_type) (concat ":" entity_id))

-- Seven days, in nanoseconds.
abbrev week : ℕ
week = 604_800_000_000_000

abbrev pub has_video : List AdType → Bool
has_video [] = false
has_video (t ∷ ts) = if str_eq t ad_type_video then true else has_video ts

module _ {F : Type 0} ⦃f : Float64 F⦄ where
  open f use {lit, add, sub, mul, div}

  unfoldable pub geo_score : String → F
  geo_score geo =
      if str_eq geo "US"
      then lit 1 0
      else if str_eq geo "GB" || (str_eq geo "CA" || str_eq geo "AU")
      then lit 8 1
      else lit 4 1

  unfoldable pub device_score : String → F
  device_score device_type =
      if str_eq device_type "ios" || str_eq device_type "android" then lit 1 0 else lit 5 1

  -- The features for banner and for video.
  unfoldable pub ad_type_from_campaign : CampaignCache F → F × F
  ad_type_from_campaign c =
      if has_video c.targeting.ad_types then (lit 0 0, lit 1 0) else (lit 1 0, lit 0 0)

  abbrev pub or_prior : Option F → F
  or_prior none = lit 2 2
  or_prior (some ctr) = ctr

  module _ (store : Store F) where
    open store use {World, now, get_number, set_number}

    unfoldable pub get_historical_ctr : String → String → Act World F
    get_historical_ctr entity_type entity_id = do
      r ← get_number (feature_key entity_type entity_id)
      pure (or_prior r)

    -- `UpdateCTR`; the answer of the write is ignored.
    unfoldable pub update_ctr : String → String → F → Act World Bool
    unfolding get_historical_ctr
    update_ctr entity_type entity_id observed = do
      old ← get_historical_ctr entity_type entity_id
      set_number (feature_key entity_type entity_id)
          (add (mul (lit 1 1) observed) (mul (lit 9 1) old)) week

    -- `Assemble`; a feature that the code does not set is zero.
    unfoldable pub assemble : BidContext → String → String → Act World (FeatureVector F)
    unfolding get_historical_ctr geo_score device_score
    assemble req campaign_id ad_id = do
      t ← now
      campaign_ctr ← get_historical_ctr "campaign" campaign_id
      ad_ctr ← get_historical_ctr "ad" ad_id
      let known = if str_eq req.user_id "" then false else true
      pure (record {
        age_group = if known then lit 1 0 else lit 0 0;
        gender_male = lit 0 0;
        geo_us = if known then geo_score req.geo else lit 0 0;
        device_mobile = if known then device_score req.device_type else lit 0 0;
        ad_type_banner = lit 0 0;
        ad_type_video = lit 0 0;
        hour_of_day = div (lit t.hour 0) (lit 23 0);
        day_of_week = div (lit t.weekday 0) (lit 6 0);
        campaign_historical_ctr = campaign_ctr;
        ad_historical_ctr = ad_ctr;
      })
