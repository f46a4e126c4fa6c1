-- ===== src/Scoring/Tests.antt =====
-- The scoring service on a store that answers every call.
use bidflock.Prelude.{◌≡◌, refl, none, some, [], ◌∷◌, str_eq, if◌then◌else◌}
use bidflock.Prelude.Int.{pos}
use bidflock.Prelude.Fixed.{Fixed, fixed_float, Fixed-IsOrdered, dollars}
use bidflock.Models.Campaign.{CampaignCache, TargetingRules}
use bidflock.Models.Messages.{ScoreRequest}
use bidflock.Scoring.Example.{Table, store, store-IsStore}
use bidflock.Scoring.Predictor.{FeatureVector, new_ctr_predictor, new_cvr_predictor}
use bidflock.Scoring.Service.{score_ads}
use bidflock.Scoring.Cover.{Covers, entries_for, score_ads-Covers}
use bidflock.Scoring.Numbers.{Fixed-IsExponential, Fixed-IsMonotone}
use bidflock.Scoring.Rising.{IsRanked, predict_ranks}

abbrev video_rules : TargetingRules
video_rules = record {
  age_min = pos 0;
  age_max = pos 0;
  genders = [];
  interests = [];
  geos = [];
  device_types = [];
  os_types = [];
  ad_types = "video" ∷ [];
}

abbrev spring : CampaignCache Fixed
spring = record {
  id = "a";
  status = "active";
  daily_budget = dollars 1_000;
  total_budget = dollars 5_000;
  bid_ceiling = dollars 500;
  base_bid = dollars 200;
  bid_strategy = "cpm";
  targeting = video_rules;
  ad_ids = "ad1" ∷ "ad2" ∷ [];
  start_date = pos 0;
  end_date = pos 0;
}

abbrev start : Table
start = λ k. if str_eq k "campaign:a" then some spring else none

abbrev request : ScoreRequest
request = record {
  request_id = "r1";
  bid_request = record {
    id = "r1";
    user_id = "u";
    geo = "US";
    device_type = "ios";
    ssp_id = "ssp";
    interests = [];
  };
  campaign_ids = "b" ∷ "a" ∷ [];
}

score_ads-Covers_example :
    ((score_ads store request start).0.request_id ≡ "r1")
    × Covers (entries_for start ("b" ∷ "a" ∷ [])) (score_ads store request start).0.scores
score_ads-Covers_example =
    score_ads-Covers Fixed-IsOrdered store store-IsStore (λ k w. refl) request start

abbrev features : FeatureVector Fixed
features = record {
  age_group = dollars 100;
  gender_male = dollars 0;
  geo_us = dollars 100;
  device_mobile = dollars 100;
  ad_type_banner = dollars 0;
  ad_type_video = dollars 100;
  hour_of_day = dollars 50;
  day_of_week = dollars 50;
  campaign_historical_ctr = dollars 2;
  ad_historical_ctr = dollars 2;
}

-- A better history, and an earlier hour.
abbrev better : FeatureVector Fixed
better = record features {
  hour_of_day = dollars 40;
  campaign_historical_ctr = dollars 3;
  ad_historical_ctr = dollars 5;
}

predict_ranks_example :
    IsRanked new_ctr_predictor features better × IsRanked new_cvr_predictor features better
predict_ranks_example =
    predict_ranks Fixed-IsExponential Fixed-IsMonotone features better
      (record {
        age = (refl, refl);
        gender = (refl, refl);
        geo = (refl, refl);
        device = (refl, refl);
        banner = (refl, refl);
        video = (refl, refl);
        hour = (refl, refl);
        day = (refl, refl);
        campaign_ctr = (refl, refl);
        ad_ctr = (refl, refl);
      })
      refl refl refl refl
