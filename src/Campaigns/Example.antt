-- ===== src/Campaigns/Example.antt =====
-- A campaign and an ad for the tests.
use bidflock.Prelude.{[]}
use bidflock.Prelude.Int.{pos}
use bidflock.Prelude.Fixed.{Fixed, dollars}
use bidflock.Models.Campaign.{Ad, Campaign, TargetingRules}

abbrev pub no_rules : TargetingRules
no_rules = record {
  age_min = pos 0;
  age_max = pos 0;
  genders = [];
  interests = [];
  geos = [];
  device_types = [];
  os_types = [];
  ad_types = [];
}

abbrev pub draft : Campaign Fixed
draft = record {
  id = "";
  advertiser_id = "adv";
  name = "spring";
  status = "";
  bid_strategy = "cpm";
  daily_budget = dollars 1_000;
  total_budget = dollars 5_000;
  bid_ceiling = dollars 500;
  base_bid = dollars 200;
  targeting = no_rules;
  ad_ids = [];
  start_date = 0;
  end_date = 64_000_000_000_000_000_000;
  day_parting = [];
  created_at = 0;
  updated_at = 0;
}

abbrev pub banner : Ad
banner = record {
  id = "";
  campaign_id = "c9";
  advertiser_id = "adv";
  ad_type = "banner";
  title = "";
  description = "";
  image_url = "";
  video_url = "";
  landing_url = "https://example.com";
  width = pos 300;
  height = pos 250;
  created_at = 0;
  updated_at = 0;
}
