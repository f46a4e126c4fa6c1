-- ===== src/Seed/Script.antt =====
-- scripts/seed.go: `main`, a loop for each kind of object. What it prints is left out.
use bidflock.Prelude.{
  ℕ, zero, suc, ◌+◌, ◌%◌, Bool, true, false, Option, none, some, List, [], ◌∷◌, ◌++◌, String,
  str_eq, length, ltb, if◌then◌else◌,
}
use bidflock.Prelude.Int.{pos}
use bidflock.Prelude.Float.{Float64}
use bidflock.Prelude.Text.{concat, show_ℕ}
use bidflock.Prelude.Partial.{Partial, ◌>>=◌, pure, call, index, draw}
use bidflock.Models.Campaign.{
  Advertiser, Campaign, TargetingRules, Ad, status_active, ad_type_video,
}
use bidflock.Seed.Data.{
  Host, industries, geo_targets, interest_targets, ad_types, uc_first, post_json,
}

-- What the loops have made.
pub record Seeded (F : Type 0) : Type 0 where
  pub advertisers : List Advertiser
  pub campaigns : List (Campaign F)
  pub ad_count : ℕ

abbrev pub keep : {A : Type 0} → List A → Option A → List A
keep xs none = xs
keep xs (some x) = xs ++ (x ∷ [])

abbrev pub counted : {A : Type 0} → ℕ → Option A → ℕ
counted n none = n
counted n (some _) = suc n

-- `if ageMax > 65 { ageMax = 65 }`
abbrev pub capped_age : ℕ → ℕ
capped_age n = if ltb 65 n then 65 else n

module _ {F : Type 0} ⦃f : Float64 F⦄ (host : Host F) where
  open f use {lit, add, mul, lt}
  open host use {World, rng, now, months_after, days_before, new_uuid, bytes}
  open rng use {float64, intn}

  unfoldable pub advertiser_of : ℕ → String → Advertiser
  unfolding uc_first
  advertiser_of i industry = record {
    id = "";
    name = concat (uc_first bytes industry) (concat " Corp " (show_ℕ (i + 1)));
    domain = concat industry (concat (show_ℕ (i + 1)) ".example.com");
    industry = industry;
    created_at = 0;
  }

  -- The first loop, with so many turns left, from turn `i` on.
  unfoldable pub seed_advertisers : ℕ → ℕ → List Advertiser → Partial World (List Advertiser)
  unfolding advertiser_of post_json
  seed_advertisers zero i made = pure made
  seed_advertisers (suc left) i made = do
    industry ← index industries (i % length industries)
    created ← call (post_json host host.advertisers "/advertisers" (advertiser_of i industry))
    seed_advertisers left (suc i) (keep made created)

  unfoldable pub pick_device_types : Partial World (List String)
  pick_device_types = do
    r ← call float64
    pure (
        if lt r (lit 5 1)
        then "ios" ∷ "android" ∷ []
        else if lt r (lit 8 1)
        then "ios" ∷ "android" ∷ "desktop" ∷ []
        else "desktop" ∷ [])

  abbrev pub strategy_of : F → String
  strategy_of draw = if lt draw (lit 3 1) then "target_cpa" else "max_bid"

  unfoldable pub targeting_of : Partial World TargetingRules
  unfolding pick_device_types
  targeting_of = do
    g ← draw intn (length geo_targets)
    geos ← index geo_targets g
    n ← draw intn (length interest_targets)
    interests ← index interest_targets n
    low ← draw intn 20
    span ← draw intn 25
    devices ← pick_device_types
    pure (record {
      age_min = pos (18 + low);
      age_max = pos (capped_age (18 + low + 10 + span));
      genders = [];
      interests = interests;
      geos = geos;
      device_types = devices;
      os_types = [];
      ad_types = [];
    })

  unfoldable pub make_campaign : ℕ → Advertiser → Partial World (Campaign F)
  unfolding targeting_of
  make_campaign i adv = do
    x ← call float64
    y ← call float64
    z ← call float64
    targeting ← targeting_of
    started ← call now
    days ← draw intn 30
    ending ← call now
    months ← draw intn 3
    pure (
        let daily = add (lit 1000 1) (mul x (lit 99_000 1)) in
        let base = add (lit 5 1) (mul y (lit 95 1)) in
        record {
          id = "";
          advertiser_id = adv.id;
          name = concat adv.industry (concat " Campaign " (show_ℕ (i + 1)));
          status = status_active;
          bid_strategy = strategy_of z;
          daily_budget = daily;
          total_budget = mul daily (lit 30 0);
          bid_ceiling = mul base (lit 2 0);
          base_bid = base;
          targeting = targeting;
          ad_ids = [];
          start_date = days_before days started;
          end_date = months_after (months + 1) ending;
          day_parting = [];
          created_at = 0;
          updated_at = 0;
        })

  unfoldable pub seed_campaigns :
      List Advertiser → ℕ → ℕ → List (Campaign F) → Partial World (List (Campaign F))
  unfolding make_campaign post_json
  seed_campaigns advs zero i made = pure made
  seed_campaigns advs (suc left) i made = do
    adv ← index advs (i % length advs)
    c ← make_campaign i adv
    created ← call (post_json host host.campaigns "/campaigns" c)
    seed_campaigns advs left (suc i) (keep made created)

  -- The switch on the type, for the size and the URL of the video.
  abbrev pub sized : String → String → Ad → Ad
  sized ad_type id ad =
      if str_eq ad_type "banner"
      then record ad { width = pos 320; height = pos 50 }
      else if str_eq ad_type ad_type_video
      then record ad {
        width = pos 640;
        height = pos 480;
        video_url = concat "https://cdn.example.com/videos/" (concat id ".mp4");
      }
      else ad

  unfoldable pub ad_of : ℕ → Campaign F → ℕ → ℕ → String → Ad
  unfolding uc_first
  ad_of i c j ad_count ad_type = record {
    id = "";
    campaign_id = c.id;
    advertiser_id = c.advertiser_id;
    ad_type = ad_type;
    title = concat "Ad " (
        concat (show_ℕ (i + 1)) (
          concat "-"
            (concat (show_ℕ (j + 1)) (concat ": " (concat (uc_first bytes ad_type) " Offer")))));
    description = concat "Best " (concat ad_type (concat " deals — campaign " (show_ℕ (i + 1))));
    image_url =
        concat "https://cdn.example.com/creatives/"
          (concat ad_type (concat "/" (concat (show_ℕ ad_count) ".jpg")));
    video_url = "";
    landing_url =
        concat "https://landing.example.com/c/" (concat c.id (concat "/a/" (show_ℕ (j + 1))));
    width = pos 0;
    height = pos 0;
    created_at = 0;
    updated_at = 0;
  }

  -- Only an ad for a video takes an identifier.
  abbrev pub video_id : String → Partial World String
  video_id ad_type = if str_eq ad_type ad_type_video then call new_uuid else pure ""

  -- One turn of the inner loop: the number of ads after it.
  unfoldable pub seed_ad : ℕ → Campaign F → ℕ → ℕ → Partial World ℕ
  unfolding ad_of post_json
  seed_ad i c j ad_count = do
    t ← draw intn (length ad_types)
    ad_type ← index ad_types t
    id ← video_id ad_type
    created ←
        call (post_json host host.ads "/ads" (sized ad_type id (ad_of i c j ad_count ad_type)))
    pure (counted ad_count created)

  -- The inner loop, with so many turns left; it ends when there are 500 ads.
  unfoldable pub seed_ads_of : ℕ → Campaign F → ℕ → ℕ → ℕ → Partial World ℕ
  unfolding seed_ad
  seed_ads_of i c zero j ad_count = pure ad_count
  seed_ads_of i c (suc left) j ad_count =
      let next = (do more ← seed_ad i c j ad_count; seed_ads_of i c left (suc j) more) in
      if ltb ad_count 500 then next else pure ad_count

  unfoldable pub seed_ads : ℕ → List (Campaign F) → ℕ → Partial World ℕ
  unfolding seed_ads_of
  seed_ads i [] ad_count = pure ad_count
  seed_ads i (c ∷ cs) ad_count = do
    n ← draw intn 2
    more ← seed_ads_of i c (2 + n) 0 ad_count
    seed_ads (suc i) cs more

  abbrev pub nothing_seeded : Seeded F
  nothing_seeded = record { advertisers = []; campaigns = []; ad_count = 0 }

  -- `main` after its first loop; without an advertiser it exits with status 1, a result here.
  unfoldable pub seed_for : List Advertiser → Partial World (Bool × Seeded F)
  unfolding seed_campaigns seed_ads
  seed_for [] = pure (false, nothing_seeded)
  seed_for (adv ∷ advs) = do
    cs ← seed_campaigns (adv ∷ advs) 200 0 []
    n ← seed_ads 0 cs 0
    pure (true, record { advertisers = adv ∷ advs; campaigns = cs; ad_count = n })

  unfoldable pub seed : Partial World (Bool × Seeded F)
  unfolding seed_advertisers seed_for
  seed = do advs ← seed_advertisers 50 0 []; seed_for advs
