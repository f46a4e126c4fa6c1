-- ===== src/Campaigns/Service.antt =====
-- internal/campaign/service.go, with a publisher configured.
use bidflock.Prelude.{
  ℕ, Bool, true, false, not, ◌||◌, Option, none, some, List, [], ◌∷◌, ◌++◌, String, str_eq, ltb,
  leb, if◌then◌else◌,
}
use bidflock.Prelude.Int.{ℤ, pos, negsuc}
use bidflock.Prelude.State.{Act, ◌>>=◌, ◌>>◌, pure}
use bidflock.Prelude.Float.{Float64}
use bidflock.Models.Campaign.{
  Advertiser, Ad, Campaign, CampaignEventType, CampaignStatus, is_zero, before, unix_milli,
  status_draft, campaign_created, campaign_updated, campaign_deleted,
}
use bidflock.Campaigns.Database.{Database}
use bidflock.Campaigns.Repository.{
  bad_request, Result, ok, failure, insert_advertiser, find_advertisers, insert_campaign,
  find_campaign, replace_campaign, remove_campaign, find_campaigns, insert_ad, replace_ad,
}

-- A limit that is out of range counts as 20. An offset is passed on.
abbrev pub page_limit : ℤ → ℕ
page_limit (negsuc _) = 20
page_limit (pos n) = if leb n 0 || ltb 100 n then 20 else n

abbrev pub campaign_topic : String
campaign_topic = "campaign-updates"

module _ {F : Type 0} ⦃f : Float64 F⦄ where
  open f use {lit, le}

  -- The conditions of `validateCampaign` before it reads the clock.
  unfoldable pub is_complete : Campaign F → Bool
  is_complete c =
      if str_eq c.name ""
      then false
      else if str_eq c.advertiser_id ""
      then false
      else if le c.daily_budget (lit 0 0)
      then false
      else if le c.base_bid (lit 0 0)
      then false
      else if is_zero c.end_date
      then false
      else true

  module _ (db : Database F) where
    open db use {World, now, new_uuid, publish}

    -- `validateCampaign`: whether it returns no error.
    unfoldable pub validate_campaign : Campaign F → Act World Bool
    unfolding is_complete
    validate_campaign c =
        if is_complete c then (do t ← now; pure (not (before c.end_date t))) else pure false

    unfoldable pub create_advertiser : Advertiser → Act World (Result Advertiser)
    unfolding insert_advertiser
    create_advertiser req =
        if str_eq req.name ""
        then pure (failure bad_request)
        else (do id ← new_uuid; r ← insert_advertiser db (record req { id = id }); pure (done r))
      where
        done : Result (Unit {0}) × Advertiser → Result Advertiser
        done (ok _, adv) = ok adv
        done (failure e, _) = failure e

    -- A failure to publish is only logged.
    unfoldable pub publish_event :
        CampaignEventType → String → Option (Campaign F) → Act World (Unit {0})
    publish_event event_type id c = do
      t ← now
      publish campaign_topic id (record {
        event_type = event_type;
        campaign_id = id;
        campaign = c;
        timestamp = unix_milli t;
      })
      pure tt

    abbrev pub after_write :
        CampaignEventType → Result (Unit {0}) × Campaign F → Act World (Result (Campaign F))
    after_write event_type (failure e, _) = pure (failure e)
    after_write event_type (ok _, c) = publish_event event_type c.id (some c) >> pure (ok c)

    abbrev pub with_status : Campaign F → Campaign F
    with_status c = if str_eq c.status "" then record c { status = status_draft } else c

    unfoldable pub store_campaign : Campaign F → Act World (Result (Campaign F))
    unfolding insert_campaign publish_event
    store_campaign req = do
      id ← new_uuid
      r ← insert_campaign db (with_status (record req { id = id }))
      after_write campaign_created r

    unfoldable pub create_campaign : Campaign F → Act World (Result (Campaign F))
    unfolding validate_campaign store_campaign
    create_campaign req = do
      valid ← validate_campaign req
      if valid then store_campaign req else pure (failure bad_request)

    unfoldable pub rewrite_campaign : String → Campaign F → Act World (Result (Campaign F))
    unfolding replace_campaign publish_event
    rewrite_campaign id req = do
      r ← replace_campaign db id (record req { id = id })
      after_write campaign_updated r

    unfoldable pub update_campaign : String → Campaign F → Act World (Result (Campaign F))
    unfolding validate_campaign rewrite_campaign
    update_campaign id req = do
      valid ← validate_campaign req
      if valid then rewrite_campaign id req else pure (failure bad_request)

    abbrev pub after_removal : String → Result (Unit {0}) → Act World (Result (Unit {0}))
    after_removal id (failure e) = pure (failure e)
    after_removal id (ok _) = publish_event campaign_deleted id none >> pure (ok tt)

    unfoldable pub delete_campaign : String → Act World (Result (Unit {0}))
    unfolding remove_campaign publish_event
    delete_campaign id = do r ← remove_campaign db id; after_removal id r

    unfoldable pub list_campaigns :
        String → CampaignStatus → ℤ → ℤ → Act World (Result (List (Campaign F)))
    unfolding find_campaigns
    list_campaigns advertiser_id status limit offset =
        find_campaigns db advertiser_id status
          (record { limit = page_limit limit; offset = offset })

    unfoldable pub list_advertisers : ℤ → ℤ → Act World (Result (List Advertiser))
    unfolding find_advertisers
    list_advertisers limit offset =
        find_advertisers db (record { limit = page_limit limit; offset = offset })

    -- The result of the campaign's update is ignored, and the event is published in any case.
    abbrev pub link_ad : Campaign F → Result (Unit {0}) × Ad → Act World (Result Ad)
    link_ad c (failure e, _) = pure (failure e)
    link_ad c (ok _, ad) = do
      let linked = record c { ad_ids = c.ad_ids ++ (ad.id ∷ []) }
      r ← replace_campaign db c.id linked
      publish_event campaign_updated c.id (some r.1)
      pure (ok ad)

    abbrev pub insert_into : Ad → Result (Campaign F) → Act World (Result Ad)
    insert_into ad (failure e) = pure (failure e)
    insert_into ad (ok c) = insert_ad db ad >>= link_ad c

    unfoldable pub create_ad : Ad → Act World (Result Ad)
    unfolding find_campaign insert_ad replace_campaign publish_event
    create_ad req = if str_eq req.landing_url "" then pure (failure bad_request) else (do
      id ← new_uuid
      c ← find_campaign db req.campaign_id
      insert_into (record req { id = id }) c)

    abbrev pub written : Result (Unit {0}) × Ad → Result Ad
    written (ok _, ad) = ok ad
    written (failure e, _) = failure e

    unfoldable pub update_ad : String → Ad → Act World (Result Ad)
    unfolding replace_ad
    update_ad id req = do r ← replace_ad db id (record req { id = id }); pure (written r)
