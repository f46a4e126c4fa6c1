-- ===== src/Scoring/Service.antt =====
-- internal/scoring/service.go: `ScoreAds`, `SyncCampaign` and `HandleKafkaRecord`.
use bidflock.Prelude.{
  Bool, true, false, ◌&&◌, Option, none, some, List, [], ◌∷◌, ◌++◌, String, str_eq, if◌then◌else◌,
}
use bidflock.Prelude.State.{Act, ◌>>=◌, pure}
use bidflock.Prelude.Float.{Float64}
use bidflock.Prelude.Text.{concat}
use bidflock.Models.Campaign.{Campaign, CampaignCache, CampaignEvent, campaign_deleted, unix}
use bidflock.Models.Messages.{AdScore, BidContext, ScoreRequest, ScoreResponse}
use bidflock.Scoring.Store.{Store}
use bidflock.Scoring.Predictor.{FeatureVector, new_ctr_predictor, new_cvr_predictor, predict}
use bidflock.Scoring.Feature.{ad_type_from_campaign, assemble}

-- keyCampaignCache
abbrev pub campaign_key : String → String
campaign_key id = concat "campaign:" id

module _ {F : Type 0} ⦃f : Float64 F⦄ where
  open f use {lit, mul, lt}

  unfoldable pub effective_bid_of : CampaignCache F → F → F
  effective_bid_of c ctr =
      let bid = mul (mul c.base_bid ctr) (lit 1000 0) in
      if lt (lit 0 0) c.bid_ceiling && lt c.bid_ceiling bid then c.bid_ceiling else bid

  unfoldable pub ad_score : String → CampaignCache F → String → FeatureVector F → AdScore F
  unfolding effective_bid_of predict ad_type_from_campaign
  ad_score campaign_id c ad_id assembled =
      let kinds = ad_type_from_campaign c in
      let fv = record assembled { ad_type_banner = kinds.0; ad_type_video = kinds.1 } in
      let ctr = predict new_ctr_predictor fv in
      let bid = effective_bid_of c ctr in
      record {
        campaign_id = campaign_id;
        ad_id = ad_id;
        predicted_ctr = ctr;
        predicted_cvr = predict new_cvr_predictor fv;
        effective_bid = bid;
        quality_score = mul ctr bid;
      }

  abbrev pub to_cache : Campaign F → CampaignCache F
  to_cache c = record {
    id = c.id;
    status = c.status;
    daily_budget = c.daily_budget;
    total_budget = c.total_budget;
    bid_ceiling = c.bid_ceiling;
    base_bid = c.base_bid;
    bid_strategy = c.bid_strategy;
    targeting = c.targeting;
    ad_ids = c.ad_ids;
    start_date = unix c.start_date;
    end_date = unix c.end_date;
  }

  module _ (store : Store F) where
    open store use {World, get_campaign, set_campaign, del}

    -- The scores of a campaign's ads; `scored` are those before them.
    unfoldable pub score_campaign :
        BidContext
        → String
        → CampaignCache F
        → List String
        → List (AdScore F)
        → Act World (List (AdScore F))
    unfolding ad_score assemble
    score_campaign req id c [] scored = pure scored
    score_campaign req id c (ad ∷ ads) scored = do
      fv ← assemble store req id ad
      score_campaign req id c ads (scored ++ (ad_score id c ad fv ∷ []))

    abbrev pub score_cached :
        BidContext
        → String
        → Option (CampaignCache F)
        → List (AdScore F)
        → Act World (List (AdScore F))
    score_cached req id none scored = pure scored
    score_cached req id (some c) scored = score_campaign req id c c.ad_ids scored

    -- The loop of `ScoreAds`: a campaign that is not cached is skipped.
    unfoldable pub score_campaigns :
        BidContext → List String → List (AdScore F) → Act World (List (AdScore F))
    unfolding score_campaign
    score_campaigns req [] scored = pure scored
    score_campaigns req (id ∷ ids) scored = do
      c ← get_campaign (campaign_key id)
      more ← score_cached req id c scored
      score_campaigns req ids more

    unfoldable pub score_ads : ScoreRequest → Act World (ScoreResponse F)
    unfolding score_campaigns
    score_ads req = do
      scores ← score_campaigns req.bid_request req.campaign_ids []
      pure (record { request_id = req.request_id; scores = scores })

    abbrev pub cache_campaign : Option (Campaign F) → Act World Bool
    cache_campaign none = pure true
    cache_campaign (some c) = set_campaign (campaign_key c.id) (to_cache c)

    -- `SyncCampaign`: whether it succeeded.
    unfoldable pub sync_cache : CampaignEvent F → Act World Bool
    sync_cache event =
        if str_eq event.event_type campaign_deleted
        then del (campaign_key event.campaign_id)
        else cache_campaign event.campaign

    -- `HandleKafkaRecord` on a record's decoded value; `none` is no JSON of an event.
    unfoldable pub handle_cache_record : Option (CampaignEvent F) → Act World Bool
    unfolding sync_cache
    handle_cache_record none = pure false
    handle_cache_record (some event) = sync_cache event
