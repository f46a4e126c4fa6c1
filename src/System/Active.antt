-- ===== src/System/Active.antt =====
-- The set of active campaigns of the bidding service as a follower of the campaign events.
use bidflock.Prelude.{
  ◌≡◌, refl, ap, ◌∙◌, inl, inr, Bool, some, List, [], ◌∷◌, ◌++◌, map, String, str_eq, if◌then◌else◌,
}
use bidflock.Models.Campaign.{CampaignEvent}
use bidflock.Campaigns.Database.{Database}
use bidflock.Campaigns.Events.{PublishLog}
use bidflock.Campaigns.Documents.{Documents}
use bidflock.Bidding.ActiveSet.{
  RedisSets, IsReachable, active_campaigns_key, is_active, verdict, sync_campaign,
  sync_campaign_ids_lem, consume, consume-append,
}
use bidflock.System.Follower.{IsNews, Follower, Feed, map-append}

module _ {F : Type 0} (redis : RedisSets) (up : IsReachable redis) (start : redis.Db) where
  -- The set, from what it was before any event.
  abbrev pub active_set : List (CampaignEvent F) → redis.Db
  active_set es = consume redis (map some es) start

  abbrev pub is_listed : List (CampaignEvent F) → String → Bool
  is_listed es j = redis.is_member (active_set es) active_campaigns_key j

  verdict_of :
      (e : CampaignEvent F) (old : Bool)
      → IsNews e.event_type e.campaign_id e.campaign
      → verdict redis e old ≡ is_active e.campaign
  verdict_of e old (inl (inl t, c, told)) = rw t refl
  verdict_of e old (inl (inr t, c, told)) = rw t refl
  verdict_of e old (inr (t, gone)) = rw (t, gone) refl

  pub is_listed_last :
      (es : List (CampaignEvent F)) (e : CampaignEvent F) (j : String)
      → IsNews e.event_type e.campaign_id e.campaign
      → is_listed (es ++ (e ∷ [])) j
        ≡ (if str_eq e.campaign_id j then is_active e.campaign else is_listed es j)
  unfolding consume sync_campaign
  is_listed_last es e j news =
      let listed : redis.Db → Bool = λ d. redis.is_member d active_campaigns_key j in
      ap (λ rs. listed (consume redis rs start)) (map-append some es (e ∷ []))
      ∙ ap listed (consume-append redis (map some es) (some e ∷ []) start)
      ∙ sync_campaign_ids_lem redis up e (active_set es) j
      ∙ ap (λ b. if str_eq e.campaign_id j then b else is_listed es j)
          (verdict_of e (is_listed es j) news)

  -- A campaign is to be listed if it is active.
  abbrev pub active_follower : Follower F
  active_follower = record {
    View = Bool;
    of = is_active;
    follow = is_listed;
    follow_last = is_listed_last;
  }

  abbrev pub active_feed : (db : Database F) → PublishLog db → Documents db → Feed F
  active_feed db laws docs = record {
    db = db;
    laws = laws;
    docs = docs;
    follower = active_follower;
  }
