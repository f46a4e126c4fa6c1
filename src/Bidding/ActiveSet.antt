-- ===== src/Bidding/ActiveSet.antt =====
-- `SyncCampaign` and `syncCampaignIDs` of internal/bidding/service.go: the set of active campaigns
-- that the hot path reads, kept in Redis from the campaign events.
use bidflock.Prelude.{
  ◌≡◌, ◌≢◌, refl, ◌∙◌, ◌⊎◌, Bool, true, false, ◌&&◌, ◌||◌, Option, none, some, List, [], ◌∷◌, ◌++◌,
  String, str_eq, eq_iff, eq_refl, All, arith, if◌then◌else◌,
}
use bidflock.Prelude.State.{Act}
use bidflock.Models.Campaign.{
  Campaign, CampaignEvent, CampaignEventType, status_active, campaign_created, campaign_updated,
  campaign_deleted,
}

-- Sets of strings in Redis. `is_member` is what the server holds; SADD and SREM answer whether they
-- succeed, and one that does adds or removes one member of one set.
pub record RedisSets : Type 1 where
  pub Db : Type 0
  pub sadd : String → String → Act Db Bool
  pub srem : String → String → Act Db Bool
  pub is_member : Db → String → String → Bool
  pub sadd_lem :
      (key m : String) (d : Db) (k j : String)
      → (sadd key m d).0 ≡ true
      → is_member (sadd key m d).1 k j
        ≡ (if str_eq key k && str_eq m j then true else is_member d k j)
  pub srem_lem :
      (key m : String) (d : Db) (k j : String)
      → (srem key m d).0 ≡ true
      → is_member (srem key m d).1 k j
        ≡ (if str_eq key k && str_eq m j then false else is_member d k j)

-- Every command succeeds.
pub record IsReachable (redis : RedisSets) : Type 0 where
  pub added : (key m : String) (d : redis.Db) → (redis.sadd key m d).0 ≡ true
  pub removed : (key m : String) (d : redis.Db) → (redis.srem key m d).0 ≡ true

abbrev pub active_campaigns_key : String
active_campaigns_key = "bidding:active_campaigns"

abbrev pub is_change : CampaignEventType → Bool
is_change t = str_eq t campaign_created || str_eq t campaign_updated

module _ {F : Type 0} where
  abbrev pub is_active : Option (Campaign F) → Bool
  is_active none = false
  is_active (some c) = str_eq c.status status_active

  -- The event types that `syncCampaignIDs` knows.
  abbrev pub is_decisive : CampaignEvent F → Bool
  is_decisive e = is_change e.event_type || str_eq e.event_type campaign_deleted

  module _ (redis : RedisSets) where
    open redis use {Db, sadd, srem, is_member, sadd_lem, srem_lem}

    -- The outcome of a command is not looked at.
    unfoldable pub sync_campaign_ids : CampaignEvent F → Db → Db
    sync_campaign_ids event db =
        if is_change event.event_type
        then if is_active event.campaign
          then (sadd active_campaigns_key event.campaign_id db).1
          else (srem active_campaigns_key event.campaign_id db).1
        else if str_eq event.event_type campaign_deleted
        then (srem active_campaigns_key event.campaign_id db).1
        else db

    -- `SyncCampaign` on a record's decoded value; `none` is no JSON of an event, and is an error.
    unfoldable pub sync_campaign : Option (CampaignEvent F) → Db → Db
    sync_campaign none db = db
    sync_campaign (some event) db = sync_campaign_ids event db

    -- The consumer hands over one record after the other, also after an error.
    unfoldable pub consume : List (Option (CampaignEvent F)) → Db → Db
    consume [] db = db
    consume (r ∷ rs) db = consume rs (sync_campaign r db)

    -- What an event says of its campaign: in the set, out of it, or nothing.
    abbrev pub verdict : CampaignEvent F → Bool → Bool
    verdict event old =
        if is_change event.event_type
        then is_active event.campaign
        else if str_eq event.event_type campaign_deleted
        then false
        else old

    pub sync_campaign_ids_lem :
        (up : IsReachable redis) (event : CampaignEvent F) (db : Db) (j : String)
        → is_member (sync_campaign_ids event db) active_campaigns_key j ≡ (
            if str_eq event.campaign_id j
            then verdict event (is_member db active_campaigns_key j)
            else is_member db active_campaigns_key j)
    unfolding sync_campaign_ids
    sync_campaign_ids_lem up event db j =
        let key = active_campaigns_key in
        let id = event.campaign_id in
        ground (
          arith,
          sadd_lem key id db key j (up.added key id db),
          srem_lem key id db key j (up.removed key id db),
          eq_refl active_campaigns_key,
        )

    -- A record that is no event, or an event of another campaign or of an unknown type.
    abbrev pub IsSilent : String → Option (CampaignEvent F) → Type 0
    IsSilent j none = Unit
    IsSilent j (some e) = (e.campaign_id ≢ j) ⊎ (is_decisive e ≡ false)

    pub consume-append :
        (xs ys : List (Option (CampaignEvent F))) (db : Db)
        → consume (xs ++ ys) db ≡ consume ys (consume xs db)
    unfolding consume
    consume-append [] ys db = refl
    consume-append (x ∷ xs) ys db = consume-append xs ys (sync_campaign x db)

    sync_silent :
        (up : IsReachable redis) (j : String) (r : Option (CampaignEvent F)) (db : Db)
        → IsSilent j r
        → is_member (sync_campaign r db) active_campaigns_key j
          ≡ is_member db active_campaigns_key j
    unfolding sync_campaign
    sync_silent up j none db h = refl
    sync_silent up j (some e) db h =
        ground (arith, sync_campaign_ids_lem up e db j, eq_iff e.campaign_id j)

    consume_silent :
        (up : IsReachable redis) (j : String) (rs : List (Option (CampaignEvent F))) (db : Db)
        → All (IsSilent j) rs
        → is_member (consume rs db) active_campaigns_key j ≡ is_member db active_campaigns_key j
    unfolding consume
    consume_silent up j [] db h = refl
    consume_silent up j (r ∷ rs) db h =
        consume_silent up j rs (sync_campaign r db) h.1 ∙ sync_silent up j r db h.0

    -- The last event of a campaign decides if every command succeeds: after any records before it, and any later ones that are
    -- no events or say nothing of this campaign, the campaign is in the active set exactly if that
    -- event created or updated it with the status active.
    last_event_decides :
        (up : IsReachable redis) (before after : List (Option (CampaignEvent F)))
        (e : CampaignEvent F) (db : Db)
        → is_decisive e ≡ true
        → All (IsSilent e.campaign_id) after
        → is_member (consume (before ++ (some e ∷ after)) db) active_campaigns_key e.campaign_id
          ≡ (is_change e.event_type && is_active e.campaign)
    unfolding consume sync_campaign
    last_event_decides up before after e db known quiet =
        rw
          (
            consume-append before (some e ∷ after) db,
            consume_silent up e.campaign_id after (sync_campaign_ids e (consume before db)) quiet,
            sync_campaign_ids_lem up e (consume before db) e.campaign_id,
            eq_refl e.campaign_id,
          )
          (ground arith)
