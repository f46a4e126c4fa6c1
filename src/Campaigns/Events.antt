-- ===== src/Campaigns/Events.antt =====
-- Which campaign events the operations publish.
use bidflock.Prelude.{
  ◌≡◌, refl, ap, ◌∙◌, Bool, Option, none, some, List, [], ◌∷◌, ◌++◌, String, if-intro,
}
use bidflock.Prelude.Int.{ℤ}
use bidflock.Prelude.State.{Act}
use bidflock.Prelude.Float.{Float64}
use bidflock.Models.Campaign.{
  Ad, Campaign, CampaignEvent, CampaignEventType, unix_milli, campaign_created, campaign_updated,
  campaign_deleted,
}
use bidflock.Campaigns.Database.{Database}
use bidflock.Campaigns.Repository.{
  Result, ok, failure, insert_campaign, replace_campaign, remove_campaign, from_count,
}
use bidflock.Campaigns.Service.{
  campaign_topic, is_complete, validate_campaign, publish_event, after_write, after_removal,
  store_campaign, create_campaign, rewrite_campaign, update_campaign, delete_campaign,
}

-- A log of the calls of the producer: only they write it.
pub record PublishLog {F : Type 0} (db : Database F) : Type 1 where
  pub log : db.World → List (String × (String × CampaignEvent F))
  pub now_log : (w : db.World) → log (db.now w).1 ≡ log w
  pub uuid_log : (w : db.World) → log (db.new_uuid w).1 ≡ log w
  pub insert_log : (c : Campaign F) (w : db.World) → log (db.campaigns.insert_one c w).1 ≡ log w
  pub find_log : (id : String) (w : db.World) → log (db.campaigns.find_one id w).1 ≡ log w
  pub insert_ad_log : (a : Ad) (w : db.World) → log (db.ads.insert_one a w).1 ≡ log w
  pub replace_log :
      (id : String) (c : Campaign F) (w : db.World)
      → log (db.campaigns.replace_one id c w).1 ≡ log w
  pub delete_log : (id : String) (w : db.World) → log (db.campaigns.delete_one id w).1 ≡ log w
  pub publish_log :
      (topic key : String) (e : CampaignEvent F) (w : db.World)
      → log (db.publish topic key e w).1 ≡ log w ++ ((topic, (key, e)) ∷ [])

module _ {F : Type 0} ⦃f : Float64 F⦄ (db : Database F) (laws : PublishLog db) where
  open db use {World, now, new_uuid, publish}
  open laws use {log, now_log, uuid_log, insert_log, replace_log, delete_log, publish_log}

  -- One event is published, on the topic and under the campaign's identifier, at some time.
  abbrev pub PublishesOne :
      CampaignEventType → String → Option (Campaign F) → World → World → Type 0
  PublishesOne event_type id c w w' =
      (t : ℤ) × (log w'
        ≡ log w
          ++ ((
            campaign_topic,
            (id, record { event_type = event_type; campaign_id = id; campaign = c; timestamp = t }),
          )
              ∷ []))

  -- A success publishes the campaign that it returns, a failure nothing.
  abbrev pub PublishesResult : CampaignEventType → World → Result (Campaign F) × World → Type 0
  PublishesResult event_type w (failure e, w') = log w' ≡ log w
  PublishesResult event_type w (ok c, w') = PublishesOne event_type c.id (some c) w w'

  abbrev pub PublishesRemoval : String → World → Result (Unit {0}) × World → Type 0
  PublishesRemoval id w (failure e, w') = log w' ≡ log w
  PublishesRemoval id w (ok _, w') = PublishesOne campaign_deleted id none w w'

  pub publish_event-PublishesOne :
      (event_type : CampaignEventType) (id : String) (c : Option (Campaign F)) (w v : World)
      → log v ≡ log w
      → PublishesOne event_type id c w (publish_event db event_type id c v).1
  unfolding publish_event
  publish_event-PublishesOne event_type id c w v same =
      let event : CampaignEvent F = record {
        event_type = event_type;
        campaign_id = id;
        campaign = c;
        timestamp = unix_milli (now v).0;
      } in
      (
        unix_milli (now v).0,
        publish_log campaign_topic id event (now v).1
            ∙ ap (λ l. l ++ ((campaign_topic, (id, event)) ∷ [])) (now_log v ∙ same),
      )

  after_write-PublishesResult :
      (event_type : CampaignEventType) (r : Result (Unit {0})) (c : Campaign F) (w v : World)
      → log v ≡ log w
      → PublishesResult event_type w (after_write db event_type (r, c) v)
  after_write-PublishesResult event_type (failure e) c w v same = same
  after_write-PublishesResult event_type (ok _) c w v same =
      publish_event-PublishesOne event_type c.id (some c) w v same

  after_removal-PublishesRemoval :
      (id : String) (r : Result (Unit {0})) (w v : World)
      → log v ≡ log w
      → PublishesRemoval id w (after_removal db id r v)
  after_removal-PublishesRemoval id (failure e) w v same = same
  after_removal-PublishesRemoval id (ok _) w v same =
      publish_event-PublishesOne campaign_deleted id none w v same

  validate_log : (c : Campaign F) (w : World) → log (validate_campaign db c w).1 ≡ log w
  unfolding validate_campaign
  validate_log c w =
      if-intro {A = Act World Bool} (λ act. log (act w).1 ≡ log w) (is_complete c) (λ _. now_log w)
        (λ _. refl)

  store-PublishesResult :
      (req : Campaign F) (w v : World)
      → log v ≡ log w
      → PublishesResult campaign_created w (store_campaign db req v)
  unfolding store_campaign insert_campaign
  store-PublishesResult req w v same =
      after_write-PublishesResult campaign_created _ _ w _
        (insert_log _ _ ∙ now_log _ ∙ now_log _ ∙ uuid_log v ∙ same)

  rewrite-PublishesResult :
      (id : String) (req : Campaign F) (w v : World)
      → log v ≡ log w
      → PublishesResult campaign_updated w (rewrite_campaign db id req v)
  unfolding rewrite_campaign replace_campaign
  rewrite-PublishesResult id req w v same =
      after_write-PublishesResult campaign_updated _ _ w _ (replace_log _ _ _ ∙ now_log v ∙ same)

  create-PublishesResult :
      (req : Campaign F) (w : World) → PublishesResult campaign_created w (create_campaign db req w)
  unfolding create_campaign
  create-PublishesResult req w =
      let valid = validate_campaign db req w in
      if-intro {A = Act World (Result (Campaign F))}
        (λ act. PublishesResult campaign_created w (act valid.1)) valid.0
        (λ _. store-PublishesResult req w valid.1 (validate_log req w)) (λ _. validate_log req w)

  update-PublishesResult :
      (id : String) (req : Campaign F) (w : World)
      → PublishesResult campaign_updated w (update_campaign db id req w)
  unfolding update_campaign
  update-PublishesResult id req w =
      let valid = validate_campaign db req w in
      if-intro {A = Act World (Result (Campaign F))}
        (λ act. PublishesResult campaign_updated w (act valid.1)) valid.0
        (λ _. rewrite-PublishesResult id req w valid.1 (validate_log req w))
        (λ _. validate_log req w)

  -- CreateCampaign and UpdateCampaign publish exactly one event if they succeed, of their type, with
  -- the campaign that they return and under its identifier; DeleteCampaign publishes one deletion
  -- event under the identifier. A call that fails publishes nothing.
  pub changes_publish :
      (id : String) (req : Campaign F) (w : World)
      → PublishesResult campaign_created w (create_campaign db req w)
        × (PublishesResult campaign_updated w (update_campaign db id req w)
            × PublishesRemoval id w (delete_campaign db id w))
  unfolding delete_campaign remove_campaign
  changes_publish id req w = (
    create-PublishesResult req w,
    (
      update-PublishesResult id req w,
      after_removal-PublishesRemoval id (from_count (db.campaigns.delete_one id w).0) w _
          (delete_log id w),
    ),
  )
