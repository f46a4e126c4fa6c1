-- ===== src/System/Resurrected.antt =====
-- A campaign that is deleted while an ad is created for it.
use bidflock.Prelude.{
  ℕ, zero, suc, ◌≡◌, refl, Bool, inr, ◌∙◌, inl, true, Option, none, some, String, str_eq, eq_refl,
}
use bidflock.Prelude.Float.{Float64}
use bidflock.Models.Campaign.{Ad, Campaign, campaign_updated, status_active}
use bidflock.Campaigns.Repository.{
  Result, ok, failure, from_count, find_campaign, insert_ad, replace_campaign, remove_campaign,
}
use bidflock.Campaigns.Service.{link_ad, delete_campaign, publish_event, after_removal}
use bidflock.Bidding.ActiveSet.{is_active}
use bidflock.Campaigns.Database.{Database}
use bidflock.Campaigns.Events.{PublishLog}
use bidflock.Campaigns.Documents.{Documents}
use bidflock.Bidding.ActiveSet.{RedisSets, IsReachable, active_campaigns_key}
use bidflock.System.Follower.{Feed, published, view-publish_event, publish_event_holds}
use bidflock.System.Active.{active_set, active_feed}

module _ {F : Type 0} ⦃f : Float64 F⦄ (db : Database F) (laws : PublishLog db) (docs : Documents db)
    (redis : RedisSets) (up : IsReachable redis) (start : redis.Db) where
  open db use {World, now}
  open docs use {holds, now_holds, replace_holds, replace_missing, delete_holds}

  abbrev feed : Feed F
  feed = active_feed redis up start db laws docs

  -- The set of the bidding service once it has consumed what is published.
  abbrev pub lists : World → String → Bool
  lists w j = redis.is_member (active_set redis up start (published feed w)) active_campaigns_key j

  announced :
      (c x : Campaign F) (w v : World)
      → x.id ≡ c.id
      → laws.log v ≡ laws.log w
      → lists (publish_event db campaign_updated c.id (some x) v).1 c.id ≡ is_active (some x)
  announced c x w v id same =
      view-publish_event feed w v campaign_updated c.id (some x) c.id
        (inl (inr refl, x, (refl, id))) same
      ∙ rw (eq_refl c.id) refl

  removed_holds :
      (id : String) (n : Option ℕ) (w : World)
      → (db.campaigns.delete_one id w).0 ≡ n
      → let out = after_removal db id (from_count n) (db.campaigns.delete_one id w).1 in
        out.0 ≡ ok tt → holds out.1 id ≡ none
  removed_holds id none w answer done = absurd (cc done)
  removed_holds id (some zero) w answer done = absurd (cc done)
  removed_holds id (some (suc n)) w answer done =
      publish_event_holds feed _ id none _ id ∙ delete_holds id w id ∙ rw (answer, eq_refl id) refl

  linked_missing :
      (c : Campaign F) (r : Result (Unit {0})) (ad : Ad) (w : World)
      → r ≡ ok tt
      → holds w c.id ≡ none
      → let back = (link_ad db c (r, ad) w).1 in
        (holds back c.id ≡ none) × (lists back c.id ≡ str_eq c.status status_active)
  unfolding replace_campaign
  linked_missing c (failure e) ad w done gone = absurd (cc done)
  linked_missing c (ok _) ad w done gone =
      let gone' = now_holds w c.id ∙ gone in
      (
        publish_event_holds feed _ c.id _ _ c.id
            ∙ replace_holds c.id _ (now w).1 c.id
            ∙ rw (replace_missing c.id _ (now w).1 gone') gone',
        announced c _ (now w).1 _ refl (laws.replace_log c.id _ (now w).1),
      )

  -- A deleted campaign comes back into the set of active campaigns: if CreateAd has found an active
  -- campaign and inserted its ad, and another request deletes the campaign before CreateAd goes on,
  -- then CreateAd publishes an update event although its replacement meets no document, and once the
  -- events are consumed, with every SADD and SREM successful, the set lists a campaign that MongoDB
  -- does not hold.
  pub deleted_campaign_returns :
      (ad : Ad) (c : Campaign F) (w : World)
      → (find_campaign db ad.campaign_id w).0 ≡ ok c
      → c.status ≡ status_active
      → let inserted = insert_ad db ad (find_campaign db ad.campaign_id w).1 in
        let deleted = delete_campaign db c.id inserted.1 in
        inserted.0.0 ≡ ok tt
        → deleted.0 ≡ ok tt
        → let back = (link_ad db c inserted.0 deleted.1).1 in
          (holds back c.id ≡ none) × (lists back c.id ≡ true)
  unfolding delete_campaign remove_campaign
  deleted_campaign_returns ad c w found active inserted deleted =
      let u = (insert_ad db ad (find_campaign db ad.campaign_id w).1) in
      let gone = removed_holds c.id _ u.1 refl deleted in
      let (missing, listed) = linked_missing c u.0.0 u.0.1 _ inserted gone in
      (missing, listed ∙ rw active (eq_refl status_active))
