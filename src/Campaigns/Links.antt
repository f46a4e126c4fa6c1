-- ===== src/Campaigns/Links.antt =====
-- How `CreateAd` links the ad to its campaign.
use bidflock.Prelude.{
  ◌≡◌, refl, ◌∙◌, Bool, true, false, some, [], ◌∷◌, ◌++◌, String, str_eq, if◌then◌else◌,
}
use bidflock.Prelude.State.{Act}
use bidflock.Prelude.Float.{Float64}
use bidflock.Models.Campaign.{Ad, Campaign, Time, campaign_updated}
use bidflock.Campaigns.Database.{Database, Found, document, no_documents, query_error}
use bidflock.Campaigns.Repository.{
  bad_request, Result, ok, failure, from_find, find_campaign, insert_ad, replace_campaign,
}
use bidflock.Campaigns.Service.{link_ad, insert_into, create_ad}
use bidflock.Campaigns.Events.{PublishLog, PublishesOne, publish_event-PublishesOne}

module _ {F : Type 0} ⦃f : Float64 F⦄ (db : Database F) (laws : PublishLog db) where
  open db use {World, now, new_uuid}
  open laws use {log, now_log, uuid_log, find_log, insert_ad_log, replace_log}

  abbrev with_ad : Campaign F → String → Time → Campaign F
  with_ad c ad t = record c { ad_ids = c.ad_ids ++ (ad ∷ []); updated_at = t }

  -- The campaign `c` is announced with the ad in its list.
  abbrev pub Announces : Campaign F → World → Result Ad × World → Type 0
  Announces c w (failure e, w') = log w' ≡ log w
  Announces c w (ok ad, w') =
      (t : Time) × PublishesOne db laws campaign_updated c.id (some (with_ad c ad.id t)) w w'

  abbrev IsFailure : Result Ad → Type 0
  IsFailure (failure _) = Unit
  IsFailure (ok _) = true ≡ false

  -- The look-up of the ad's campaign decides.
  abbrev FoundLinks : Found (Campaign F) → World → Result Ad × World → Type 0
  FoundLinks (document c) w out = Announces c w out
  FoundLinks no_documents w out = (log out.1 ≡ log w) × IsFailure out.0
  FoundLinks query_error w out = (log out.1 ≡ log w) × IsFailure out.0

  abbrev LinksIf : Bool → Ad → World → Result Ad × World → Type 0
  LinksIf true req w out = out ≡ (failure bad_request, w)
  LinksIf false req w out =
      FoundLinks (db.campaigns.find_one req.campaign_id (new_uuid w).1).0 w out

  abbrev pub Links : Ad → World → Result Ad × World → Type 0
  Links req w out = LinksIf (str_eq req.landing_url "") req w out

  link_ad-Announces :
      (c : Campaign F) (r : Result (Unit {0})) (ad : Ad) (w v : World)
      → log v ≡ log w
      → Announces c w (link_ad db c (r, ad) v)
  unfolding replace_campaign
  link_ad-Announces c (failure e) ad w v same = same
  link_ad-Announces c (ok _) ad w v same = (
    (now v).0,
    publish_event-PublishesOne db laws campaign_updated c.id (some (with_ad c ad.id (now v).0)) w _
        (replace_log c.id _ (now v).1 ∙ now_log v ∙ same),
  )

  insert_into-FoundLinks :
      (ad : Ad) (o : Found (Campaign F)) (w v : World)
      → log v ≡ log w
      → FoundLinks o w (insert_into db ad (from_find o) v)
  unfolding insert_ad
  insert_into-FoundLinks ad (document c) w v same =
      link_ad-Announces c _ _ w _ (insert_ad_log _ _ ∙ now_log _ ∙ now_log v ∙ same)
  insert_into-FoundLinks ad no_documents w v same = (same, tt)
  insert_into-FoundLinks ad query_error w v same = (same, tt)

  -- CreateAd refuses an ad without a landing URL as a bad request, without effect. Otherwise it answers with an ad only if the ad's
  -- campaign is found, and then publishes exactly one update event, with that campaign, the new ad
  -- appended to its list; if it fails it publishes nothing.
  pub create_ad-Links : (req : Ad) (w : World) → Links req w (create_ad db req w)
  unfolding create_ad find_campaign
  create_ad-Links req w = by_url (str_eq req.landing_url "")
    where
      add : Act World (Result Ad)
      add v =
          let o = db.campaigns.find_one req.campaign_id (new_uuid v).1 in
          insert_into db (record req { id = (new_uuid v).0 }) (from_find o.0) o.1

      refuse : Act World (Result Ad)
      refuse v = (failure bad_request, v)

      by_url :
          (b : Bool)
          → LinksIf b req w (let act : Act World (Result Ad) = if b then refuse else add in act w)
      by_url true = refl
      by_url false =
          let o = db.campaigns.find_one req.campaign_id (new_uuid w).1 in
          insert_into-FoundLinks (record req { id = (new_uuid w).0 }) o.0 w o.1
            (find_log req.campaign_id (new_uuid w).1 ∙ uuid_log w)
