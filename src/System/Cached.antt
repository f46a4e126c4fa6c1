-- ===== src/System/Cached.antt =====
-- The campaign cache of the scoring service as a follower of the campaign events.
use bidflock.Prelude.{
  ◌≡◌, ◌≢◌, refl, sym, ap, ◌∙◌, inl, inr, Bool, true, false, Option, none, some, List, [], ◌∷◌,
  ◌++◌, map, String, str_eq, if◌then◌else◌, Bool-cases,
}
use bidflock.Prelude.Float.{Float64}
use bidflock.Models.Campaign.{Campaign, CampaignCache, CampaignEvent, campaign_deleted}
use bidflock.Campaigns.Database.{Database}
use bidflock.Campaigns.Events.{PublishLog}
use bidflock.Campaigns.Documents.{Documents, Change, has_matched, perform_changes}
use bidflock.Scoring.Store.{Store, IsStore}
use bidflock.Scoring.Service.{campaign_key, to_cache}
use bidflock.Scoring.Cache.{
  after_campaign, after_event, after_events, Writes, handle_records, cache_follows_events,
}
use bidflock.System.Follower.{IsNews, Feed, IsInStep, published, map-append}
use bidflock.System.Consistent.{perform_changes-IsInStep}

-- Whether a record says something of the campaign `j`.
abbrev names_campaign : {F : Type 0} → String → Option (Campaign F) → Bool
names_campaign j none = false
names_campaign j (some c) = str_eq c.id j

abbrev is_about : {F : Type 0} → String → Option (CampaignEvent F) → Bool
is_about j none = false
is_about j (some e) =
    if str_eq e.event_type campaign_deleted
    then str_eq e.campaign_id j
    else names_campaign j e.campaign

-- The records about one campaign.
abbrev pub about :
    {F : Type 0} → String → List (Option (CampaignEvent F)) → List (Option (CampaignEvent F))
about j [] = []
about j (r ∷ rs) = let rest = about j rs in if is_about j r then r ∷ rest else rest

module _ {F : Type 0} ⦃f : Float64 F⦄ where
  -- What is to be cached of a stored campaign.
  abbrev pub cache_of : Option (Campaign F) → Option (CampaignCache F)
  cache_of none = none
  cache_of (some c) = some (to_cache c)

  after_campaign_other :
      (j : String) (o : Option (Campaign F)) (old : Option (CampaignCache F))
      → names_campaign j o ≡ false
      → after_campaign j o old ≡ old
  after_campaign_other j none old e = refl
  after_campaign_other j (some c) old e = rw e refl

  after_event_other :
      (j : String) (r : Option (CampaignEvent F)) (old : Option (CampaignCache F))
      → is_about j r ≡ false
      → after_event j r old ≡ old
  after_event_other j none old e = refl
  after_event_other j (some r) old e = by_type (str_eq r.event_type campaign_deleted) e
    where
      by_type :
          (b : Bool)
          → (if b then str_eq r.campaign_id j else names_campaign j r.campaign) ≡ false
          → (if b
              then (if str_eq r.campaign_id j then none else old)
              else after_campaign j r.campaign old)
            ≡ old
      by_type true e = rw e refl
      by_type false e = after_campaign_other j r.campaign old e

  after_events-about :
      (j : String) (rs : List (Option (CampaignEvent F))) (old : Option (CampaignCache F))
      → after_events j rs old ≡ after_events j (about j rs) old
  after_events-about j [] old = refl
  after_events-about j (r ∷ rs) old = elim (Bool-cases (is_about j r)) [
    | inl e ↦
        after_events-about j rs (after_event j r old)
        ∙ ap (λ b. after_events j (if b then r ∷ about j rs else about j rs) old) (sym e)
    | inr e ↦
        ap (after_events j rs) (after_event_other j r old e)
        ∙ after_events-about j rs old
        ∙ ap (λ b. after_events j (if b then r ∷ about j rs else about j rs) old) (sym e)
  ]

  after_events-append :
      (j : String) (xs ys : List (Option (CampaignEvent F))) (old : Option (CampaignCache F))
      → after_events j (xs ++ ys) old ≡ after_events j ys (after_events j xs old)
  after_events-append j [] ys old = refl
  after_events-append j (x ∷ xs) ys old = after_events-append j xs ys (after_event j x old)

  news_lem :
      (e : CampaignEvent F) (j : String) (old : Option (CampaignCache F))
      → IsNews e.event_type e.campaign_id e.campaign
      → after_event j (some e) old ≡ (if str_eq e.campaign_id j then cache_of e.campaign else old)
  news_lem e j old (inl (inl t, c, (told, id))) = rw (t, told, id) refl
  news_lem e j old (inl (inr t, c, (told, id))) = rw (t, told, id) refl
  news_lem e j old (inr (t, gone)) = rw (t, gone) refl

  module _ (start : String → Option (CampaignCache F)) where
    -- The cache, from what it was before any event.
    abbrev pub cache : List (CampaignEvent F) → String → Option (CampaignCache F)
    cache es j = after_events j (map some es) (start j)

    pub cache_last :
        (es : List (CampaignEvent F)) (e : CampaignEvent F) (j : String)
        → IsNews e.event_type e.campaign_id e.campaign
        → cache (es ++ (e ∷ [])) j
          ≡ (if str_eq e.campaign_id j then cache_of e.campaign else cache es j)
    cache_last es e j news =
        ap (λ rs. after_events j rs (start j)) (map-append some es (e ∷ []))
        ∙ after_events-append j (map some es) (some e ∷ []) (start j)
        ∙ news_lem e j (cache es j) news

    abbrev pub cache_feed : (db : Database F) → PublishLog db → Documents db → Feed F
    cache_feed db laws docs = record {
      db = db;
      laws = laws;
      docs = docs;
      follower = record {
        View = Option (CampaignCache F);
        of = cache_of;
        follow = cache;
        follow_last = cache_last;
      };
    }

-- The whole path of a campaign to the scoring service: any calls of CreateCampaign, UpdateCampaign,
-- DeleteCampaign and CreateAd, one after the other and from a state in step. Once the scoring service
-- has handled records which are, for each campaign, the published events about it in order, whatever
-- lies between them, it has cached each campaign that MongoDB holds, with its values, and no other.
-- Every write to the cache succeeds, Kafka takes every event, a replacement of a stored campaign
-- succeeds, and any other write that MongoDB answers by an error has changed nothing.
pub cache_catches_up :
    {F : Type 0} ⦃f : Float64 F⦄ (db : Database F) (laws : PublishLog db) (docs : Documents db)
    (answers : (id : String) (c : Campaign F) (w : db.World)
      → c.id ≡ id
      → docs.holds w id ≢ none
      → has_matched (db.campaigns.replace_one id c w).0 ≡ true)
    (store : Store F) (cached : IsStore store) (writes : Writes store cached)
    (changes : List (Change F)) (w : db.World) (v : store.World)
    (rs : List (Option (CampaignEvent F)))
    → let feed = cache_feed (λ j. store.cached v (campaign_key j)) db laws docs in
      IsInStep feed w
      → let w' = perform_changes db changes w in
        ((j : String) → about j rs ≡ about j (map some (published feed w')))
        → (id : String)
        → store.cached (handle_records store cached rs v) (campaign_key id)
          ≡ cache_of (docs.holds w' id)
cache_catches_up db laws docs answers store cached writes changes w v rs step same id =
    let start = λ (j : String). store.cached v (campaign_key j) in
    let feed = cache_feed start db laws docs in
    let w' = perform_changes db changes w in
    cache_follows_events store cached writes id rs v
    ∙ after_events-about id rs (start id)
    ∙ ap (λ l. after_events id l (start id)) (same id)
    ∙ sym (after_events-about id (map some (published feed w')) (start id))
    ∙ perform_changes-IsInStep feed (inr answers) changes w step id
