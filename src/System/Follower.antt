-- ===== src/System/Follower.antt =====
-- A service that follows the campaigns from the published events, against what MongoDB holds.
use bidflock.Prelude.{
  ◌≡◌, ◌≢◌, refl, sym, ap, ◌∙◌, ◌⊎◌, Bool, true, false, Option, none, some, List, [], ◌∷◌, ◌++◌,
  map, String, str_eq, if◌then◌else◌,
}
use bidflock.Prelude.Float.{Float64}
use bidflock.Models.Campaign.{
  Campaign, CampaignEvent, CampaignEventType, campaign_created, campaign_updated, campaign_deleted,
}
use bidflock.Campaigns.Database.{Database}
use bidflock.Campaigns.Service.{campaign_topic, publish_event}
use bidflock.Campaigns.Events.{PublishLog, publish_event-PublishesOne}
use bidflock.Campaigns.Documents.{Documents, has_matched}

-- What the campaign service says in an event of this type about the campaign `id`.
abbrev pub IsNews : {F : Type 0} → CampaignEventType → String → Option (Campaign F) → Type 0
IsNews {F = F} t id o =
    (((t ≡ campaign_created) ⊎ (t ≡ campaign_updated))
      × (c : Campaign F) × ((o ≡ some c) × (c.id ≡ id)))
    ⊎ ((t ≡ campaign_deleted) × (o ≡ none))

-- A service's view of each campaign: what it is by the events so far, and what it should be for what
-- is stored. The last event about a campaign decides.
pub record Follower (F : Type 0) : Type 1 where
  pub View : Type 0
  pub of : Option (Campaign F) → View
  pub follow : List (CampaignEvent F) → String → View
  pub follow_last :
      (es : List (CampaignEvent F)) (e : CampaignEvent F) (j : String)
      → IsNews e.event_type e.campaign_id e.campaign
      → follow (es ++ (e ∷ [])) j ≡ (if str_eq e.campaign_id j then of e.campaign else follow es j)

-- The campaign service with its database, and a follower. `laws` lists what the producer was called
-- with: Kafka takes every event.
pub record Feed (F : Type 0) : Type 1 where
  pub db : Database F
  pub laws : PublishLog db
  pub docs : Documents db
  pub follower : Follower F

-- The event of a published record, and its value once it is decoded.
abbrev pub event_of : {F : Type 0} → String × (String × CampaignEvent F) → CampaignEvent F
event_of r = r.1.1

pub map-append :
    {A B : Type 0} (g : A → B) (xs ys : List A) → map g (xs ++ ys) ≡ map g xs ++ map g ys
map-append g [] ys = refl
map-append g (x ∷ xs) ys = ap (λ r. g x ∷ r) (map-append g xs ys)

module _ {F : Type 0} ⦃f : Float64 F⦄ (feed : Feed F) where
  open feed use {db, laws, docs, follower}
  open db use {World, now}
  open laws use {log}
  open docs use {holds, now_holds, publish_holds}
  open follower use {View, of, follow, follow_last}

  abbrev pub published : World → List (CampaignEvent F)
  published w = map event_of (log w)

  -- The view of the follower once it has all that is published.
  abbrev pub view : World → String → View
  view w j = follow (published w) j

  -- It is the view of what MongoDB holds.
  abbrev pub IsInStep : World → Type 0
  IsInStep w = (j : String) → view w j ≡ of (holds w j)

  -- The view depends on the status only, or a replacement of a stored campaign is always answered by
  -- success.
  abbrev pub IsSteady : Type 0
  IsSteady =
      ((c x : Campaign F) → x.status ≡ c.status → of (some x) ≡ of (some c))
      ⊎ ((id : String) (c : Campaign F) (w : World)
          → c.id ≡ id
          → holds w id ≢ none
          → has_matched (db.campaigns.replace_one id c w).0 ≡ true)

  pub unchanged-IsInStep :
      (w v : World)
      → log v ≡ log w
      → ((j : String) → holds v j ≡ holds w j)
      → IsInStep w
      → IsInStep v
  unchanged-IsInStep w v same kept h j =
      ap (λ l. follow (map event_of l) j) same ∙ h j ∙ sym (ap of (kept j))

  -- A published event decides on its campaign.
  pub view-publish_event :
      (w v : World) (t : CampaignEventType) (id : String) (c : Option (Campaign F)) (j : String)
      → IsNews t id c
      → log v ≡ log w
      → view (publish_event db t id c v).1 j ≡ (if str_eq id j then of c else view w j)
  view-publish_event w v t id c j news same =
      let (at, grown) = publish_event-PublishesOne db laws t id c w v same in
      let e : CampaignEvent F = record {
        event_type = t;
        campaign_id = id;
        campaign = c;
        timestamp = at;
      } in
      ap (λ l. follow (map event_of l) j) grown
      ∙ ap (λ es. follow es j) (map-append event_of (log w) ((campaign_topic, (id, e)) ∷ []))
      ∙ follow_last (published w) e j news

  pub publish_event_holds :
      (t : CampaignEventType) (id : String) (c : Option (Campaign F)) (w : World) (j : String)
      → holds (publish_event db t id c w).1 j ≡ holds w j
  unfolding publish_event
  publish_event_holds t id c w j = publish_holds _ _ _ _ j ∙ now_holds w j

  -- An event brings the view in step with a change of the one campaign that it tells of.
  pub published-IsInStep :
      (w v : World) (t : CampaignEventType) (id : String) (c : Option (Campaign F))
      → IsNews t id c
      → log v ≡ log w
      → ((j : String) → of (holds v j) ≡ (if str_eq id j then of c else of (holds w j)))
      → IsInStep w
      → IsInStep (publish_event db t id c v).1
  published-IsInStep w v t id c news same changed h j =
      view-publish_event w v t id c j news same
      ∙ ap (λ b. if str_eq id j then of c else b) (h j)
      ∙ sym (ap of (publish_event_holds t id c v j) ∙ changed j)

  -- The change of one document, seen by the follower.
  pub of_change :
      (id : String) (c : Option (Campaign F)) (w v : World) (j : String)
      → holds v j ≡ (if str_eq id j then c else holds w j)
      → of (holds v j) ≡ (if str_eq id j then of c else of (holds w j))
  of_change id c w v j e = ap of e ∙ by_key (str_eq id j)
    where
      by_key : (b : Bool) → of (if b then c else holds w j) ≡ (if b then of c else of (holds w j))
      by_key true = refl
      by_key false = refl
