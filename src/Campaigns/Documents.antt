-- ===== src/Campaigns/Documents.antt =====
-- What MongoDB holds of the campaigns, and the changes that the API makes.
use bidflock.Prelude.{
  ℕ, zero, suc, ◌≡◌, Bool, true, false, ◌&&◌, Option, none, some, List, [], ◌∷◌, String, str_eq,
  if◌then◌else◌,
}
use bidflock.Prelude.Float.{Float64}
use bidflock.Models.Campaign.{Ad, Campaign, CampaignEvent}
use bidflock.Campaigns.Database.{Database, document, no_documents}
use bidflock.Campaigns.Service.{create_campaign, update_campaign, delete_campaign, create_ad}

-- The answer of a replacement or a deletion that met a document.
abbrev pub has_matched : Option ℕ → Bool
has_matched none = false
has_matched (some zero) = false
has_matched (some (suc _)) = true

-- The campaign stored under each `_id`. A write that is answered by success sets the one document,
-- and any other write changes nothing; so the answers of MongoDB are not lost.
pub record Documents {F : Type 0} (db : Database F) : Type 1 where
  pub holds : db.World → String → Option (Campaign F)
  pub now_holds : (w : db.World) (j : String) → holds (db.now w).1 j ≡ holds w j
  pub uuid_holds : (w : db.World) (j : String) → holds (db.new_uuid w).1 j ≡ holds w j
  pub publish_holds :
      (topic key : String) (e : CampaignEvent F) (w : db.World) (j : String)
      → holds (db.publish topic key e w).1 j ≡ holds w j
  pub insert_ad_holds :
      (a : Ad) (w : db.World) (j : String) → holds (db.ads.insert_one a w).1 j ≡ holds w j
  pub find_holds :
      (id : String) (w : db.World) (j : String) → holds (db.campaigns.find_one id w).1 j ≡ holds w j
  pub find_document :
      (id : String) (w : db.World) (c : Campaign F)
      → (db.campaigns.find_one id w).0 ≡ document c
      → (holds w id ≡ some c) × (c.id ≡ id)
  pub find_missing :
      (id : String) (w : db.World)
      → (db.campaigns.find_one id w).0 ≡ no_documents
      → holds w id ≡ none
  pub insert_holds :
      (c : Campaign F) (w : db.World) (j : String)
      → holds (db.campaigns.insert_one c w).1 j
        ≡ (if (db.campaigns.insert_one c w).0 && str_eq c.id j then some c else holds w j)
  pub replace_holds :
      (id : String) (c : Campaign F) (w : db.World) (j : String)
      → holds (db.campaigns.replace_one id c w).1 j ≡ (
          if has_matched (db.campaigns.replace_one id c w).0 && str_eq id j
          then some c
          else holds w j)
  pub replace_missing :
      (id : String) (c : Campaign F) (w : db.World)
      → holds w id ≡ none
      → has_matched (db.campaigns.replace_one id c w).0 ≡ false
  pub delete_holds :
      (id : String) (w : db.World) (j : String)
      → holds (db.campaigns.delete_one id w).1 j
        ≡ (if has_matched (db.campaigns.delete_one id w).0 && str_eq id j then none else holds w j)

-- A call of the API that changes a campaign.
pub data Change (F : Type 0) : Type 0 where
  create : Campaign F → Change F
  update : String → Campaign F → Change F
  delete : String → Change F
  add_ad : Ad → Change F

module _ {F : Type 0} ⦃f : Float64 F⦄ (db : Database F) where
  open db use {World}

  unfoldable pub perform : Change F → World → World
  unfolding create_campaign update_campaign delete_campaign create_ad
  perform (create c) w = (create_campaign db c w).1
  perform (update id c) w = (update_campaign db id c w).1
  perform (delete id) w = (delete_campaign db id w).1
  perform (add_ad ad) w = (create_ad db ad w).1

  -- The calls one after the other, whatever each answers.
  unfoldable pub perform_changes : List (Change F) → World → World
  perform_changes [] w = w
  perform_changes (c ∷ cs) w = perform_changes cs (perform c w)
