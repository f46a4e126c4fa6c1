-- ===== src/Campaigns/Database.antt =====
-- What internal/campaign uses of the MongoDB driver, of Kafka, of the clock and of the uuid package.
use bidflock.Prelude.{ℕ, Bool, Option, List, String}
use bidflock.Prelude.Int.{ℤ}
use bidflock.Models.Campaign.{Advertiser, Ad, Campaign, CampaignEvent, CampaignStatus, Time}

-- The answer to a query of one document: it, none, or a failure.
pub data Found (A : Type 0) : Type 0 where
  document : A → Found A
  no_documents : Found A
  query_error : Found A

-- A collection of documents under their `_id`. `insert_one` answers whether it succeeded;
-- `replace_one` and `delete_one` answer with the number of documents matched or deleted, and
-- `none` is a failure. `Filter` is a query with its sort order, and `find` takes limit and offset.
pub record Collection (World : Type 0) (A : Type 0) (Filter : Type 0) : Type 0 where
  pub insert_one : A → World → Bool × World
  pub find_one : String → World → Found A × World
  pub replace_one : String → A → World → Option ℕ × World
  pub delete_one : String → World → Option ℕ × World
  pub find : Filter → World → Option (List A) × World

-- The options of a list query. A negative offset is MongoDB's to refuse.
pub record Page : Type 0 where
  pub limit : ℕ
  pub offset : ℤ

-- The filter on a field is absent when it is `none`.
pub data CampaignFilter : Type 0 where
  by_owner : Option String → Option CampaignStatus → Page → CampaignFilter
  running : CampaignStatus → Time → CampaignFilter

pub record Database (F : Type 0) : Type 1 where
  pub World : Type 0
  pub advertisers : Collection World Advertiser Page
  pub campaigns : Collection World (Campaign F) CampaignFilter
  pub ads : Collection World Ad String
  pub now : World → Time × World
  pub new_uuid : World → String × World
  -- PublishCampaignEvent: the topic, the key and the event; whether Kafka took it.
  pub publish : String → String → CampaignEvent F → World → Bool × World
