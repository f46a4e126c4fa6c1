-- ===== src/Campaigns/Indexes.antt =====
-- `CreateIndexes` of internal/campaign/repository.go.
use bidflock.Prelude.{Bool, false, List, [], ◌∷◌, String, if◌then◌else◌}
use bidflock.Prelude.State.{Act, ◌>>=◌, pure}

-- A collection, and the fields of each of its indexes; every one is ascending.
pub record IndexRequest : Type 0 where
  pub collection : String
  pub keys : List (List String)

abbrev pub campaign_indexes : IndexRequest
campaign_indexes = record {
  collection = "campaigns";
  keys = ("advertiser_id" ∷ []) ∷ ("status" ∷ []) ∷ ("start_date" ∷ "end_date" ∷ []) ∷ [];
}

abbrev pub ad_indexes : IndexRequest
ad_indexes = record {
  collection = "ads";
  keys = ("campaign_id" ∷ []) ∷ ("advertiser_id" ∷ []) ∷ [];
}

-- `CreateMany` is an argument: whether there is no error. Without the indexes of the campaigns those
-- of the ads are not made.
unfoldable pub create_indexes : {W : Type 0} → (IndexRequest → Act W Bool) → Act W Bool
create_indexes create_many = do
  made ← create_many campaign_indexes
  if made then create_many ad_indexes else pure false
