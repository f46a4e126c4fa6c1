-- ===== src/Campaigns/Api.antt =====
-- The campaign API against the campaigns that MongoDB holds.
use bidflock.Prelude.{ℕ, ◌≡◌, ◌⊎◌, Option, none, some, String, str_eq, if◌then◌else◌}
use bidflock.Prelude.Float.{Float64}
use bidflock.Models.Campaign.{Campaign}
use bidflock.Campaigns.Database.{Database}
use bidflock.Campaigns.Repository.{Result, ok, failure}
use bidflock.Campaigns.Handler.{Reply}
use bidflock.Campaigns.Documents.{Documents}

abbrev pub IsError : ℕ → Type 0
IsError status = (status ≡ 400) ⊎ ((status ≡ 404) ⊎ (status ≡ 500))

-- The success has a body.
abbrev pub HasStatus : {A : Type 0} → ℕ → Option A → ℕ → Type 0
HasStatus success none status = IsError status
HasStatus success (some _) status = status ≡ success

module _ {F : Type 0} ⦃f : Float64 F⦄ (db : Database F) (docs : Documents db) where
  open db use {World, now, new_uuid}
  open docs use {
    holds, now_holds, uuid_holds, publish_holds, find_holds, find_document, find_missing,
    insert_holds, replace_holds, delete_holds,
  }

  abbrev stored : Option (Campaign F) → World → String → Option (Campaign F)
  stored none w j = holds w j
  stored (some c) w j = if str_eq c.id j then some c else holds w j

  abbrev body_of : Result (Campaign F) → Option (Campaign F)
  body_of (ok c) = some c
  body_of (failure _) = none

  -- The campaign of the answer is what is stored under its identifier now, and nothing else changes;
  -- after an error nothing changes.
  abbrev pub Tells : ℕ → World → Reply (Campaign F) × World → Type 0
  Tells success w (reply, w') =
      HasStatus success reply.body reply.status
      × ((j : String) → holds w' j ≡ stored reply.body w j)

  abbrev pub TellsRemoval : String → World → Reply (Unit {0}) × World → Type 0
  TellsRemoval id w (reply, w') =
      ((reply.status ≡ 204)
        × ((j : String) → holds w' j ≡ (if str_eq id j then none else holds w j)))
      ⊎ (IsError reply.status × ((j : String) → holds w' j ≡ holds w j))

  abbrev Reads : String → World → ℕ → Option (Campaign F) → Type 0
  Reads id w status (some c) = (status ≡ 200) × ((holds w id ≡ some c) × (c.id ≡ id))
  Reads id w status none = ((status ≡ 404) × (holds w id ≡ none)) ⊎ (status ≡ 500)

  abbrev pub TellsStored : String → World → Reply (Campaign F) × World → Type 0
  TellsStored id w (reply, w') =
      Reads id w reply.status reply.body × ((j : String) → holds w' j ≡ holds w j)

  abbrev TellsResult : World → Result (Campaign F) × World → Type 0
  TellsResult w (r, w') = (j : String) → holds w' j ≡ stored (body_of r) w j
