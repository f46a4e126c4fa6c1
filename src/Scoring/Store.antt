-- ===== src/Scoring/Store.antt =====
-- What internal/scoring uses of Redis and of the clock. `Get` and `Set` keep a value as JSON; a value
-- that cannot be read back is an error, as a missing one is.
use bidflock.Prelude.{ℕ, ◌≡◌, Bool, Option, none, some, String, str_eq, if◌then◌else◌}
use bidflock.Models.Campaign.{CampaignCache}

-- Hour of the day and day of the week, 0 for Sunday, in local time.
pub record Hour : Type 0 where
  pub hour : ℕ
  pub weekday : ℕ

-- `cached` is what the server holds under a campaign key. A command answers whether it succeeded.
pub record Store (F : Type 0) : Type 1 where
  pub World : Type 0
  pub cached : World → String → Option (CampaignCache F)
  pub now : World → Hour × World
  pub get_number : String → World → Option F × World
  pub set_number : String → F → ℕ → World → Bool × World
  pub get_campaign : String → World → Option (CampaignCache F) × World
  pub set_campaign : String → CampaignCache F → World → Bool × World
  pub del : String → World → Bool × World

-- Reads leave the cache as it is, and a read of a campaign answers with what is cached or fails. A
-- write that succeeds replaces one key; one that fails may or may not have reached the server.
pub record IsStore {F : Type 0} (s : Store F) : Type 1 where
  pub now_keeps : (w : s.World) → s.cached (s.now w).1 ≡ s.cached w
  pub get_number_keeps : (k : String) (w : s.World) → s.cached (s.get_number k w).1 ≡ s.cached w
  pub get_campaign_keeps : (k : String) (w : s.World) → s.cached (s.get_campaign k w).1 ≡ s.cached w
  pub set_campaign_cached :
      (k : String) (c : CampaignCache F) (w : s.World)
      → (s.set_campaign k c w).0 ≡ Bool.true
      → (j : String)
      → s.cached (s.set_campaign k c w).1 j ≡ (if str_eq k j then some c else s.cached w j)
  pub del_cached :
      (k : String) (w : s.World)
      → (s.del k w).0 ≡ Bool.true
      → (j : String) → s.cached (s.del k w).1 j ≡ (if str_eq k j then none else s.cached w j)
