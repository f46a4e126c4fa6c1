-- ===== src/Bidding/Peers.antt =====
-- What the bidding service calls: the set of active campaigns in Redis, the scoring and the budget
-- service over gRPC, the clock and the identifiers. A call that fails or times out answers `none`.
use bidflock.Prelude.{ℕ, Option, List, [], ◌∷◌, ◌++◌, String}
use bidflock.Models.Campaign.{Time}
use bidflock.Models.OpenRtb.{BidResult}
use bidflock.Models.Messages.{
  ScoreRequest, ScoreResponse, CheckBudgetRequest, CheckBudgetResponse, DeductBudgetRequest,
  DeductBudgetResponse,
}

-- Everything outside the service is one world, which each call may change. The number is the
-- timeout of the call's context.
pub record Peers (F : Type 0) : Type 1 where
  pub World : Type 0
  pub active_campaign_ids : World → Option (List String) × World
  pub score_ads : ℕ → ScoreRequest → World → Option (ScoreResponse F) × World
  pub check_budget : ℕ → CheckBudgetRequest F → World → Option (CheckBudgetResponse F) × World
  pub deduct_budget : ℕ → DeductBudgetRequest F → World → Option (DeductBudgetResponse F) × World
  pub now : World → Time × World
  pub new_uuid : World → String × World

-- `published` are the results handed to the goroutines that publish on `bid-results`, with their
-- keys. Whether Kafka takes them is not seen by the service.
pub record State (F : Type 0) (W : Type 0) : Type 0 where
  pub world : W
  pub published : List (String × BidResult F)

abbrev pub Action : Type 0 → Type 0 → Type 0 → Type 0
Action F W A = State F W → A × State F W

module _ {F W : Type 0} where
  infixl 5 ◌>>=◌ ◌>>◌
  abbrev pub ◌>>=◌ : {A B : Type 0} → Action F W A → (A → Action F W B) → Action F W B
  ◌>>=◌ m k s = k (m s).0 (m s).1

  abbrev pub ◌>>◌ : {B : Type 0} → Action F W (Unit {0}) → Action F W B → Action F W B
  ◌>>◌ m k s = k (m s).1

  abbrev pub pure : {A : Type 0} → A → Action F W A
  pure a s = (a, s)

  abbrev pub call : {A : Type 0} → (W → A × W) → Action F W A
  call g s = ((g s.world).0, record s { world = (g s.world).1 })

  abbrev pub publish : String → BidResult F → Action F W (Unit {0})
  publish key result s = (tt, record s { published = s.published ++ ((key, result) ∷ []) })
