-- ===== src/Rpc/Clients.antt =====
-- internal/bidding/grpc_client.go: the clients of the bidding service, which observe each call.
use bidflock.Prelude.{Option, none, some, List, [], ◌∷◌, ◌++◌, String}
use bidflock.Prelude.State.{Act}
use bidflock.Models.Messages.{
  CheckBudgetRequest, CheckBudgetResponse, DeductBudgetRequest, DeductBudgetResponse, ScoreRequest,
  ScoreResponse,
}
use bidflock.Rpc.Stubs.{BudgetService, ScoringService}

-- The labels of an observation of `GRPCRequestDuration`; the duration is left out.
pub record Observation : Type 0 where
  pub service : String
  pub method : String
  pub status : String

-- The world of the clients, with what they have observed.
pub record Observed (W : Type 0) : Type 0 where
  pub world : W
  pub observations : List Observation

abbrev pub status_of : {A : Type 0} → Option A → String
status_of none = "error"
status_of (some _) = "ok"

abbrev pub seen_call : {A : Type 0} → String → String → Option A → Observation
seen_call service method resp = record {
  service = service;
  method = method;
  status = status_of resp;
}

abbrev observe : {W A : Type 0} → String → String → Act W (Option A) → Act (Observed W) (Option A)
observe service method m o =
    let r = m o.world in
    (
      r.0,
      record { world = r.1; observations = o.observations ++ (seen_call service method r.0 ∷ []) },
    )

module _ {F W : Type 0} where
  unfoldable pub client_score_ads :
      ScoringService F W → ScoreRequest → Act (Observed W) (Option (ScoreResponse F))
  client_score_ads client req = observe "scoring" "ScoreAds" (client.score_ads req)

  unfoldable pub client_check_budget :
      BudgetService F W → CheckBudgetRequest F → Act (Observed W) (Option (CheckBudgetResponse F))
  client_check_budget client req = observe "budget" "CheckBudget" (client.check_budget req)

  -- No observation.
  unfoldable pub client_deduct_budget :
      BudgetService F W → DeductBudgetRequest F → Act (Observed W) (Option (DeductBudgetResponse F))
  client_deduct_budget client req o =
      let r = client.deduct_budget req o.world in (r.0, record o { world = r.1 })
