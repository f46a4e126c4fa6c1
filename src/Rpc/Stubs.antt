-- ===== src/Rpc/Stubs.antt =====
-- gen/go/budget/budget.go and gen/go/scoring/scoring.go: the clients, the handlers and the service
-- descriptors. The servers have no interceptor, so a handler calls the service itself.
use bidflock.Prelude.{Option, none, some, [], ◌∷◌}
use bidflock.Prelude.State.{Act, ◌>>=◌, pure}
use bidflock.Models.Messages.{
  CheckBudgetRequest, CheckBudgetResponse, DeductBudgetRequest, DeductBudgetResponse, PacingRequest,
  PacingResponse, ScoreRequest, ScoreResponse,
}
use bidflock.Rpc.Wire.{
  Json, Reply, check_reply, deduct_reply, pacing_reply, score_reply, ServiceDesc, Conn,
}

-- The service interfaces; `none` is an error.
pub record BudgetService (F W : Type 0) : Type 0 where
  pub check_budget : CheckBudgetRequest F → Act W (Option (CheckBudgetResponse F))
  pub deduct_budget : DeductBudgetRequest F → Act W (Option (DeductBudgetResponse F))
  pub get_pacing_info : PacingRequest → Act W (Option (PacingResponse F))

pub record ScoringService (F W : Type 0) : Type 0 where
  pub score_ads : ScoreRequest → Act W (Option (ScoreResponse F))

-- The result as an `interface{}`.
abbrev pub as_reply : {F A : Type 0} → (A → Reply F) → Option A → Option (Reply F)
as_reply wrap none = none
as_reply wrap (some a) = some (wrap a)

-- A handler, from the decoded request on.
abbrev pub handle :
    {F W A B : Type 0}
    → (B → Reply F)
    → (A → Act W (Option B))
    → Option A
    → Act W (Option (Reply F))
handle wrap serve none = pure none
handle wrap serve (some req) = do r ← serve req; pure (as_reply wrap r)

module _ {F Data W : Type 0} where
  unfoldable pub check_budget_handler :
      BudgetService F W → Json F Data → Data → Act W (Option (Reply F))
  check_budget_handler srv json bytes =
      handle check_reply srv.check_budget (json.check_request.unmarshal bytes)

  unfoldable pub deduct_budget_handler :
      BudgetService F W → Json F Data → Data → Act W (Option (Reply F))
  deduct_budget_handler srv json bytes =
      handle deduct_reply srv.deduct_budget (json.deduct_request.unmarshal bytes)

  unfoldable pub get_pacing_info_handler :
      BudgetService F W → Json F Data → Data → Act W (Option (Reply F))
  get_pacing_info_handler srv json bytes =
      handle pacing_reply srv.get_pacing_info (json.pacing_request.unmarshal bytes)

  unfoldable pub score_ads_handler :
      ScoringService F W → Json F Data → Data → Act W (Option (Reply F))
  score_ads_handler srv json bytes =
      handle score_reply srv.score_ads (json.score_request.unmarshal bytes)

  unfoldable pub budget_service_desc : BudgetService F W → ServiceDesc F Data W
  unfolding check_budget_handler deduct_budget_handler get_pacing_info_handler
  budget_service_desc srv = record {
    service_name = "budget.BudgetService";
    methods =
        record { method_name = "CheckBudget"; handler = check_budget_handler srv }
        ∷ record { method_name = "DeductBudget"; handler = deduct_budget_handler srv }
        ∷ record { method_name = "GetPacingInfo"; handler = get_pacing_info_handler srv }
        ∷ [];
  }

  unfoldable pub scoring_service_desc : ScoringService F W → ServiceDesc F Data W
  unfolding score_ads_handler
  scoring_service_desc srv = record {
    service_name = "scoring.ScoringService";
    methods = record { method_name = "ScoreAds"; handler = score_ads_handler srv } ∷ [];
  }

  -- The clients have the methods of the services.
  unfoldable pub budget_client : Json F Data → Conn Data W → BudgetService F W
  budget_client json cc = record {
    check_budget =
        cc.invoke json.check_request json.check_response "/budget.BudgetService/CheckBudget";
    deduct_budget =
        cc.invoke json.deduct_request json.deduct_response "/budget.BudgetService/DeductBudget";
    get_pacing_info =
        cc.invoke json.pacing_request json.pacing_response "/budget.BudgetService/GetPacingInfo";
  }

  unfoldable pub scoring_client : Json F Data → Conn Data W → ScoringService F W
  scoring_client json cc = record {
    score_ads = cc.invoke json.score_request json.score_response "/scoring.ScoringService/ScoreAds";
  }
