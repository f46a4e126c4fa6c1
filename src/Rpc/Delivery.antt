-- ===== src/Rpc/Delivery.antt =====
-- A call of a client of gen/go is a call of the method of the server.
use bidflock.Prelude.{◌≡◌, refl, ap, subst, Option, none, some}
use bidflock.Prelude.State.{Act}
use bidflock.Models.Messages.{CheckBudgetRequest, DeductBudgetRequest, PacingRequest, ScoreRequest}
use bidflock.Rpc.Wire.{
  Json, Reply, check_reply, deduct_reply, pacing_reply, score_reply, Conn, encode,
}
use bidflock.Rpc.Stubs.{
  BudgetService, ScoringService, budget_service_desc, scoring_service_desc, budget_client,
  scoring_client, as_reply, check_budget_handler, deduct_budget_handler, get_pacing_info_handler,
  score_ads_handler,
}
use bidflock.Rpc.Calls.{Connects, Carries, IsFaithful, IsCall, delivered, delivered-IsCall}

-- A call of the budget service.
pub data Call (F : Type 0) : Type 0 where
  check_call : CheckBudgetRequest F → Call F
  deduct_call : DeductBudgetRequest F → Call F
  pacing_call : PacingRequest → Call F

module _ {F W : Type 0} where
  abbrev pub run_call : BudgetService F W → Call F → Act W (Option (Reply F))
  run_call srv (check_call req) w =
      let r = srv.check_budget req w in (as_reply check_reply r.0, r.1)
  run_call srv (deduct_call req) w =
      let r = srv.deduct_budget req w in (as_reply deduct_reply r.0, r.1)
  run_call srv (pacing_call req) w =
      let r = srv.get_pacing_info req w in (as_reply pacing_reply r.0, r.1)

module _ {F Data : Type 0} (json : Json F Data) where
  abbrev pub CarriesReply : Option (Reply F) → Type 0
  CarriesReply none = Unit
  CarriesReply (some (check_reply r)) = Carries json.check_response r
  CarriesReply (some (deduct_reply r)) = Carries json.deduct_response r
  CarriesReply (some (pacing_reply r)) = Carries json.pacing_response r
  CarriesReply (some (score_reply r)) = Carries json.score_response r

  abbrev pub CarriesCall : Call F → Type 0
  CarriesCall (check_call req) = Carries json.check_request req
  CarriesCall (deduct_call req) = Carries json.deduct_request req
  CarriesCall (pacing_call req) = Carries json.pacing_request req

  module _ {W : Type 0} (conn : Conn Data W) where
    module _ (srv : BudgetService F W)
        (connected : Connects json conn (budget_service_desc srv)) where
      -- A call of a client of the budget service is the same call of the server, with its reply and
      -- its effect, if gRPC runs the handler that the server has registered under the full name, and
      -- the request and the reply survive their encoding.
      pub run_call-budget_client :
          (call : Call F) (w : W)
          → CarriesCall call
          → CarriesReply (run_call srv call w).0
          → run_call (budget_client json conn) call w ≡ run_call srv call w
      unfolding budget_client budget_service_desc check_budget_handler deduct_budget_handler
          get_pacing_info_handler encode
      run_call-budget_client (check_call req) w sent carried =
          ap (λ r. (as_reply check_reply r.0, r.1))
            (delivered json (λ j. j.check_request) json.check_response check_reply srv.check_budget
              conn (budget_service_desc srv) "CheckBudget" req w connected.0 (λ y. refl) sent
              (λ y e. subst CarriesReply (ap (as_reply check_reply) e) carried))
      run_call-budget_client (deduct_call req) w sent carried =
          ap (λ r. (as_reply deduct_reply r.0, r.1))
            (delivered json (λ j. j.deduct_request) json.deduct_response deduct_reply
              srv.deduct_budget conn (budget_service_desc srv) "DeductBudget" req w connected.1.0
              (λ y. refl) sent (λ y e. subst CarriesReply (ap (as_reply deduct_reply) e) carried))
      run_call-budget_client (pacing_call req) w sent carried =
          ap (λ r. (as_reply pacing_reply r.0, r.1))
            (delivered json (λ j. j.pacing_request) json.pacing_response pacing_reply
              srv.get_pacing_info conn (budget_service_desc srv) "GetPacingInfo" req w
              connected.1.1.0 (λ y. refl) sent
              (λ y e. subst CarriesReply (ap (as_reply pacing_reply) e) carried))

      -- With faithful codecs, these calls run the method of the server or do not reach it, and an
      -- answer is the server's.
      pub check_client-IsCall :
          (req : CheckBudgetRequest F) (w : W)
          → IsFaithful json.check_request
          → IsFaithful json.check_response
          → IsCall w (srv.check_budget req w) ((budget_client json conn).check_budget req w)
      unfolding budget_client budget_service_desc check_budget_handler encode
      check_client-IsCall req w requests replies =
          delivered-IsCall json (λ j. j.check_request) json.check_response check_reply
            srv.check_budget conn (budget_service_desc srv) "CheckBudget" req w connected.0
            (λ y. refl) requests replies

      pub deduct_client-IsCall :
          (req : DeductBudgetRequest F) (w : W)
          → IsFaithful json.deduct_request
          → IsFaithful json.deduct_response
          → IsCall w (srv.deduct_budget req w) ((budget_client json conn).deduct_budget req w)
      unfolding budget_client budget_service_desc deduct_budget_handler encode
      deduct_client-IsCall req w requests replies =
          delivered-IsCall json (λ j. j.deduct_request) json.deduct_response deduct_reply
            srv.deduct_budget conn (budget_service_desc srv) "DeductBudget" req w connected.1.0
            (λ y. refl) requests replies

    module _ (srv : ScoringService F W)
        (connected : Connects json conn (scoring_service_desc srv)) where
      -- A ScoreAds of a client is that of the server, with its reply and its effect, if gRPC runs the
      -- handler that the server has registered, and the request and the reply survive their encoding.
      pub score_ads-scoring_client :
          (req : ScoreRequest) (w : W)
          → Carries json.score_request req
          → CarriesReply (as_reply score_reply (srv.score_ads req w).0)
          → (scoring_client json conn).score_ads req w ≡ srv.score_ads req w
      unfolding scoring_client scoring_service_desc score_ads_handler encode
      score_ads-scoring_client req w sent carried =
          delivered json (λ j. j.score_request) json.score_response score_reply srv.score_ads conn
            (scoring_service_desc srv) "ScoreAds" req w connected.0 (λ y. refl) sent
            (λ y e. subst CarriesReply (ap (as_reply score_reply) e) carried)
