-- ===== src/System/Wired.antt =====
-- The bidding service with the budget service at the other end of a gRPC connection.
use bidflock.Prelude.{ℕ, ◌≡◌, sym, ap, ◌∙◌, ◌⊎◌, inl, inr, Option, some}
use bidflock.Prelude.Float.{Float64}
use bidflock.Models.Messages.{ScoreRequest, CheckBudgetRequest, DeductBudgetRequest}
use bidflock.Rpc.Wire.{Json, Conn}
use bidflock.Rpc.Stubs.{BudgetService, budget_client, budget_service_desc}
use bidflock.Rpc.Calls.{Connects, IsFaithful, IsCall, IsCall-trans}
use bidflock.Rpc.Delivery.{check_client-IsCall, deduct_client-IsCall}
use bidflock.Bidding.Peers.{Peers}
use bidflock.Budget.Redis.{Redis}
use bidflock.Budget.Server.{serve_check, serve_deduct, serve_pacing}
use bidflock.System.Solvent.{IsBacked}
use bidflock.System.Starved.{AnsweredByService}

module _ {F Data : Type 0} ⦃f : Float64 F⦄ (json : Json F Data) (peers : Peers F)
    (redis : Redis F) where
  open peers use {World, active_campaign_ids, score_ads, check_budget, deduct_budget, now, new_uuid}

  -- The Redis of the budget service, in the world.
  pub record Lens : Type 0 where
    pub view : World → redis.World
    pub back : redis.World → World → World
    pub view_back : (v : redis.World) (w : World) → view (back v w) ≡ v

  -- The server of internal/budget; a check makes at most `fuel` calls of GetMultiplier.
  abbrev pub served : Lens → ℕ → BudgetService F World
  served lens fuel = record {
    check_budget = λ q w. let r = serve_check redis fuel q (lens.view w) in (r.0, lens.back r.1 w);
    deduct_budget =
        λ q w. let r = serve_deduct redis q (lens.view w) in (some r.0, lens.back r.1 w);
    get_pacing_info =
        λ q w. let r = serve_pacing redis fuel q (lens.view w) in (r.0, lens.back r.1 w);
  }

  -- The other calls of the bidding service do not touch that Redis.
  pub record IsDialled : Type 1 where
    pub lens : Lens
    pub fuel : ℕ
    pub conn : Conn Data World
    pub connected : Connects json conn (budget_service_desc (served lens fuel))
    pub ids_keep : (w : World) → lens.view (active_campaign_ids w).1 ≡ lens.view w
    pub score_keep :
        (t : ℕ) (q : ScoreRequest) (w : World) → lens.view (score_ads t q w).1 ≡ lens.view w
    pub now_keep : (w : World) → lens.view (now w).1 ≡ lens.view w
    pub uuid_keep : (w : World) → lens.view (new_uuid w).1 ≡ lens.view w
    pub check_dials :
        (t : ℕ) (q : CheckBudgetRequest F) (w : World)
        → IsCall w ((budget_client json conn).check_budget q w) (check_budget t q w)
    pub deduct_dials :
        (t : ℕ) (q : DeductBudgetRequest F) (w : World)
        → IsCall w ((budget_client json conn).deduct_budget q w) (deduct_budget t q w)

  -- The codecs of the messages of the two calls.
  abbrev pub IsCarried : Type 0
  IsCarried =
      (IsFaithful json.check_request × IsFaithful json.check_response)
      × (IsFaithful json.deduct_request × IsFaithful json.deduct_response)

  module _ (dialled : IsDialled) (carried : IsCarried) where
    open dialled use {
      lens, fuel, conn, connected, ids_keep, score_keep, now_keep, uuid_keep, check_dials,
      deduct_dials,
    }
    open lens use {view, view_back}

    pub check-IsCall :
        (t : ℕ) (q : CheckBudgetRequest F) (w : World)
        → IsCall w ((served lens fuel).check_budget q w) (check_budget t q w)
    check-IsCall t q w =
        IsCall-trans w _ _ _
          (check_client-IsCall json conn (served lens fuel) connected q w carried.0.0 carried.0.1)
          (check_dials t q w)

    pub deduct-IsCall :
        (t : ℕ) (q : DeductBudgetRequest F) (w : World)
        → IsCall w ((served lens fuel).deduct_budget q w) (deduct_budget t q w)
    deduct-IsCall t q w =
        IsCall-trans w _ _ _
          (deduct_client-IsCall json conn (served lens fuel) connected q w carried.1.0 carried.1.1)
          (deduct_dials t q w)

    abbrev Viewed : redis.World → redis.World → World → Type 0
    Viewed old new w = (view w ≡ old) ⊎ (view w ≡ new)

    pub runs :
        {A : Type 0} (w : World) (v : redis.World) (s : Option A) (out : Option A × World)
        → IsCall w (s, lens.back v w) out
        → Viewed (view w) v out.1
    runs w v s out (inl e) = inl (ap (λ r. view r.1) e)
    runs w v s out (inr (inl e)) = inr (ap (λ r. view r.1) e ∙ view_back v w)
    runs w v s out (inr (inr e)) = inr (ap (λ r. view r.1) e ∙ view_back v w)

    unfoldable pub dialled-IsBacked : IsBacked peers redis
    dialled-IsBacked = record {
      view = view;
      ids_keep = ids_keep;
      score_keep = score_keep;
      now_keep = now_keep;
      uuid_keep = uuid_keep;
      check_runs = λ t q w. elim (runs w _ _ _ (check-IsCall t q w)) [
        | inl e ↦ inl e
        | inr e ↦ inr (fuel, e)
      ];
      deduct_runs = λ t q w. runs w _ _ _ (deduct-IsCall t q w);
    }

    answer_of :
        {A : Type 0} (w : World) (s out : Option A × World) (r : A)
        → IsCall w s out
        → out.0 ≡ some r
        → s.0 ≡ some r
    answer_of w s out r (inl e) got = absurd (cc (e, got))
    answer_of w s out r (inr (inl e)) got = absurd (cc (e, got))
    answer_of w s out r (inr (inr e)) got = sym (ap (λ r. r.0) e) ∙ got

    pub dialled-AnsweredByService : AnsweredByService peers redis
    dialled-AnsweredByService t q w r got =
        (fuel, view w, answer_of w _ _ r (check-IsCall t q w) got)
