-- ===== src/Budget/Server.antt =====
-- internal/budget/grpc_server.go: the calls that the bidding service makes.
use bidflock.Prelude.{ℕ, Option, none, some}
use bidflock.Prelude.State.{Act, ◌>>=◌, pure}
use bidflock.Prelude.Float.{Float64}
use bidflock.Models.Messages.{
  CheckBudgetRequest, CheckBudgetResponse, DeductBudgetRequest, DeductBudgetResponse, PacingRequest,
  PacingResponse,
}
use bidflock.Budget.Keys.{daily_key}
use bidflock.Budget.Redis.{Redis}
use bidflock.Budget.Pacing.{PacingInfo, get_float, value_or_zero, get_pacing_info, get_multiplier}
use bidflock.Budget.Service.{Check, check_budget, deduct_budget}

module _ {F : Type 0} ⦃f : Float64 F⦄ where
  abbrev pub check_response : Option (Check F) → Option (CheckBudgetResponse F)
  check_response none = none
  check_response (some c) = some (record {
    allowed = c.allowed;
    reason = c.reason;
    remaining_daily_budget = c.remaining;
    pacing_multiplier = c.multiplier;
  })

  -- A nil info is answered with a multiplier of 1 and zeros.
  abbrev pub pacing_response : Option (Option (PacingInfo F)) → Option (PacingResponse F)
  pacing_response none = none
  pacing_response (some none) = some (record {
    spend_rate = f.lit 0 0;
    target_rate = f.lit 0 0;
    pacing_multiplier = f.lit 1 0;
    daily_spend_so_far = f.lit 0 0;
    daily_budget = f.lit 0 0;
  })
  pacing_response (some (some info)) = some (record {
    spend_rate = info.spend_rate;
    target_rate = info.target_rate;
    pacing_multiplier = info.pacing_multiplier;
    daily_spend_so_far = info.daily_spend_so_far;
    daily_budget = info.daily_budget;
  })

  module _ (redis : Redis F) where
    open redis use {World}

    -- The three calls never return a Go error. `none` is out of fuel, as for `check_budget`.
    unfoldable pub serve_check :
        ℕ → CheckBudgetRequest F → Act World (Option (CheckBudgetResponse F))
    unfolding check_budget
    serve_check fuel req = do
      c ← check_budget redis fuel req.campaign_id req.user_id req.bid_amount
      pure (check_response c)

    unfoldable pub serve_deduct : DeductBudgetRequest F → Act World (DeductBudgetResponse F)
    unfolding deduct_budget
    serve_deduct req = do
      r ← deduct_budget redis req.campaign_id req.amount
      pure (record { success = r.0; remaining_daily_budget = r.1 })

    unfoldable pub serve_pacing : ℕ → PacingRequest → Act World (Option (PacingResponse F))
    unfolding get_pacing_info get_multiplier
    serve_pacing fuel req = do
      r ← get_float redis (daily_key req.campaign_id)
      info ←
          get_pacing_info redis (get_multiplier redis fuel req.campaign_id (value_or_zero r))
            req.campaign_id (value_or_zero r)
      pure (pacing_response info)
