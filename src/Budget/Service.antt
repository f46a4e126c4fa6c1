-- ===== src/Budget/Service.antt =====
-- internal/budget/service.go: `SyncCampaign`, `CheckBudget`, `DeductBudget` with its Lua script, and
-- `HandleKafkaRecord`. A method takes the world and returns its results and the new world.
use bidflock.Prelude.{
  ℕ, ◌*◌, Bool, true, false, Option, none, some, String, str_eq, if◌then◌else◌, ◌==◌,
}
use bidflock.Prelude.State.{Act, ◌>>=◌, ◌>>◌, pure, command}
use bidflock.Prelude.Float.{Float64}
use bidflock.Models.Campaign.{Campaign, CampaignEvent, campaign_deleted}
use bidflock.Budget.Keys.{daily_key, hourly_key}
use bidflock.Budget.Redis.{Redis, Stored, absent, number, other, is_absent}
use bidflock.Budget.Limiter.{is_capped}
use bidflock.Budget.Pacing.{
  GetReply, found, missing, failed, get_float, value_or_zero, get_multiplier,
}

-- Nanoseconds.
abbrev pub hours : ℕ → ℕ
hours n = n * 3_600_000_000_000

-- A Go error, with no more than its presence.
pub data Outcome : Type 0 where
  done : Outcome
  failure : Outcome

abbrev pub outcome : {A : Type 0} → Option A → Outcome
outcome none = failure
outcome (some _) = done

-- What the Lua script comes to: the integer that it returns, or a script error.
pub data ScriptReply : Type 0 where
  returned : ℕ → ScriptReply
  script_error : ScriptReply

-- The four results of `CheckBudget`.
pub record Check (F : Type 0) : Type 0 where
  pub allowed : Bool
  pub reason : String
  pub remaining : F
  pub multiplier : F

module _ {F : Type 0} ⦃f : Float64 F⦄ (redis : Redis F) where
  open f use {lit, neg, lt}
  open redis use {World, holds, clock, send, set_nx, del, incr_by_float, expire}

  unfoldable pub init_budget : Campaign F → Option Bool → Act World Outcome
  init_budget c none = pure failure
  init_budget c (some true) = pure done
  init_budget c (some false) = do
    r ← send (Unit {0}) (command (set_nx (daily_key c.id) c.daily_budget (hours 26)))
    pure (outcome r)

  -- `SyncCampaign` of the event's campaign.
  unfoldable pub sync_campaign : Option (Campaign F) → Act World Outcome
  unfolding init_budget
  sync_campaign none = pure done
  sync_campaign (some c) = do
    present ← send Bool (λ w. ((if is_absent (holds w (daily_key c.id)) then false else true), w))
    init_budget c present

  -- `luaDeduct`, which the server runs as one step: a missing key counts as 0, and a value that is
  -- no number makes the comparison fail.
  unfoldable pub lua_deduct_from : String → F → Stored F → Act World ScriptReply
  lua_deduct_from key amount other w = (script_error, w)
  lua_deduct_from key amount absent w =
      if lt (lit 0 0) amount
      then (returned 0, w)
      else (returned 1, incr_by_float key (neg amount) w)
  lua_deduct_from key amount (number current) w =
      if lt current amount then (returned 0, w) else (returned 1, incr_by_float key (neg amount) w)

  unfoldable pub lua_deduct : String → F → Act World ScriptReply
  unfolding lua_deduct_from
  lua_deduct key amount w = lua_deduct_from key amount (holds w key) w

  -- The hourly spend; errors are ignored.
  unfoldable pub track_spend : String → F → Act World (Unit {0})
  track_spend id amount = do
    now ← clock
    send (Unit {0}) (command (incr_by_float (hourly_key id now.hour) amount))
    send (Unit {0}) (command (expire (hourly_key id now.hour) (hours 2)))
    pure tt

  unfoldable pub after_script : String → F → Option ScriptReply → Act World (Bool × F)
  unfolding track_spend
  after_script id amount none = pure (false, lit 0 0)
  after_script id amount (some script_error) = pure (false, lit 0 0)
  after_script id amount (some (returned n)) =
      if n == 1
      then (do
        left ← get_float redis (daily_key id)
        track_spend id amount
        pure (true, value_or_zero left))
      else pure (false, lit 0 0)

  -- `DeductBudget`: success, and the remaining budget.
  unfoldable pub deduct_budget : String → F → Act World (Bool × F)
  unfolding lua_deduct after_script
  deduct_budget id amount = do
    r ← send ScriptReply (lua_deduct (daily_key id) amount)
    after_script id amount r

  abbrev pub refuse : String → F → Act World (Option (Check F))
  refuse reason remaining = pure (
      some
        (record { allowed = false; reason = reason; remaining = remaining; multiplier = lit 0 0 }))

  abbrev pub allow : F → Option F → Option (Check F)
  allow remaining none = none
  allow remaining (some mult) =
      some (record { allowed = true; reason = ""; remaining = remaining; multiplier = mult })

  unfoldable pub pace : ℕ → String → F → Act World (Option (Check F))
  unfolding get_multiplier
  pace fuel id remaining = do
    mult ← get_multiplier redis fuel id remaining
    pure (allow remaining mult)

  -- A failed check of the frequency cap lets the bid pass.
  unfoldable pub after_cap : ℕ → String → F → Option Bool → Act World (Option (Check F))
  unfolding pace
  after_cap fuel id remaining none = pace fuel id remaining
  after_cap fuel id remaining (some true) = refuse "frequency cap reached" remaining
  after_cap fuel id remaining (some false) = pace fuel id remaining

  unfoldable pub with_remaining :
      ℕ → String → String → F → GetReply F → Act World (Option (Check F))
  unfolding after_cap is_capped
  with_remaining fuel id user bid missing = refuse "no budget configured" (lit 0 0)
  with_remaining fuel id user bid failed = refuse "internal error" (lit 0 0)
  with_remaining fuel id user bid (found remaining) =
      if lt remaining bid
      then refuse "insufficient daily budget" remaining
      else if str_eq user ""
      then pace fuel id remaining
      else (is_capped redis id user >>= after_cap fuel id remaining)

  -- `CheckBudget`: `none` has not returned within `fuel` calls of `GetMultiplier`.
  unfoldable pub check_budget : ℕ → String → String → F → Act World (Option (Check F))
  unfolding with_remaining
  check_budget fuel id user bid = do
    r ← get_float redis (daily_key id)
    with_remaining fuel id user bid r

  -- `HandleKafkaRecord` on a record's decoded value; `none` is no JSON of an event.
  unfoldable pub handle_kafka_record : Option (CampaignEvent F) → Act World Outcome
  unfolding sync_campaign
  handle_kafka_record none = pure failure
  handle_kafka_record (some event) =
      if str_eq event.event_type campaign_deleted
      then (do r ← send (Unit {0}) (command (del (daily_key event.campaign_id))); pure (outcome r))
      else sync_campaign event.campaign
