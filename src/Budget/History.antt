-- ===== src/Budget/History.antt =====
-- Every sequence of calls of the budget service, and what it leaves of the daily budgets.
use bidflock.Prelude.{
  ℕ, ◌≡◌, refl, sym, subst, ◌∙◌, Bool, true, false, not, ◌&&◌, Option, String, str_eq, eq_iff,
  if-intro, List, [], ◌∷◌, All,
}
use bidflock.Prelude.Float.{Float64, IsOrdered, IsNumber, ◌≼◌}
use bidflock.Models.Campaign.{CampaignEvent}
use bidflock.Budget.Keys.{daily_key}
use bidflock.Budget.Redis.{Redis, IsRedis, Stored, absent, number, other}
use bidflock.Budget.Pacing.{get_multiplier}
use bidflock.Budget.Limiter.{record_impression}
use bidflock.Budget.Service.{
  handle_kafka_record, check_budget, deduct_budget, lua_deduct, ScriptReply,
}
use bidflock.Budget.Solvent.{
  HasEventBudget, IsCovered, IsSolvent, get_multiplier-IsSolvent, with_remaining-IsSolvent,
  impression-IsSolvent, record-IsSolvent, get_float-IsSolvent,
}
use bidflock.Budget.Spend.{covers, paid, send_of, lua_deduct-PaysOnce, after_script_lem}

-- One call from outside; the fuel of a check is that of `check_budget`.
pub data Call (F : Type 0) : Type 0 where
  check : ℕ → String → String → F → Call F
  deduct : String → F → Call F
  pacing : ℕ → String → F → Call F
  record_event : Option (CampaignEvent F) → Call F
  impression : String → String → String → Call F

module _ {F : Type 0} ⦃f : Float64 F⦄ (redis : Redis F) where
  open f use {lit, neg, lt}
  open redis use {World, holds, incremented, incr_by_float}

  -- The world after the call.
  unfoldable pub perform : Call F → World → World
  unfolding check_budget deduct_budget get_multiplier handle_kafka_record record_impression
  perform (check fuel id user bid) w = (check_budget redis fuel id user bid w).1
  perform (deduct id amount) w = (deduct_budget redis id amount w).1
  perform (pacing fuel id remaining) w = (get_multiplier redis fuel id remaining w).1
  perform (record_event e) w = (handle_kafka_record redis e w).1
  perform (impression id user imp) w = (record_impression redis id user imp w).1

  abbrev pub perform_calls : List (Call F) → World → World
  perform_calls [] w = w
  perform_calls (c ∷ cs) w = perform_calls cs (perform c w)

  -- Amounts and budgets that come from outside are not negative.
  abbrev pub IsSane : Call F → Type 0
  IsSane (check _ _ _ _) = Unit
  IsSane (deduct _ amount) = lit 0 0 ≼ amount
  IsSane (pacing _ _ _) = Unit
  IsSane (record_event e) = HasEventBudget redis e
  IsSane (impression _ _ _) = Unit

  module _ (laws : IsRedis redis) (ordered : IsOrdered F) where
    open laws use {decremented}
    open ordered use {numbers_of_le, lt-eq-not-le}

    not-true : (b : Bool) → not b ≡ true → b ≡ false
    not-true true k = sym k
    not-true false k = refl

    covered_le : (v amount : F) → IsNumber v → IsNumber amount → lt v amount ≡ false → amount ≼ v
    covered_le v amount n m e = not-false _ (sym (lt-eq-not-le v amount n m) ∙ e)
      where
        not-false : (b : Bool) → not b ≡ false → b ≡ true
        not-false true _ = refl
        not-false false k = sym k

    paid-IsCovered :
        (amount : F) (s : Stored F)
        → lit 0 0 ≼ amount
        → IsCovered redis s
        → covers redis amount s ≡ true
        → IsCovered redis (paid redis amount s)
    paid-IsCovered amount absent a h c =
        let zero_number = (numbers_of_le _ _ a).0 in
        (decremented (lit 0 0) amount a
          (covered_le _ _ zero_number (numbers_of_le _ _ a).1 (not-true _ c))).0
    paid-IsCovered amount (number v) a h c =
        (decremented v amount a
          (covered_le _ _ (numbers_of_le _ _ h).1 (numbers_of_le _ _ a).1 (not-true _ c))).0
    paid-IsCovered amount other a h c = tt

    script-IsSolvent :
        (id : String) (amount : F) (w : World)
        → lit 0 0 ≼ amount
        → IsSolvent redis w
        → IsSolvent redis (lua_deduct redis (daily_key id) amount w).1
    script-IsSolvent id amount w a h j =
        let key = daily_key id in
        let same_key = eq_iff key (daily_key j) in
        subst (IsCovered redis)
          (sym ((lua_deduct-PaysOnce redis laws key amount w).1 (daily_key j)))
          (if-intro (IsCovered redis)
            (covers redis amount (holds w key) && str_eq key (daily_key j))
            (λ e.
              let both = and_true _ _ e in
              paid-IsCovered amount (holds w (daily_key j)) a (h j)
                (subst (λ k. covers redis amount (holds w k) ≡ true) (same_key.0 both.1) both.0))
            (λ _. h j))
      where
        and_true : (b c : Bool) → (b && c) ≡ true → (b ≡ true) × (c ≡ true)
        and_true true c e = (refl, e)
        and_true false c e = absurd (cc)

    deduct-IsSolvent :
        (id : String) (amount : F) (w : World)
        → lit 0 0 ≼ amount
        → IsSolvent redis w
        → IsSolvent redis (deduct_budget redis id amount w).1
    unfolding deduct_budget
    deduct-IsSolvent id amount w a h j =
        let cmd = lua_deduct redis (daily_key id) amount in
        subst (IsCovered redis)
          (sym (
            (after_script_lem redis laws id amount (redis.send ScriptReply cmd w).0
                (redis.send ScriptReply cmd w).1).1
              j))
          (send_of redis laws (IsSolvent redis) cmd w h (script-IsSolvent id amount w a h) j)

    pub perform-IsSolvent :
        (c : Call F) (w : World) → IsSane c → IsSolvent redis w → IsSolvent redis (perform c w)
    unfolding perform check_budget
    perform-IsSolvent (check fuel id user bid) w a h =
        with_remaining-IsSolvent redis laws fuel id user bid _ _
          (get_float-IsSolvent redis laws (daily_key id) w h)
    perform-IsSolvent (deduct id amount) w a h = deduct-IsSolvent id amount w a h
    perform-IsSolvent (pacing fuel id remaining) w a h =
        get_multiplier-IsSolvent redis laws fuel id remaining w h
    perform-IsSolvent (record_event e) w a h = record-IsSolvent redis laws e w a h
    perform-IsSolvent (impression id user imp) w a h =
        impression-IsSolvent redis laws id user imp w h

    -- No sequence of checks, deductions, pacing queries, campaign records and recorded impressions
    -- makes a daily budget negative, as long as the deducted amounts and the budgets in the records
    -- are not; any answer of Redis may be lost.
    pub perform_calls-IsSolvent :
        (cs : List (Call F)) (w : World)
        → All IsSane cs
        → IsSolvent redis w
        → IsSolvent redis (perform_calls cs w)
    perform_calls-IsSolvent [] w _ h = h
    perform_calls-IsSolvent (c ∷ cs) w (a, rest) h =
        perform_calls-IsSolvent cs (perform c w) rest (perform-IsSolvent c w a h)
