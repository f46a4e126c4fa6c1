-- ===== src/Budget/Unchanged.antt =====
-- Checks change no key but those of the windows.
use bidflock.Prelude.{
  ℕ, zero, suc, ◌≡◌, refl, ap, ◌∙◌, Bool, true, false, Option, none, some, String, str_eq, if-intro,
}
use bidflock.Prelude.State.{Act}
use bidflock.Prelude.Float.{Float64}
use bidflock.Budget.Keys.{daily_key}
use bidflock.Budget.Redis.{Redis, IsRedis}
use bidflock.Budget.Pacing.{
  GetReply, found, missing, failed, with_budget, get_pacing_info, get_multiplier,
}
use bidflock.Budget.Service.{Check, with_remaining, after_cap, pace, check_budget}
use bidflock.Budget.Window.{is_capped_holds}
use bidflock.Budget.Divergence.{get_float_keeps, recent_spend_keeps}

module _ {F : Type 0} ⦃f : Float64 F⦄ (redis : Redis F) (laws : IsRedis redis) where
  open f use {lit, lt}
  open redis use {World, holds, clock}
  open laws use {clock_holds}

  with_budget_holds :
      (m : Act World (Option F))
      → ((w : World) → holds (m w).1 ≡ holds w)
      → (i : String) (remaining : F) (r : GetReply F) (w : World)
      → holds (with_budget redis m i remaining r w).1 ≡ holds w
  unfolding with_budget
  with_budget_holds m k i remaining missing w = refl
  with_budget_holds m k i remaining failed w = refl
  with_budget_holds m k i remaining (found v) w =
      k _ ∙ ap holds (recent_spend_keeps redis laws i (clock w).0.hour (clock w).1) ∙ clock_holds w

  pub get_multiplier_holds :
      (fuel : ℕ) (i : String) (remaining : F) (w : World)
      → holds (get_multiplier redis fuel i remaining w).1 ≡ holds w
  unfolding get_multiplier get_pacing_info
  get_multiplier_holds zero i remaining w = refl
  get_multiplier_holds (suc fuel) i remaining w =
      with_budget_holds (get_multiplier redis fuel i remaining)
        (get_multiplier_holds fuel i remaining) i remaining _ _
      ∙ ap holds (get_float_keeps redis laws (daily_key i) w)

  after_cap_holds :
      (fuel : ℕ) (i : String) (remaining : F) (o : Option Bool) (w : World)
      → holds (after_cap redis fuel i remaining o w).1 ≡ holds w
  unfolding after_cap pace
  after_cap_holds fuel i remaining none w = get_multiplier_holds fuel i remaining w
  after_cap_holds fuel i remaining (some true) w = refl
  after_cap_holds fuel i remaining (some false) w = get_multiplier_holds fuel i remaining w

  with_remaining_holds :
      (fuel : ℕ) (i user : String) (bid : F) (r : GetReply F) (w : World)
      → holds (with_remaining redis fuel i user bid r w).1 ≡ holds w
  unfolding with_remaining pace
  with_remaining_holds fuel i user bid missing w = refl
  with_remaining_holds fuel i user bid failed w = refl
  with_remaining_holds fuel i user bid (found v) w =
      if-intro {A = Act World (Option (Check F))} (λ act. holds (act w).1 ≡ holds w) (lt v bid)
        (λ _. refl)
        (λ _.
          if-intro {A = Act World (Option (Check F))} (λ act. holds (act w).1 ≡ holds w)
            (str_eq user "") (λ _. get_multiplier_holds fuel i v w)
            (λ _. after_cap_holds fuel i v _ _ ∙ is_capped_holds redis laws i user w))

  pub check_budget_holds :
      (fuel : ℕ) (i user : String) (bid : F) (w : World)
      → holds (check_budget redis fuel i user bid w).1 ≡ holds w
  unfolding check_budget
  check_budget_holds fuel i user bid w =
      with_remaining_holds fuel i user bid _ _
      ∙ ap holds (get_float_keeps redis laws (daily_key i) w)
