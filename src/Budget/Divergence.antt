-- ===== src/Budget/Divergence.antt =====
-- `GetMultiplier` and `getPacingInfo` call each other with the same arguments: when Redis answers,
-- the recursion has no end.
use bidflock.Prelude.{
  ℕ, zero, suc, ◌≡◌, refl, sym, ap, subst, ◌∙◌, true, false, Option, none, some, String, str_eq,
  inl, inr, if-intro, Bool,
}
use bidflock.Prelude.State.{Act}
use bidflock.Prelude.Float.{Float64}
use bidflock.Budget.Keys.{daily_key}
use bidflock.Budget.Redis.{Redis, IsRedis, Stored, number, absent, other}
use bidflock.Budget.Pacing.{
  found, to_reply, get_float, bucket, recent_spend, with_budget, get_pacing_info, get_multiplier,
  multiplier_from, make_info,
}
use bidflock.Budget.Window.{is_capped_holds}
use bidflock.Budget.Service.{check_budget, with_remaining, after_cap, pace, Check, allow}

module _ {F : Type 0} ⦃f : Float64 F⦄ (redis : Redis F) (laws : IsRedis redis) where
  open redis use {World, holds, entries, clock, send}
  open laws use {sent, clock_holds, clock_entries}

  -- Every call is answered.
  abbrev pub IsReliable : Type 1
  IsReliable =
      (A : Type 0) (cmd : World → A × World) (w : World)
      → send A cmd w ≡ (some (cmd w).0, (cmd w).1)

  -- A read of a key leaves the world as it is, answered or not.
  pub get_float_keeps : (key : String) (w : World) → (get_float redis key w).1 ≡ w
  unfolding get_float
  get_float_keeps key w = elim (sent (Stored F) (λ v. (holds v key, v)) w) [
    | inl e ↦ ap (λ p. p.1) e
    | inr (inl e) ↦ ap (λ p. p.1) e
    | inr (inr e) ↦ ap (λ p. p.1) e
  ]

  pub recent_spend_keeps :
      (id : String) (hour : ℕ) (w : World) → (recent_spend redis id hour w).1 ≡ w
  unfolding recent_spend bucket
  recent_spend_keeps id hour w = get_float_keeps _ _ ∙ get_float_keeps _ _ ∙ get_float_keeps _ w

  module _ (reliable : IsReliable) where
    get_float_found :
        (key : String) (w : World) {v : F}
        → holds w key ≡ number v
        → (get_float redis key w).0 ≡ found v
    unfolding get_float
    get_float_found key w h =
        ap (λ p. to_reply p.0) (reliable (Stored F) (λ v. (holds v key, v)) w)
        ∙ ap (λ s. to_reply (some s)) h

    module _ (id : String) (remaining v : F) where
      with_found :
          (m : Act World (Option F)) (w : World)
          → ((w' : World) → holds w' (daily_key id) ≡ number v → (m w').0 ≡ none)
          → holds w (daily_key id) ≡ number v
          → (with_budget redis m id remaining (found v) w).0 ≡ none
      unfolding with_budget
      with_found m w stuck h =
          let w1 = (clock w).1 in
          let hour = (clock w).0.hour in
          let same : holds (recent_spend redis id hour w1).1 ≡ holds w =
            ap holds (recent_spend_keeps id hour w1) ∙ clock_holds w in
          ap (make_info v remaining (recent_spend redis id hour w1).0 (clock w).0)
            (stuck _ (ap (λ g. g (daily_key id)) same ∙ h))

      info_diverges :
          (m : Act World (Option F)) (w : World)
          → ((w' : World) → holds w' (daily_key id) ≡ number v → (m w').0 ≡ none)
          → holds w (daily_key id) ≡ number v
          → (get_pacing_info redis m id remaining w).0 ≡ none
      unfolding get_pacing_info
      info_diverges m w stuck h =
          subst
            (λ r.
              (with_budget redis m id remaining r (get_float redis (daily_key id) w).1).0 ≡ none)
            (sym (get_float_found (daily_key id) w h))
            (with_found m _ stuck
              (ap (λ u. holds u (daily_key id)) (get_float_keeps (daily_key id) w) ∙ h))

      -- While the daily budget of the campaign is a number that Redis returns, `GetMultiplier` has
      -- not returned after any number of calls of itself.
      pub get_multiplier_diverges :
          (fuel : ℕ) (w : World)
          → holds w (daily_key id) ≡ number v
          → (get_multiplier redis fuel id remaining w).0 ≡ none
      unfolding get_multiplier
      get_multiplier_diverges zero w h = refl
      get_multiplier_diverges (suc fuel) w h = ap multiplier_from (
          info_diverges (get_multiplier redis fuel id remaining) w (get_multiplier_diverges fuel) h)

    -- What a check that has not been granted comes to.
    abbrev Refuses : Option (Check F) → Type 0
    Refuses none = Unit
    Refuses (some c) = c.allowed ≡ false

    pace-Refuses :
        (fuel : ℕ) (id : String) (remaining v : F) (w : World)
        → holds w (daily_key id) ≡ number v
        → Refuses (pace redis fuel id remaining w).0
    unfolding pace
    pace-Refuses fuel id remaining v w h =
        subst (λ o. Refuses (allow redis remaining o))
          (sym (get_multiplier_diverges id remaining v fuel w h)) tt

    after_cap-Refuses :
        (fuel : ℕ) (id : String) (remaining v : F) (o : Option Bool) (w : World)
        → holds w (daily_key id) ≡ number v
        → Refuses (after_cap redis fuel id remaining o w).0
    unfolding after_cap
    after_cap-Refuses fuel id remaining v none w h = pace-Refuses fuel id remaining v w h
    after_cap-Refuses fuel id remaining v (some true) w h = refl
    after_cap-Refuses fuel id remaining v (some false) w h = pace-Refuses fuel id remaining v w h

    with_remaining-Refuses :
        (fuel : ℕ) (id user : String) (bid : F) (s : Stored F) (w : World)
        → holds w (daily_key id) ≡ s
        → Refuses (with_remaining redis fuel id user bid (to_reply (some s)) w).0
    unfolding with_remaining
    with_remaining-Refuses fuel id user bid absent w h = refl
    with_remaining-Refuses fuel id user bid other w h = refl
    with_remaining-Refuses fuel id user bid (number v) w h =
        if-intro {A = Act World (Option (Check F))} (λ act. Refuses (act w).0) (f.lt v bid)
          (λ _. refl)
          (λ _.
            if-intro {A = Act World (Option (Check F))} (λ act. Refuses (act w).0) (str_eq user "")
              (λ _. pace-Refuses fuel id v v w h)
              (λ _.
                after_cap-Refuses fuel id v v _ _
                  (ap (λ g. g (daily_key id)) (is_capped_holds redis laws id user w) ∙ h)))

    -- While Redis answers every call, CheckBudget grants no bid, whatever the budget, the user and the
    -- bid are, and whatever number of calls of GetMultiplier it may make: it refuses or does not return.
    pub check_budget_never_grants :
        (fuel : ℕ) (id user : String) (bid : F) (w : World) (c : Check F)
        → (check_budget redis fuel id user bid w).0 ≡ some c
        → c.allowed ≡ false
    unfolding check_budget get_float
    check_budget_never_grants fuel id user bid w c e =
        let key = daily_key id in
        subst Refuses e (
          subst (λ r. Refuses (with_remaining redis fuel id user bid (to_reply r.0) r.1).0)
            (sym (reliable (Stored F) (λ v. (holds v key, v)) w))
            (with_remaining-Refuses fuel id user bid (holds w key) w refl))
