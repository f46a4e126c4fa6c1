-- ===== src/Budget/Grant.antt =====
-- What a grant of `CheckBudget` says of the budget and of the user.
use bidflock.Prelude.{
  ℕ, ◌≡◌, ◌≢◌, refl, sym, ap, subst, ◌∙◌, ◌⊎◌, inl, inr, Bool, true, false, Option, none, some,
  String, str_eq, if-intro,
}
use bidflock.Prelude.State.{Act}
use bidflock.Prelude.Float.{Float64}
use bidflock.Budget.Keys.{daily_key}
use bidflock.Budget.Redis.{Redis, IsRedis, Stored, absent, number, other}
use bidflock.Budget.Pacing.{
  GetReply, found, missing, failed, to_reply, value_or_zero, get_float, get_multiplier,
}
use bidflock.Budget.Limiter.{is_capped}
use bidflock.Budget.Service.{Check, allow, check_budget, with_remaining, after_cap, pace}
use bidflock.Budget.Divergence.{get_float_keeps}

module _ {F : Type 0} ⦃f : Float64 F⦄ (redis : Redis F) (laws : IsRedis redis) where
  open f use {lt}
  open redis use {World, holds, send}
  open laws use {sent}

  number_of_found : (s : Stored F) (v : F) → to_reply (some s) ≡ found v → s ≡ number v
  number_of_found absent v e = absurd (cc)
  number_of_found (number u) v e = ap (λ r. number (value_or_zero r)) e
  number_of_found other v e = absurd (cc)

  get_float-found :
      (key : String) (w : World) (v : F)
      → (get_float redis key w).0 ≡ found v
      → holds w key ≡ number v
  unfolding get_float
  get_float-found key w v h = elim (sent (Stored F) (λ u. (holds u key, u)) w) [
    | inl e ↦ number_of_found (holds w key) v (sym (ap (λ p. to_reply p.0) e) ∙ h)
    | inr (inl e) ↦ lost (sym (ap (λ p. to_reply p.0) e) ∙ h)
    | inr (inr e) ↦ lost (sym (ap (λ p. to_reply p.0) e) ∙ h)
  ]
    where
      lost : ◌≡◌ {A = GetReply F} failed (found v) → holds w key ≡ number v
      lost k = absurd (cc)

  module _ (id user : String) (bid : F) where
    -- A grant reports the budget, which covers the bid, and the user is unknown or not capped.
    abbrev Covered : Bool → F → World → Type 0
    Covered false v w = Unit
    Covered true v w =
        (holds w (daily_key id) ≡ number v)
        × ((lt v bid ≡ false)
            × ((str_eq user "" ≡ true) ⊎ ((is_capped redis id user w).0 ≢ some true)))

    abbrev pub IsFunded : World → Option (Check F) → Type 0
    IsFunded w none = Unit
    IsFunded w (some c) = Covered c.allowed c.remaining w

    pace-IsFunded :
        (fuel : ℕ) (v : F) (w w' : World)
        → holds w (daily_key id) ≡ number v
        → lt v bid ≡ false
        → (str_eq user "" ≡ true) ⊎ ((is_capped redis id user w).0 ≢ some true)
        → IsFunded w (pace redis fuel id v w').0
    unfolding pace
    pace-IsFunded fuel v w w' h e u = answer (get_multiplier redis fuel id v w').0
      where
        answer : (o : Option F) → IsFunded w (allow redis v o)
        answer none = tt
        answer (some m) = (h, (e, u))

    after_cap-IsFunded :
        (fuel : ℕ) (v : F) (w w' : World) (o : Option Bool)
        → (is_capped redis id user w).0 ≡ o
        → holds w (daily_key id) ≡ number v
        → lt v bid ≡ false
        → IsFunded w (after_cap redis fuel id v o w').0
    unfolding after_cap
    after_cap-IsFunded fuel v w w' none k h e =
        pace-IsFunded fuel v w w' h e (inr (λ c. absurd (cc)))
    after_cap-IsFunded fuel v w w' (some true) k h e = tt
    after_cap-IsFunded fuel v w w' (some false) k h e =
        pace-IsFunded fuel v w w' h e (inr (λ c. absurd (cc)))

    with_remaining-IsFunded :
        (fuel : ℕ) (r : GetReply F) (w : World)
        → ((v : F) → r ≡ found v → holds w (daily_key id) ≡ number v)
        → IsFunded w (with_remaining redis fuel id user bid r w).0
    unfolding with_remaining
    with_remaining-IsFunded fuel missing w h = tt
    with_remaining-IsFunded fuel failed w h = tt
    with_remaining-IsFunded fuel (found v) w h =
        if-intro {A = Act World (Option (Check F))} (λ act. IsFunded w (act w).0) (lt v bid)
          (λ _. tt)
          (λ e.
            if-intro {A = Act World (Option (Check F))} (λ act. IsFunded w (act w).0)
              (str_eq user "") (λ u. pace-IsFunded fuel v w w (h v refl) e (inl u))
              (λ _. after_cap-IsFunded fuel v w _ _ refl (h v refl) e))

    -- If CheckBudget grants a bid, the remaining budget that it reports is what the campaign's key
    -- holds and is not below the bid, and the user is unknown or the frequency cap did not answer that
    -- the user is capped.
    pub check_budget-IsFunded :
        (fuel : ℕ) (w : World) → IsFunded w (check_budget redis fuel id user bid w).0
    unfolding check_budget
    check_budget-IsFunded fuel w =
        let r = get_float redis (daily_key id) w in
        subst (λ v. IsFunded w (with_remaining redis fuel id user bid r.0 v).0)
          (sym (get_float_keeps redis laws (daily_key id) w))
          (with_remaining-IsFunded fuel r.0 w (get_float-found (daily_key id) w))
