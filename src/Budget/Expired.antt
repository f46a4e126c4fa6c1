-- ===== src/Budget/Expired.antt =====
-- A daily budget whose key has expired.
use bidflock.Prelude.{
  ℕ, ◌≡◌, refl, sym, ap, subst, ◌∙◌, inl, inr, true, false, ◌&&◌, Option, some, String, Bool-cases,
  List, [], ◌∷◌, All,
}
use bidflock.Prelude.Float.{Float64}
use bidflock.Budget.Keys.{daily_key}
use bidflock.Budget.Redis.{Redis, IsRedis, Stored}
use bidflock.Budget.Pacing.{to_reply, get_float}
use bidflock.Budget.Service.{
  Check, ScriptReply, with_remaining, check_budget, deduct_budget, lua_deduct,
}
use bidflock.Budget.Unchanged.{get_multiplier_holds}
use bidflock.Budget.Spend.{is_paid, lua_deduct-PaysOnce, after_script_lem}
use bidflock.Budget.History.{
  Call, check, deduct, pacing, record_event, impression, perform, perform_calls,
}
use bidflock.Budget.Gone.{
  IsOther, IsGone, kept, check-IsGone, deduct-IsGone, record-IsGone, impression-IsGone,
}

module _ {F : Type 0} ⦃f : Float64 F⦄ (redis : Redis F) (id : String) where
  open f use {lit, neg, lt}
  open redis use {World, holds, clock, send, set_nx, del, z_add, expire}

  -- A call that is no event of the campaign; a deduction is of more than nothing.
  abbrev pub IsSilent : Call F → Type 0
  IsSilent (check _ _ _ _) = Unit
  IsSilent (deduct _ amount) = lt (lit 0 0) amount ≡ true
  IsSilent (pacing _ _ _) = Unit
  IsSilent (record_event e) = IsOther redis id e
  IsSilent (impression _ _ _) = Unit

  -- A check that has returned and refused.
  abbrev pub IsRefused : Option (Check F) → Type 0
  IsRefused o = (c : Check F) × (o ≡ some c) × (c.allowed ≡ false)

  module _ (laws : IsRedis redis) where
    open laws use {sent, clock_holds, expire_holds, set_nx_holds, del_holds, z_add_holds}

    perform-IsGone :
        (c : Call F) (w : World)
        → IsSilent c
        → IsGone redis id w
        → IsGone redis id (perform redis c w)
    unfolding perform
    perform-IsGone (check fuel i user bid) w s h = check-IsGone redis id laws fuel i user bid w h
    perform-IsGone (deduct i amount) w s h = deduct-IsGone redis id laws i amount w s h
    perform-IsGone (pacing fuel i remaining) w s h =
        kept redis id laws w _ (get_multiplier_holds redis laws fuel i remaining w) h
    perform-IsGone (record_event e) w s h = record-IsGone redis id laws e w s h
    perform-IsGone (impression i user imp) w s h = impression-IsGone redis id laws i user imp w h

    perform_calls-IsGone :
        (cs : List (Call F)) (w : World)
        → All IsSilent cs
        → IsGone redis id w
        → IsGone redis id (perform_calls redis cs w)
    perform_calls-IsGone [] w _ h = h
    perform_calls-IsGone (c ∷ cs) w (s, rest) h =
        perform_calls-IsGone cs (perform redis c w) rest (perform-IsGone c w s h)

    check-IsRefused :
        (fuel : ℕ) (user : String) (bid : F) (w : World)
        → IsGone redis id w
        → IsRefused (check_budget redis fuel id user bid w).0
    unfolding check_budget get_float with_remaining
    check-IsRefused fuel user bid w h =
        let read : World → Stored F × World = λ v. (holds v (daily_key id), v) in
        let out : Option (Stored F) × World → Option (Check F) =
          λ p. (with_remaining redis fuel id user bid (to_reply p.0) p.1).0 in
        elim (sent (Stored F) read w) [
          | inl e ↦
              subst (λ p. IsRefused (out p)) (sym e)
                (subst (λ s. IsRefused (out (some s, w))) (sym h) (_, refl, refl))
          | inr (inl e) ↦ subst (λ p. IsRefused (out p)) (sym e) (_, refl, refl)
          | inr (inr e) ↦ subst (λ p. IsRefused (out p)) (sym e) (_, refl, refl)
        ]

    deduct_refused :
        (amount : F) (w : World)
        → lt (lit 0 0) amount ≡ true
        → IsGone redis id w
        → (deduct_budget redis id amount w).0.0 ≡ false
    unfolding deduct_budget
    deduct_refused amount w more h =
        let cmd = lua_deduct redis (daily_key id) amount in
        let short : is_paid redis (some (cmd w).0) ≡ false =
          (lua_deduct-PaysOnce redis laws (daily_key id) amount w).0 ∙ rw (h, more) refl in
        (after_script_lem redis laws id amount (send ScriptReply cmd w).0
          (send ScriptReply cmd w).1).0
        ∙ elim (sent ScriptReply cmd w) [
          | inl e ↦ ap (λ p. is_paid redis p.0) e ∙ short
          | inr (inl e) ↦ ap (λ p. is_paid redis p.0) e
          | inr (inr e) ↦ ap (λ p. is_paid redis p.0) e
        ]

    -- Once the key of a daily budget has expired, the campaign is refused until an event about it:
    -- after any sequence of checks, deductions of more than nothing, pacing queries, impressions and
    -- records that are no creation or update of this campaign, the key is still missing, every check
    -- of the campaign returns a refusal, and every deduction of more than nothing fails. Any answer of
    -- Redis may be lost.
    pub expired_stays-IsRefused :
        (cs : List (Call F)) (w : World)
        → All IsSilent cs
        → IsGone redis id w
        → let w' = perform_calls redis cs w in
          IsGone redis id w'
          × ((fuel : ℕ) (user : String) (bid : F)
              → IsRefused (check_budget redis fuel id user bid w').0)
          × ((amount : F) → (lt (lit 0 0) amount && (deduct_budget redis id amount w').0.0) ≡ false)
    expired_stays-IsRefused cs w silent gone =
        let still = perform_calls-IsGone cs w silent gone in
        (
          still,
          λ fuel user bid. check-IsRefused fuel user bid _ still,
          λ amount. elim (Bool-cases (lt (lit 0 0) amount)) [
            | inl more ↦ rw more (deduct_refused amount _ more still)
            | inr less ↦ rw less refl
          ],
        )
