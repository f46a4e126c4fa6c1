-- ===== src/Budget/Spend.antt =====
-- `DeductBudget` against an atomic check-and-subtract of one budget.
use bidflock.Prelude.{
  eq_iff, ◌≡◌, ◌≢◌, refl, sym, ap, subst, ◌∙◌, ◌⊎◌, inl, inr, Bool, true, false, not, ◌&&◌, Option,
  none, some, String, str_eq, eq_refl, ◌==◌, if◌then◌else◌, if-intro,
}
use bidflock.Prelude.State.{Act, command}
use bidflock.Prelude.Float.{Float64}
use bidflock.Budget.Keys.{daily_key, hourly_key, daily_not_hourly}
use bidflock.Budget.Redis.{Redis, IsRedis, Stored, absent, number, other, after_incr}
use bidflock.Budget.Pacing.{get_float}
use bidflock.Budget.Divergence.{get_float_keeps}
use bidflock.Budget.Service.{
  ScriptReply, returned, script_error, lua_deduct, lua_deduct_from, track_spend, after_script,
  deduct_budget, hours,
}

module _ {F : Type 0} ⦃f : Float64 F⦄ (redis : Redis F) where
  open f use {lit, neg, lt}
  open redis use {World, holds, clock, send, incr_by_float, expire, incremented}

  -- The budget pays the amount.
  abbrev pub covers : F → Stored F → Bool
  covers amount absent = not (lt (lit 0 0) amount)
  covers amount (number current) = not (lt current amount)
  covers amount other = false

  -- The budget after the amount has been paid.
  abbrev pub paid : F → Stored F → Stored F
  paid amount s = after_incr incremented (neg amount) s

  abbrev pub is_paid : Option ScriptReply → Bool
  is_paid none = false
  is_paid (some script_error) = false
  is_paid (some (returned n)) = n == 1

  module _ (laws : IsRedis redis) where
    open laws use {sent, clock_holds, incr_holds, expire_holds}

    -- A call leaves a world that is the old one or the one after the command.
    pub send_of {ℓ} :
        {A : Type 0} (P : World → Type ℓ) (cmd : Act World A) (w : World)
        → P w
        → P (cmd w).1
        → P (send A cmd w).1
    send_of {A = A} P cmd w old new = elim (sent A cmd w) [
      | inl e ↦ subst (λ p. P p.1) (sym e) new
      | inr (inl e) ↦ subst (λ p. P p.1) (sym e) old
      | inr (inr e) ↦ subst (λ p. P p.1) (sym e) new
    ]

    -- The budget at `key` pays if it can, and no other key changes.
    abbrev PaysOnce : String → F → World → ScriptReply × World → Type 0
    PaysOnce key amount w (reply, w') =
        (is_paid (some reply) ≡ covers amount (holds w key))
        × ((j : String)
            → holds w' j ≡ (
                if covers amount (holds w key) && str_eq key j
                then paid amount (holds w j)
                else holds w j))

    PaysOnce-of_test :
        (key : String) (amount : F) (w : World) (short : Bool)
        → covers amount (holds w key) ≡ not short
        → PaysOnce key amount w
            (if short then (returned 0, w) else (returned 1, incr_by_float key (neg amount) w))
    PaysOnce-of_test key amount w true e = (
      sym e,
      λ j. ap (λ b. if b && str_eq key j then paid amount (holds w j) else holds w j) (sym e),
    )
    PaysOnce-of_test key amount w false e = (
      sym e,
      λ j.
          incr_holds key (neg amount) w j
          ∙ ap (λ b. if b && str_eq key j then paid amount (holds w j) else holds w j) (sym e),
    )

    pub lua_deduct-PaysOnce :
        (key : String) (amount : F) (w : World)
        → PaysOnce key amount w (lua_deduct redis key amount w)
    unfolding lua_deduct lua_deduct_from
    lua_deduct-PaysOnce key amount w = from (holds w key) refl
      where
        from :
            (s : Stored F)
            → holds w key ≡ s
            → PaysOnce key amount w (lua_deduct_from redis key amount s w)
        from other e = (
          ap (covers amount) (sym e),
          λ j.
              ap
                (λ s.
                  if covers amount s && str_eq key j then paid amount (holds w j) else holds w j)
                (sym e),
        )
        from absent e = PaysOnce-of_test key amount w (lt (lit 0 0) amount) (ap (covers amount) e)
        from (number v) e = PaysOnce-of_test key amount w (lt v amount) (ap (covers amount) e)

    -- The daily budgets are what they were.
    abbrev pub SameBudgets : World → World → Type 0
    SameBudgets w w' = (id : String) → holds w' (daily_key id) ≡ holds w (daily_key id)

    pub track_spend_same :
        (id : String) (amount : F) (w : World) → SameBudgets w (track_spend redis id amount w).1
    unfolding track_spend
    track_spend_same id amount w j =
        let hour = (clock w).0.hour in
        let w1 = (clock w).1 in
        let added : Act World (Unit {0}) = command (incr_by_float (hourly_key id hour) amount) in
        let kept : Act World (Unit {0}) = command (expire (hourly_key id hour) (hours 2)) in
        let w2 = (send (Unit {0}) added w1).1 in
        let first : holds w1 (daily_key j) ≡ holds w (daily_key j) =
          ap (λ g. g (daily_key j)) (clock_holds w) in
        let second : holds w2 (daily_key j) ≡ holds w (daily_key j) =
          send_of (λ v. holds v (daily_key j) ≡ holds w (daily_key j)) added w1 first
            (incr_holds (hourly_key id hour) amount w1 (daily_key j)
              ∙ ap
                  (λ b.
                    if b
                    then after_incr incremented amount (holds w1 (daily_key j))
                    else holds w1 (daily_key j))
                  (daily_not_hourly j id hour)
              ∙ first) in
        send_of (λ v. holds v (daily_key j) ≡ holds w (daily_key j)) kept w2 second
          (ap (λ g. g (daily_key j)) (expire_holds (hourly_key id hour) (hours 2) w2) ∙ second)

    pub after_script_lem :
        (id : String) (amount : F) (r : Option ScriptReply) (w : World)
        → ((after_script redis id amount r w).0.0 ≡ is_paid r)
          × SameBudgets w (after_script redis id amount r w).1
    unfolding after_script
    after_script_lem id amount none w = (refl, λ j. refl)
    after_script_lem id amount (some script_error) w = (refl, λ j. refl)
    after_script_lem id amount (some (returned n)) w =
        if-intro {A = Act World (Bool × F)}
          (λ act. ((act w).0.0 ≡ (n == 1)) × SameBudgets w (act w).1) (n == 1)
          (λ e. (
            sym e,
            λ j.
                track_spend_same id amount (get_float redis (daily_key id) w).1 j
                ∙ ap (λ v. holds v (daily_key j)) (get_float_keeps redis laws (daily_key id) w),
          ))
          (λ e. (sym e, λ j. refl))

    -- What came back of the script, if anything did.
    abbrev script_answer : String → F → World → Option ScriptReply
    script_answer id amount w = (send ScriptReply (lua_deduct redis (daily_key id) amount) w).0

    -- The key of the campaign's budget is charged as one atomic test and subtraction if the answer
    -- of the script arrives. If it does not, the key is as it was or charged. The other budgets stay.
    abbrev pub Deducts : String → F → World → (Bool × F) × World → Type 0
    Deducts id amount w (reply, w') =
        let before = holds w (daily_key id) in
        let after = holds w' (daily_key id) in
        (((script_answer id amount w ≢ none)
            × (reply.0 ≡ covers amount before)
            × (after ≡ (if covers amount before then paid amount before else before)))
          ⊎ ((script_answer id amount w ≡ none)
              × (reply.0 ≡ false)
              × ((after ≡ before)
                  ⊎ (after ≡ (if covers amount before then paid amount before else before)))))
        × ((j : String)
            → holds w' (daily_key j) ≡ (
                if str_eq (daily_key id) (daily_key j)
                then holds w' (daily_key id)
                else holds w (daily_key j)))

    only_one :
        (id : String) (w w' : World)
        → ((j : String)
            → str_eq (daily_key id) (daily_key j) ≡ false
            → holds w' (daily_key j) ≡ holds w (daily_key j))
        → (j : String)
        → holds w' (daily_key j) ≡ (
            if str_eq (daily_key id) (daily_key j)
            then holds w' (daily_key id)
            else holds w (daily_key j))
    only_one id w w' others j =
        if-intro (λ x. holds w' (daily_key j) ≡ x) (str_eq (daily_key id) (daily_key j))
          (λ e. ap (holds w') (sym ((eq_iff (daily_key id) (daily_key j)).0 e))) (others j)

    -- DeductBudget is an atomic test and subtraction of the campaign's budget: if the answer of its
    -- script arrives, it succeeds exactly if the budget covers the amount, and only then subtracts it.
    -- If that answer is lost it reports no success, and the budget is either as it was or as the script
    -- left it. No other campaign's budget changes.
    pub deduct_budget-Deducts :
        (id : String) (amount : F) (w : World)
        → Deducts id amount w (deduct_budget redis id amount w)
    unfolding deduct_budget
    deduct_budget-Deducts id amount w =
        let key = daily_key id in
        let ran = lua_deduct-PaysOnce key amount w in
        let run = lua_deduct redis key amount w in
        let charged : holds run.1 key
            ≡ (if covers amount (holds w key) then paid amount (holds w key) else holds w key) =
          ran.1 key ∙ own (covers amount (holds w key)) _ _ in
        let others : (j : String)
            → str_eq key (daily_key j) ≡ false
            → holds run.1 (daily_key j) ≡ holds w (daily_key j) =
          λ j ne. ran.1 (daily_key j) ∙ other_key (covers amount (holds w key)) _ _ ne in
        let kept = after_script_lem id amount in
        elim (sent ScriptReply (lua_deduct redis key amount) w) [
          | inl e ↦
              subst (λ r. Deducts id amount w (after_script redis id amount r.0 r.1)) (sym e)
                (
                  inl (
                    λ lost. absurd (cc (ap (λ r. r.0) e, lost)),
                    (kept (some run.0) run.1).0 ∙ ran.0,
                    (kept (some run.0) run.1).1 id ∙ charged,
                  ),
                  only_one id w _ (λ j ne. (kept (some run.0) run.1).1 j ∙ others j ne),
                )
          | inr (inl e) ↦
              subst (λ r. Deducts id amount w (after_script redis id amount r.0 r.1)) (sym e)
                (
                  inr (ap (λ r. r.0) e, (kept none w).0, inl ((kept none w).1 id)),
                  only_one id w _ (λ j ne. (kept none w).1 j),
                )
          | inr (inr e) ↦
              subst (λ r. Deducts id amount w (after_script redis id amount r.0 r.1)) (sym e)
                (
                  inr (
                    ap (λ r. r.0) e,
                    (kept none run.1).0,
                    inr ((kept none run.1).1 id ∙ charged),
                  ),
                  only_one id w _ (λ j ne. (kept none run.1).1 j ∙ others j ne),
                )
        ]
      where
        own :
            {A : Type 0} (b : Bool) (x y : A)
            → (if b && str_eq (daily_key id) (daily_key id) then x else y) ≡ (if b then x else y)
        own true x y = ap (λ t. if t then x else y) (eq_refl (daily_key id))
        own false x y = refl

        other_key :
            {A : Type 0} (b : Bool) (x y : A) {t : Bool} → t ≡ false → (if b && t then x else y) ≡ y
        other_key true x y e = ap (λ t. if t then x else y) e
        other_key false x y e = refl
