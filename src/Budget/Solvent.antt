-- ===== src/Budget/Solvent.antt =====
-- Daily budgets that are not negative, and the reads and events that keep them so.
use bidflock.Prelude.{
  ℕ, zero, suc, ◌+◌, ◌≡◌, sym, ap, subst, ◌∙◌, Bool, true, false, ◌&&◌, Option, none, some, String,
  str_eq, if◌then◌else◌, if-intro,
}
use bidflock.Prelude.State.{Act, command}
use bidflock.Prelude.Float.{Float64, ◌≼◌}
use bidflock.Models.Campaign.{Campaign, CampaignEvent, campaign_deleted}
use bidflock.Budget.Keys.{daily_key, freq_cap_key}
use bidflock.Budget.Redis.{Redis, IsRedis, Stored, absent, number, other, is_absent}
use bidflock.Budget.Pacing.{
  GetReply, found, missing, failed, get_float, with_budget, get_pacing_info, get_multiplier,
}
use bidflock.Budget.Limiter.{record_impression, keep_for_cleanup, default_freq_cap_window}
use bidflock.Budget.Service.{
  Outcome, hours, init_budget, sync_campaign, handle_kafka_record, with_remaining, after_cap, pace,
  Check,
}
use bidflock.Budget.Window.{is_capped_holds}
use bidflock.Budget.Divergence.{get_float_keeps, recent_spend_keeps}
use bidflock.Budget.Spend.{send_of}

module _ {F : Type 0} ⦃f : Float64 F⦄ (redis : Redis F) where
  open f use {lit, neg, lt}
  open redis use {World, holds, clock, send, incr_by_float, incremented, set_nx, del, z_add, expire}

  -- The budget of a campaign in an event is not negative.
  abbrev pub HasBudget : Option (Campaign F) → Type 0
  HasBudget none = Unit
  HasBudget (some c) = lit 0 0 ≼ c.daily_budget

  abbrev pub HasEventBudget : Option (CampaignEvent F) → Type 0
  HasEventBudget none = Unit
  HasEventBudget (some e) = HasBudget e.campaign

  abbrev pub IsCovered : Stored F → Type 0
  IsCovered absent = Unit
  IsCovered (number v) = lit 0 0 ≼ v
  IsCovered other = Unit

  -- No daily budget is negative, and none is NaN.
  abbrev pub IsSolvent : World → Type 0
  IsSolvent w = (id : String) → IsCovered (holds w (daily_key id))

  module _ (laws : IsRedis redis) where
    open laws use {
      sent, clock_holds, incr_holds, expire_holds, set_nx_holds, del_holds, z_add_holds,
      decremented,
    }

    same : (w w' : World) → holds w' ≡ holds w → IsSolvent w → IsSolvent w'
    same w w' e h id = subst (λ g. IsCovered (g (daily_key id))) (sym e) (h id)

    pub get_float-IsSolvent :
        (key : String) (w : World) → IsSolvent w → IsSolvent (get_float redis key w).1
    get_float-IsSolvent key w h = subst IsSolvent (sym (get_float_keeps redis laws key w)) h

    with_budget-IsSolvent :
        (m : Act World (Option F))
        → ((w : World) → IsSolvent w → IsSolvent (m w).1)
        → (id : String) (remaining : F) (r : GetReply F) (w : World) → IsSolvent w
        → IsSolvent (with_budget redis m id remaining r w).1
    unfolding with_budget
    with_budget-IsSolvent m k id remaining missing w h = h
    with_budget-IsSolvent m k id remaining failed w h = h
    with_budget-IsSolvent m k id remaining (found v) w h = k _ (
        same w _
          (ap holds (recent_spend_keeps redis laws id (clock w).0.hour (clock w).1) ∙ clock_holds w)
          h)

    pub get_multiplier-IsSolvent :
        (fuel : ℕ) (id : String) (remaining : F) (w : World)
        → IsSolvent w
        → IsSolvent (get_multiplier redis fuel id remaining w).1
    unfolding get_multiplier get_pacing_info
    get_multiplier-IsSolvent zero id remaining w h = h
    get_multiplier-IsSolvent (suc fuel) id remaining w h =
        with_budget-IsSolvent (get_multiplier redis fuel id remaining)
          (get_multiplier-IsSolvent fuel id remaining) id remaining _ _
          (get_float-IsSolvent (daily_key id) w h)

    after_cap-IsSolvent :
        (fuel : ℕ) (id : String) (remaining : F) (o : Option Bool) (w : World)
        → IsSolvent w
        → IsSolvent (after_cap redis fuel id remaining o w).1
    unfolding after_cap pace
    after_cap-IsSolvent fuel id remaining none w h = get_multiplier-IsSolvent fuel id remaining w h
    after_cap-IsSolvent fuel id remaining (some true) w h = h
    after_cap-IsSolvent fuel id remaining (some false) w h =
        get_multiplier-IsSolvent fuel id remaining w h

    pub with_remaining-IsSolvent :
        (fuel : ℕ) (id user : String) (bid : F) (r : GetReply F) (w : World)
        → IsSolvent w
        → IsSolvent (with_remaining redis fuel id user bid r w).1
    unfolding with_remaining pace
    with_remaining-IsSolvent fuel id user bid missing w h = h
    with_remaining-IsSolvent fuel id user bid failed w h = h
    with_remaining-IsSolvent fuel id user bid (found v) w h =
        if-intro {A = Act World (Option (Check F))} (λ act. IsSolvent (act w).1) (lt v bid) (λ _. h)
          (λ _.
            if-intro {A = Act World (Option (Check F))} (λ act. IsSolvent (act w).1)
              (str_eq user "") (λ _. get_multiplier-IsSolvent fuel id v w h)
              (λ _.
                after_cap-IsSolvent fuel id v _ _
                  (same w _ (is_capped_holds redis laws id user w) h)))

    pub impression-IsSolvent :
        (id user imp : String) (w : World)
        → IsSolvent w
        → IsSolvent (record_impression redis id user imp w).1
    unfolding record_impression keep_for_cleanup
    impression-IsSolvent id user imp w h = cleanup _ _ (
        send_of redis laws IsSolvent (command (z_add key now imp)) (clock w).1 seen
          (same _ _ (z_add_holds key now imp (clock w).1) seen))
      where
        key : String
        key = freq_cap_key id user

        now : ℕ
        now = (clock w).0.unix_milli

        seen : IsSolvent (clock w).1
        seen = same w _ (clock_holds w) h

        cleanup :
            (o : Option (Unit {0})) (v : World)
            → IsSolvent v
            → IsSolvent (keep_for_cleanup redis key o v).1
        cleanup none v k = k
        cleanup (some _) v k =
            send_of redis laws IsSolvent
              (command (expire key (default_freq_cap_window + 3_600_000))) v k
              (same v _ (expire_holds _ _ v) k)

    set_nx-IsSolvent :
        (c : Campaign F) (w : World)
        → lit 0 0 ≼ c.daily_budget
        → IsSolvent w
        → IsSolvent (set_nx (daily_key c.id) c.daily_budget (hours 26) w)
    set_nx-IsSolvent c w b h id =
        subst IsCovered
          (sym (set_nx_holds (daily_key c.id) c.daily_budget (hours 26) w (daily_key id)))
          (if-intro IsCovered
            (str_eq (daily_key c.id) (daily_key id) && is_absent (holds w (daily_key id))) (λ _. b)
            (λ _. h id))

    init_budget-IsSolvent :
        (c : Campaign F) (o : Option Bool) (w : World)
        → lit 0 0 ≼ c.daily_budget
        → IsSolvent w
        → IsSolvent (init_budget redis c o w).1
    unfolding init_budget
    init_budget-IsSolvent c none w b h = h
    init_budget-IsSolvent c (some true) w b h = h
    init_budget-IsSolvent c (some false) w b h =
        send_of redis laws IsSolvent (command (set_nx (daily_key c.id) c.daily_budget (hours 26))) w
          h (set_nx-IsSolvent c w b h)

    sync_campaign-IsSolvent :
        (o : Option (Campaign F)) (w : World)
        → HasBudget o
        → IsSolvent w
        → IsSolvent (sync_campaign redis o w).1
    unfolding sync_campaign
    sync_campaign-IsSolvent none w b h = h
    sync_campaign-IsSolvent (some c) w b h = init_budget-IsSolvent c _ _ b (
        send_of redis laws IsSolvent
          (λ v. ((if is_absent (holds v (daily_key c.id)) then false else true), v)) w h h)

    del-IsSolvent : (k : String) (w : World) → IsSolvent w → IsSolvent (del k w)
    del-IsSolvent k w h id =
        subst IsCovered (sym (del_holds k w (daily_key id)))
          (if-intro IsCovered (str_eq k (daily_key id)) (λ _. tt) (λ _. h id))

    pub record-IsSolvent :
        (e : Option (CampaignEvent F)) (w : World)
        → HasEventBudget e
        → IsSolvent w
        → IsSolvent (handle_kafka_record redis e w).1
    unfolding handle_kafka_record
    record-IsSolvent none w b h = h
    record-IsSolvent (some e) w b h =
        if-intro {A = Act World Outcome} (λ act. IsSolvent (act w).1)
          (str_eq e.event_type campaign_deleted)
          (λ _.
            send_of redis laws IsSolvent (command (del (daily_key e.campaign_id))) w h
              (del-IsSolvent (daily_key e.campaign_id) w h))
          (λ _. sync_campaign-IsSolvent e.campaign w b h)
