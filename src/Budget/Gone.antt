-- ===== src/Budget/Gone.antt =====
-- A missing daily budget stays missing.
use text.Mathlib.TextLemmas.{append_inj}
use bidflock.Prelude.{
  ℕ, ◌+◌, ◌≡◌, ◌≢◌, refl, ap, ◌∙◌, ◌⊎◌, inl, inr, Bool, true, false, ◌&&◌, Option, none, some,
  String, str_eq, eq_iff, if◌then◌else◌, if-intro, Bool-cases, arith,
}
use bidflock.Prelude.State.{Act, command}
use bidflock.Prelude.Float.{Float64}
use bidflock.Models.Campaign.{Campaign, CampaignEvent, campaign_deleted}
use bidflock.Budget.Keys.{daily_key, freq_cap_key}
use bidflock.Budget.Redis.{Redis, IsRedis, absent, is_absent}
use bidflock.Budget.Limiter.{record_impression, keep_for_cleanup, default_freq_cap_window}
use bidflock.Budget.Service.{
  Outcome, ScriptReply, hours, init_budget, sync_campaign, handle_kafka_record, check_budget,
  deduct_budget, lua_deduct,
}
use bidflock.Budget.Unchanged.{check_budget_holds}
use bidflock.Budget.Spend.{covers, paid, send_of, lua_deduct-PaysOnce, after_script_lem}

daily_key-ne : (a b : String) → a ≢ b → str_eq (daily_key a) (daily_key b) ≡ false
daily_key-ne a b apart = elim (Bool-cases (str_eq (daily_key a) (daily_key b))) [
  | inl e ↦ absurd (apart (append_inj ((eq_iff (daily_key a) (daily_key b)).0 e) refl).1)
  | inr e ↦ e
]

module _ {F : Type 0} ⦃f : Float64 F⦄ (redis : Redis F) (id : String) where
  open f use {lit, neg, lt}
  open redis use {World, holds, clock, send, set_nx, del, z_add, expire}

  -- A record that sets the budget of no campaign `id`.
  abbrev pub IsOther : Option (CampaignEvent F) → Type 0
  IsOther none = Unit
  IsOther (some e) =
      (str_eq e.event_type campaign_deleted ≡ true)
      ⊎ ((c : Campaign F) → e.campaign ≡ some c → c.id ≢ id)

  abbrev pub IsGone : World → Type 0
  IsGone w = holds w (daily_key id) ≡ absent

  module _ (laws : IsRedis redis) where
    open laws use {sent, clock_holds, expire_holds, set_nx_holds, del_holds, z_add_holds}

    pub kept : (w w' : World) → holds w' ≡ holds w → IsGone w → IsGone w'
    kept w w' e h = ap (λ g. g (daily_key id)) e ∙ h

    pub check-IsGone :
        (fuel : ℕ) (i user : String) (bid : F) (w : World)
        → IsGone w
        → IsGone (check_budget redis fuel i user bid w).1
    check-IsGone fuel i user bid w h = kept w _ (check_budget_holds redis laws fuel i user bid w) h

    not_covered :
        (i : String) (amount : F) (w : World)
        → lt (lit 0 0) amount ≡ true
        → IsGone w
        → (covers redis amount (holds w (daily_key i)) && str_eq (daily_key i) (daily_key id))
          ≡ false
    not_covered i amount w paid h = elim (Bool-cases (str_eq (daily_key i) (daily_key id))) [
      | inl same ↦
          let key : daily_key i ≡ daily_key id = (eq_iff (daily_key i) (daily_key id)).0 same in
          rw (same, key, h, paid) refl
      | inr apart ↦ rw apart (ground arith)
    ]

    script-IsGone :
        (i : String) (amount : F) (w : World)
        → lt (lit 0 0) amount ≡ true
        → IsGone w
        → IsGone (lua_deduct redis (daily_key i) amount w).1
    script-IsGone i amount w more h =
        (lua_deduct-PaysOnce redis laws (daily_key i) amount w).1 (daily_key id)
        ∙ ap (λ b. if b then paid redis amount (holds w (daily_key id)) else holds w (daily_key id))
            (not_covered i amount w more h)
        ∙ h

    pub deduct-IsGone :
        (i : String) (amount : F) (w : World)
        → lt (lit 0 0) amount ≡ true
        → IsGone w
        → IsGone (deduct_budget redis i amount w).1
    unfolding deduct_budget
    deduct-IsGone i amount w more h =
        let cmd = lua_deduct redis (daily_key i) amount in
        (after_script_lem redis laws i amount (send ScriptReply cmd w).0
            (send ScriptReply cmd w).1).1
          id
        ∙ send_of redis laws IsGone cmd w h (script-IsGone i amount w more h)

    init_budget-IsGone :
        (c : Campaign F) (o : Option Bool) (w : World)
        → c.id ≢ id
        → IsGone w
        → IsGone (init_budget redis c o w).1
    unfolding init_budget
    init_budget-IsGone c none w apart h = h
    init_budget-IsGone c (some true) w apart h = h
    init_budget-IsGone c (some false) w apart h =
        send_of redis laws IsGone (command (set_nx (daily_key c.id) c.daily_budget (hours 26))) w h
          (set_nx_holds (daily_key c.id) c.daily_budget (hours 26) w (daily_key id)
            ∙ rw (daily_key-ne c.id id apart) h)

    sync_campaign-IsGone :
        (o : Option (Campaign F)) (w : World)
        → ((c : Campaign F) → o ≡ some c → c.id ≢ id)
        → IsGone w
        → IsGone (sync_campaign redis o w).1
    unfolding sync_campaign
    sync_campaign-IsGone none w apart h = h
    sync_campaign-IsGone (some c) w apart h = init_budget-IsGone c _ _ (apart c refl) (
        send_of redis laws IsGone
          (λ v. ((if is_absent (holds v (daily_key c.id)) then false else true), v)) w h h)

    del-IsGone : (k : String) (w : World) → IsGone w → IsGone (del k w)
    del-IsGone k w h =
        del_holds k w (daily_key id)
        ∙ if-intro (λ s. s ≡ absent) (str_eq k (daily_key id)) (λ _. refl) (λ _. h)

    pub record-IsGone :
        (e : Option (CampaignEvent F)) (w : World)
        → IsOther e
        → IsGone w
        → IsGone (handle_kafka_record redis e w).1
    unfolding handle_kafka_record
    record-IsGone none w other h = h
    record-IsGone (some e) w other h =
        if-intro {A = Act World Outcome} (λ act. IsGone (act w).1)
          (str_eq e.event_type campaign_deleted)
          (λ _.
            send_of redis laws IsGone (command (del (daily_key e.campaign_id))) w h
              (del-IsGone (daily_key e.campaign_id) w h))
          (λ kind. sync_campaign-IsGone e.campaign w (of_change kind other) h)
      where
        of_change :
            str_eq e.event_type campaign_deleted ≡ false
            → IsOther (some e)
            → (c : Campaign F) → e.campaign ≡ some c
            → c.id ≢ id
        of_change kind (inl gone) = absurd (cc (kind, gone))
        of_change kind (inr apart) = apart

    pub impression-IsGone :
        (i user imp : String) (w : World)
        → IsGone w
        → IsGone (record_impression redis i user imp w).1
    unfolding record_impression keep_for_cleanup
    impression-IsGone i user imp w h = cleanup _ _ (
        send_of redis laws IsGone (command (z_add key now imp)) (clock w).1 seen
          (kept _ _ (z_add_holds key now imp (clock w).1) seen))
      where
        key : String
        key = freq_cap_key i user

        now : ℕ
        now = (clock w).0.unix_milli

        seen : IsGone (clock w).1
        seen = kept w _ (clock_holds w) h

        cleanup :
            (o : Option (Unit {0})) (v : World)
            → IsGone v
            → IsGone (keep_for_cleanup redis key o v).1
        cleanup none v k = k
        cleanup (some _) v k =
            send_of redis laws IsGone (command (expire key (default_freq_cap_window + 3_600_000))) v
              k (kept v _ (expire_holds _ _ v) k)
