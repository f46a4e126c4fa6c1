-- ===== src/Simulator/Chain.antt =====
-- The events of one win, as event_gen.go publishes them, belong together.
use bidflock.Prelude.{
  ◌≡◌, refl, ap, ◌∙◌, true, false, List, [], ◌∷◌, ◌++◌, String, append_assoc, append_nil, sym,
  if-intro,
}
use bidflock.Prelude.State.{Act}
use bidflock.Prelude.Float.{Float64}
use bidflock.Models.Campaign.{Time}
use bidflock.Models.OpenRtb.{BidCandidate}
use bidflock.Simulator.Random.{Sources}
use bidflock.Simulator.Funnel.{
  Value, Publication, Published, impression, click, conversion, topic_impressions, topic_clicks,
  topic_conversions, impression_of, click_of, conversion_of, ctr_banner, cvr_default,
  prob_win_to_impression, simulate_funnel, fire_impression, after_impression, fire_click,
  after_click, fire_conversion,
}

module _ {F : Type 0} ⦃f : Float64 F⦄ (s : Sources F) (winner : BidCandidate F)
    (bid_id user_id ssp_id : String) where
  open s use {World}

  abbrev Keyed : Publication F → String → Type 0
  Keyed p topic = (p.topic ≡ topic) × (p.key ≡ winner.campaign_id)

  abbrev pub IsImpression : Value F → Type 0
  IsImpression (impression e) =
      (e.bid_id ≡ bid_id)
      × ((e.campaign_id ≡ winner.campaign_id)
          × ((e.ad_id ≡ winner.ad_id)
              × ((e.user_id ≡ user_id) × (e.price ≡ winner.clearing_price))))
  IsImpression (click _) = true ≡ false
  IsImpression (conversion _) = true ≡ false

  -- A click on the impression, by the same user, for the same ad.
  abbrev pub IsClickOn : Value F → Value F → Type 0
  IsClickOn (impression i) (click e) =
      (e.impression_id ≡ i.event_id)
      × ((e.campaign_id ≡ i.campaign_id) × ((e.ad_id ≡ i.ad_id) × (e.user_id ≡ i.user_id)))
  IsClickOn (impression _) (impression _) = true ≡ false
  IsClickOn (impression _) (conversion _) = true ≡ false
  IsClickOn (click _) _ = true ≡ false
  IsClickOn (conversion _) _ = true ≡ false

  abbrev pub IsConversionOf : Value F → Value F → Type 0
  IsConversionOf (click c) (conversion e) =
      (e.click_id ≡ c.event_id)
      × ((e.campaign_id ≡ c.campaign_id) × ((e.ad_id ≡ c.ad_id) × (e.user_id ≡ c.user_id)))
  IsConversionOf (click _) (impression _) = true ≡ false
  IsConversionOf (click _) (click _) = true ≡ false
  IsConversionOf (impression _) _ = true ≡ false
  IsConversionOf (conversion _) _ = true ≡ false

  abbrev Shown : Publication F → Type 0
  Shown i = Keyed i topic_impressions × IsImpression i.value

  -- Nothing, an impression, an impression with a click on it, or these and a conversion of the click.
  abbrev pub IsFunnel : List (Publication F) → Type 0
  IsFunnel [] = Unit
  IsFunnel (i ∷ []) = Shown i
  IsFunnel (i ∷ c ∷ []) = Shown i × (Keyed c topic_clicks × IsClickOn i.value c.value)
  IsFunnel (i ∷ c ∷ v ∷ []) =
      (Shown i × (Keyed c topic_clicks × IsClickOn i.value c.value))
      × (Keyed v topic_conversions × IsConversionOf c.value v.value)
  IsFunnel (_ ∷ _ ∷ _ ∷ _ ∷ _) = true ≡ false

  -- The calls are those before and a funnel.
  abbrev pub Adds : List (Publication F) → Published F World → Type 0
  Adds before st = (new : List (Publication F)) × (st.calls ≡ before ++ new) × IsFunnel new

  abbrev Step : Type 0
  Step = Act (Published F World) (Unit {0})

  module _ (w : World) (before : List (Publication F)) where
    abbrev Adding : List (Publication F) → Type 0
    Adding calls = Adds before (record { world = w; calls = calls })

    adds_none : Adding before
    adds_none = ([], sym (append_nil before), tt)

    adds_impression : (i : Publication F) → Shown i → Adding (before ++ (i ∷ []))
    adds_impression i h = (i ∷ [], refl, h)

    adds_click :
        (i c : Publication F)
        → Shown i
        → Keyed c topic_clicks × IsClickOn i.value c.value
        → Adding ((before ++ (i ∷ [])) ++ (c ∷ []))
    adds_click i c h k = (i ∷ c ∷ [], append_assoc before (i ∷ []) (c ∷ []), (h, k))

    adds_conversion :
        (i c v : Publication F)
        → Shown i
        → Keyed c topic_clicks × IsClickOn i.value c.value
        → Keyed v topic_conversions × IsConversionOf c.value v.value
        → Adding (((before ++ (i ∷ [])) ++ (c ∷ [])) ++ (v ∷ []))
    adds_conversion i c v h k m = (
      i ∷ c ∷ v ∷ [],
      ap (λ l. l ++ (v ∷ [])) (append_assoc before (i ∷ []) (c ∷ []))
          ∙ append_assoc before (i ∷ c ∷ []) (v ∷ []),
      ((h, k), m),
    )

  abbrev at_world : World → List (Publication F) → Published F World
  at_world w calls = record { world = w; calls = calls }

  abbrev shown : String → Time → Publication F
  shown id stamp = impression_of s winner bid_id user_id ssp_id id stamp

  abbrev hit : String → String → Time → Publication F
  hit id impression_id stamp = click_of s winner bid_id user_id ssp_id id impression_id stamp

  abbrev sold : String → String → F → Time → Publication F
  sold id click_id draw stamp = conversion_of s winner bid_id user_id ssp_id id click_id draw stamp

  module _ (before : List (Publication F)) where
    after_click-Adds :
        (i c : String) (t u : Time) (draw : F) (w : World)
        → let calls = (before ++ (shown i t ∷ [])) ++ (hit c i u ∷ []) in
          Adds before (after_click s winner bid_id user_id ssp_id c draw (at_world w calls)).1
    unfolding after_click fire_conversion
    after_click-Adds i c t u draw w =
        let calls = (before ++ (shown i t ∷ [])) ++ (hit c i u ∷ []) in
        let v = s.new_uuid w in
        let x = s.rng.float64 v.1 in
        let last = sold v.0 c x.0 (s.now x.1).0 in
        if-intro {A = Step} (λ act. Adds before (act (at_world w calls)).1) (f.lt cvr_default draw)
          (λ _.
            adds_click w before (shown i t) (hit c i u)
              ((refl, refl), (refl, (refl, (refl, (refl, refl)))))
              ((refl, refl), (refl, (refl, (refl, refl)))))
          (λ _.
            adds_conversion (s.now x.1).1 before (shown i t) (hit c i u) last
              ((refl, refl), (refl, (refl, (refl, (refl, refl)))))
              ((refl, refl), (refl, (refl, (refl, refl))))
              ((refl, refl), (refl, (refl, (refl, refl)))))

    after_impression-Adds :
        (i : String) (t : Time) (draw : F) (w : World)
        → Adds before
            (after_impression s winner bid_id user_id ssp_id i draw
              (at_world w (before ++ (shown i t ∷ [])))).1
    unfolding after_impression fire_click
    after_impression-Adds i t draw w =
        if-intro {A = Step} (λ act. Adds before (act (at_world w (before ++ (shown i t ∷ [])))).1)
          (f.lt ctr_banner draw)
          (λ _.
            adds_impression w before (shown i t)
              ((refl, refl), (refl, (refl, (refl, (refl, refl))))))
          (λ _. after_click-Adds i _ t _ _ _)

  -- The calls of SimulateFunnel are none, an impression of the winner under its campaign, that with a
  -- click on it, or these with a conversion of the click: each names the one before by its identifier
  -- and has its campaign, ad and user.
  pub simulate_funnel-Adds :
      (st : Published F World) → Adds st.calls (simulate_funnel s winner bid_id user_id ssp_id st).1
  unfolding simulate_funnel fire_impression
  simulate_funnel-Adds st =
      let x = s.rng.float64 st.world in
      if-intro {A = Step} (λ act. Adds st.calls (act (at_world x.1 st.calls)).1)
        (f.lt prob_win_to_impression x.0) (λ _. adds_none x.1 st.calls)
        (λ _. after_impression-Adds st.calls _ _ _ _)
