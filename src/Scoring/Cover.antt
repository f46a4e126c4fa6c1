-- ===== src/Scoring/Cover.antt =====
-- `ScoreAds` against the cache: which ads it scores, and how far a bid goes.
use bidflock.Prelude.{
  ◌≡◌, Bool, refl, sym, ap, subst, ◌∙◌, true, false, not, ◌&&◌, Option, none, some, List, [], ◌∷◌,
  ◌++◌, map, String, append_assoc, append_nil, if-intro,
}
use bidflock.Prelude.Float.{Float64, IsOrdered, IsNumber}
use bidflock.Models.Campaign.{CampaignCache}
use bidflock.Models.Messages.{AdScore, BidContext, ScoreRequest}
use bidflock.Scoring.Store.{Store, IsStore}
use bidflock.Scoring.Feature.{assemble, get_historical_ctr, feature_key}
use bidflock.Scoring.Service.{
  campaign_key, effective_bid_of, ad_score, score_campaign, score_cached, score_campaigns,
  score_ads,
}

-- An ad of a cached campaign.
abbrev pub Entry : Type 0 → Type 0
Entry F = String × (CampaignCache F × String)

module _ {F : Type 0} ⦃f : Float64 F⦄ where
  open f use {lit, lt, le}

  abbrev pub entries_of : String → Option (CampaignCache F) → List (Entry F)
  entries_of id none = []
  entries_of id (some c) = map (λ ad. (id, (c, ad))) c.ad_ids

  -- The ads of the campaigns that are cached, in the order of the request.
  abbrev pub entries_for : (String → Option (CampaignCache F)) → List String → List (Entry F)
  entries_for look [] = []
  entries_for look (id ∷ ids) = entries_of id (look (campaign_key id)) ++ entries_for look ids

  -- A positive ceiling is not exceeded.
  abbrev KeepsCeiling : Bool → F → F → Type 0
  KeepsCeiling false ceiling bid = Unit
  KeepsCeiling true ceiling bid = lt ceiling bid ≡ false

  abbrev pub IsScoreOf : Entry F → AdScore F → Type 0
  IsScoreOf (id, (c, ad)) s =
      (s.campaign_id ≡ id)
      × ((s.ad_id ≡ ad) × KeepsCeiling (lt (lit 0 0) c.bid_ceiling) c.bid_ceiling s.effective_bid)

  abbrev pub Covers : List (Entry F) → List (AdScore F) → Type 0
  Covers [] [] = Unit
  Covers (e ∷ es) (s ∷ ss) = IsScoreOf e s × Covers es ss
  Covers [] (_ ∷ _) = true ≡ false
  Covers (_ ∷ _) [] = true ≡ false

  Covers-append :
      (es : List (Entry F)) (ss : List (AdScore F)) (e : Entry F) (s : AdScore F)
      → Covers es ss
      → IsScoreOf e s
      → Covers (es ++ (e ∷ [])) (ss ++ (s ∷ []))
  Covers-append [] [] e s h k = (k, tt)
  Covers-append (e' ∷ es) (s' ∷ ss) e s (h, hs) k = (h, Covers-append es ss e s hs k)
  Covers-append [] (_ ∷ _) e s h k = absurd (cc)
  Covers-append (_ ∷ _) [] e s h k = absurd (cc)

  module _ (ordered : IsOrdered F) where
    open ordered use {numbers_of_le, lt-eq-not-le, lt-le}

    effective_bid_le :
        (c : CampaignCache F) (ctr : F)
        → lt (lit 0 0) c.bid_ceiling ≡ true
        → lt c.bid_ceiling (effective_bid_of c ctr) ≡ false
    unfolding effective_bid_of
    effective_bid_le c ctr positive =
        let bid = f.mul (f.mul c.base_bid ctr) (lit 1000 0) in
        let number : IsNumber c.bid_ceiling =
          (numbers_of_le (lit 0 0) c.bid_ceiling (lt-le (lit 0 0) c.bid_ceiling positive)).1 in
        if-intro {A = F} (λ b. lt c.bid_ceiling b ≡ false)
          (lt (lit 0 0) c.bid_ceiling && lt c.bid_ceiling bid)
          (λ _. lt-eq-not-le c.bid_ceiling c.bid_ceiling number number ∙ ap not number)
          (λ e. sym (ap (λ t. t && lt c.bid_ceiling bid) positive) ∙ e)

    effective_bid-KeepsCeiling :
        (c : CampaignCache F) (ctr : F)
        → KeepsCeiling (lt (lit 0 0) c.bid_ceiling) c.bid_ceiling (effective_bid_of c ctr)
    effective_bid-KeepsCeiling c ctr =
        if_positive (lt (lit 0 0) c.bid_ceiling) (effective_bid_le c ctr)
      where
        if_positive :
            (b : Bool)
            → (b ≡ true → lt c.bid_ceiling (effective_bid_of c ctr) ≡ false)
            → KeepsCeiling b c.bid_ceiling (effective_bid_of c ctr)
        if_positive true h = h refl
        if_positive false h = tt

    module _ (store : Store F) (laws : IsStore store) where
      open store use {World, cached, get_campaign}
      open laws use {now_keeps, get_number_keeps, get_campaign_keeps}

      assemble_keeps :
          (req : BidContext) (id ad : String) (w : World)
          → cached (assemble store req id ad w).1 ≡ cached w
      unfolding assemble get_historical_ctr
      assemble_keeps req id ad w =
          get_number_keeps (feature_key "ad" ad) _
          ∙ get_number_keeps (feature_key "campaign" id) _
          ∙ now_keeps w

      score_campaign-Covers :
          (req : BidContext) (id : String) (c : CampaignCache F) (ads : List String)
          (ss : List (AdScore F)) (es : List (Entry F)) (w : World)
          → Covers es ss
          → Covers (es ++ map (λ ad. (id, (c, ad))) ads) (score_campaign store req id c ads ss w).0
            × (cached (score_campaign store req id c ads ss w).1 ≡ cached w)
      unfolding score_campaign ad_score
      score_campaign-Covers req id c [] ss es w h =
          (subst (λ l. Covers l ss) (sym (append_nil es)) h, refl)
      score_campaign-Covers req id c (ad ∷ ads) ss es w h =
          let out = assemble store req id ad w in
          let s = ad_score id c ad out.0 in
          let rest =
            score_campaign-Covers req id c ads (ss ++ (s ∷ [])) (es ++ ((id, (c, ad)) ∷ [])) out.1 (
              Covers-append es ss (id, (c, ad)) s h
                (refl, (refl, effective_bid-KeepsCeiling c s.predicted_ctr))) in
          (
            subst (λ l. Covers l (score_campaign store req id c ads (ss ++ (s ∷ [])) out.1).0)
                (append_assoc es ((id, (c, ad)) ∷ []) (map (λ a. (id, (c, a))) ads)) rest.0,
            rest.1 ∙ assemble_keeps req id ad w,
          )

      score_cached-Covers :
          (req : BidContext) (id : String) (o : Option (CampaignCache F)) (ss : List (AdScore F))
          (es : List (Entry F)) (w : World)
          → Covers es ss
          → Covers (es ++ entries_of id o) (score_cached store req id o ss w).0
            × (cached (score_cached store req id o ss w).1 ≡ cached w)
      score_cached-Covers req id none ss es w h =
          (subst (λ l. Covers l ss) (sym (append_nil es)) h, refl)
      score_cached-Covers req id (some c) ss es w h =
          score_campaign-Covers req id c c.ad_ids ss es w h

      -- Every read of the campaign cache is answered with what is cached.
      abbrev pub ReadsCache : Type 0
      ReadsCache = (k : String) (w : World) → (get_campaign k w).0 ≡ cached w k

      module _ (reads : ReadsCache) where
        score_campaigns-Covers :
            (req : BidContext) (ids : List String) (ss : List (AdScore F)) (es : List (Entry F))
            (look : String → Option (CampaignCache F)) (w : World)
            → cached w ≡ look
            → Covers es ss
            → Covers (es ++ entries_for look ids) (score_campaigns store req ids ss w).0
        unfolding score_campaigns
        score_campaigns-Covers req [] ss es look w same h =
            subst (λ l. Covers l ss) (sym (append_nil es)) h
        score_campaigns-Covers req (id ∷ ids) ss es look w same h =
            let key = campaign_key id in
            let o = (get_campaign key w).0 in
            let w1 = (get_campaign key w).1 in
            let first = score_cached-Covers req id o ss es w1 h in
            let out = score_cached store req id o ss w1 in
            let seen : o ≡ look key = reads key w ∙ ap (λ g. g key) same in
            let rest =
              score_campaigns-Covers req ids out.0 (es ++ entries_of id o) look out.1
                (first.1 ∙ get_campaign_keeps key w ∙ same) first.0 in
            subst (λ l. Covers l (score_campaigns store req ids out.0 out.1).0)
              (append_assoc es (entries_of id o) (entries_for look ids)
                ∙ ap (λ p. es ++ (entries_of id p ++ entries_for look ids)) seen)
              rest

        -- When every read of the campaign cache is answered with what is cached (the code skips a
        -- campaign whose read fails): ScoreAds answers every request, under its identifier, with one score for each ad of each
        -- requested campaign that is cached, in the order of the request, and none else; where the
        -- campaign has a positive bid ceiling, the effective bid does not exceed it.
        pub score_ads-Covers :
            (req : ScoreRequest) (w : World)
            → ((score_ads store req w).0.request_id ≡ req.request_id)
              × Covers (entries_for (cached w) req.campaign_ids) (score_ads store req w).0.scores
        unfolding score_ads
        score_ads-Covers req w = (
          refl,
          score_campaigns-Covers req.bid_request req.campaign_ids [] [] (cached w) w refl tt,
        )
