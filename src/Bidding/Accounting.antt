-- ===== src/Bidding/Accounting.antt =====
-- What one run of `ProcessBidRequest` answers, publishes and charges.
use bidflock.Prelude.{
  ◌≡◌, refl, ap, subst, subst₂, ◌∙◌, ◌⊎◌, inl, inr, true, false, Option, none, some, List, [], ◌∷◌,
  ◌++◌, String, Bool-cases, ℕ, if◌then◌else◌,
}
use bidflock.Prelude.Float.{Float64}
use bidflock.Models.Campaign.{Time}
use bidflock.Models.OpenRtb.{
  BidRequest, BidResponse, BidResult, BidCandidate, Imp, nbr_technical_error, nbr_no_ad_found,
  nbr_budget_constraints,
}
use bidflock.Models.Messages.{
  ScoreResponse, AdScore, CheckBudgetRequest, DeductBudgetRequest, DeductBudgetResponse,
  ScoreRequest,
}
use bidflock.Auction.{Sorter, run_auction}
use bidflock.Bidding.Peers.{Peers, State}
use bidflock.Bidding.Build.{
  Config, deduct_timeout, no_bid_response, bid_response, answer, deduct_request, score_request,
  floor_price,
}
use bidflock.Bidding.Process.{
  reject, accept, after_deduction, after_auction, check_all, after_scoring, after_ids,
  process_bid_request,
}

-- The charges that the budget service has made, as an observer of the world sees them: a deduction
-- that reports success made just that charge, one that reports failure made none, and no other call
-- makes any. Nothing is assumed of a deduction whose answer was lost.
pub record Charges {F : Type 0} (peers : Peers F) : Type 1 where
  pub charges : peers.World → List (DeductBudgetRequest F)
  pub ids_keep : (v : peers.World) → charges (peers.active_campaign_ids v).1 ≡ charges v
  pub score_keep :
      (t : ℕ) (q : ScoreRequest) (v : peers.World) → charges (peers.score_ads t q v).1 ≡ charges v
  pub check_keep :
      (t : ℕ) (q : CheckBudgetRequest F) (v : peers.World)
      → charges (peers.check_budget t q v).1 ≡ charges v
  pub now_keep : (v : peers.World) → charges (peers.now v).1 ≡ charges v
  pub uuid_keep : (v : peers.World) → charges (peers.new_uuid v).1 ≡ charges v
  pub deducted :
      (t : ℕ) (q : DeductBudgetRequest F) (v : peers.World) (r : DeductBudgetResponse F)
      → (peers.deduct_budget t q v).0 ≡ some r
      → charges (peers.deduct_budget t q v).1
        ≡ (if r.success then charges v ++ (q ∷ []) else charges v)

module _ {F : Type 0} ⦃f : Float64 F⦄ (peers : Peers F) (sorter : Sorter F) (config : Config)
    (ledger : Charges peers) (req : BidRequest F) where
  open peers use {World, active_campaign_ids, score_ads, check_budget, deduct_budget, now, new_uuid}
  open ledger use {charges, ids_keep, score_keep, check_keep, now_keep, uuid_keep, deducted}

  -- The deduction that a run asks for, from each stage on: the winner, and the world of the call.
  abbrev asked_of_winner : Option (BidCandidate F) → World → Option (BidCandidate F × World)
  asked_of_winner none v = none
  asked_of_winner (some w) v = some (w, v)

  abbrev asked_of_scores :
      Option (ScoreResponse F) → State F World → Option (BidCandidate F × World)
  asked_of_scores none s = none
  asked_of_scores (some resp) s =
      let checked = check_all peers sorter config req resp.scores s in
      asked_of_winner (run_auction sorter checked.0 config.auction_type (floor_price req.imp))
        checked.1.world

  abbrev asked_of_ids : Option (List String) → State F World → Option (BidCandidate F × World)
  asked_of_ids none s = none
  asked_of_ids (some []) s = none
  asked_of_ids (some (id ∷ ids)) s =
      let scored = score_ads config.scoring_timeout (score_request req (id ∷ ids)) s.world in
      asked_of_scores scored.0 (record s { world = scored.1 })

  abbrev pub asked : State F World → Option (BidCandidate F × World)
  asked s =
      let ids = active_campaign_ids (now s.world).1 in
      asked_of_ids ids.0 (record s { world = ids.1 })

  -- The answer to just this deduction did not arrive.
  abbrev pub IsLost : Option (BidCandidate F × World) → Type 0
  IsLost none = ⊥
  IsLost (some (w, v)) = (deduct_budget deduct_timeout (deduct_request req w) v).0 ≡ none

  -- A no-bid: nothing was charged, unless the answer to the deduction asked for was lost.
  abbrev pub IsRejected :
      Option (BidCandidate F × World)
      → List (DeductBudgetRequest F)
      → World
      → BidResponse F
      → BidResult F
      → Type 0
  IsRejected ask before v resp res =
      (resp ≡ no_bid_response req.id res.no_bid_reason)
      × (res.no_bid ≡ true)
      × (res.winner ≡ none)
      × ((charges v ≡ before) ⊎ IsLost ask)

  -- A bid on the first impression: for the winner of the auction at its floor, which was charged
  -- once.
  abbrev pub IsAccepted :
      List (DeductBudgetRequest F) → World → BidResponse F → BidResult F → Type 0
  IsAccepted before v resp res =
      (w : BidCandidate F) × (imp : Imp F) × (others : List (Imp F)) × (bid_id : String) × (req.imp
        ≡ imp ∷ others)
      × (resp ≡ bid_response req w bid_id imp)
      × (res.no_bid ≡ false)
      × (res.winner ≡ some w)
      × (run_auction sorter res.candidates config.auction_type imp.bid_floor ≡ some w)
      × (charges v ≡ before ++ (deduct_request req w ∷ []))

  -- One result is published under the request's id, and the response agrees with it.
  abbrev pub Settles :
      Option (BidCandidate F × World)
      → List (String × BidResult F)
      → List (DeductBudgetRequest F)
      → Option (BidResponse F) × State F World
      → Type 0
  Settles ask published before (r, s) =
      (resp : BidResponse F) × (res : BidResult F) × (r ≡ some resp)
      × (s.published ≡ published ++ ((req.id, res) ∷ []))
      × (IsRejected ask before s.world resp res ⊎ IsAccepted before s.world resp res)

  reject-Settles :
      (ask : Option (BidCandidate F × World)) (reason : ℕ) (start : Time) (s : State F World)
      (before : List (DeductBudgetRequest F))
      → (charges s.world ≡ before) ⊎ IsLost ask
      → Settles ask s.published before (reject peers sorter config req reason start s)
  unfolding reject
  reject-Settles ask reason start s before (inl h) =
      (_, _, refl, refl, inl (refl, refl, refl, inl (now_keep _ ∙ now_keep _ ∙ h)))
  reject-Settles ask reason start s before (inr h) =
      (_, _, refl, refl, inl (refl, refl, refl, inr h))

  module _ (imp : Imp F) (others : List (Imp F)) (has : req.imp ≡ imp ∷ others) where
    accept-Settles :
        (ask : Option (BidCandidate F × World)) (start : Time) (cs : List (BidCandidate F))
        (w : BidCandidate F) (s : State F World) (before : List (DeductBudgetRequest F))
        → run_auction sorter cs config.auction_type imp.bid_floor ≡ some w
        → charges s.world ≡ before ++ (deduct_request req w ∷ [])
        → Settles ask s.published before (accept peers sorter config req start cs w s)
    unfolding accept
    accept-Settles ask start cs w s before won paid = (
      _,
      _,
      ap (answer req w _) has,
      refl,
      inr (
        w,
        imp,
        others,
        _,
        has,
        refl,
        refl,
        refl,
        won,
        uuid_keep _ ∙ now_keep _ ∙ now_keep _ ∙ paid,
      ),
    )

    after_deduction-Settles :
        (start : Time) (cs : List (BidCandidate F)) (w : BidCandidate F) (s : State F World)
        (o : Option (DeductBudgetResponse F))
        → run_auction sorter cs config.auction_type imp.bid_floor ≡ some w
        → let after = deduct_budget deduct_timeout (deduct_request req w) s.world in
          after.0 ≡ o
          → Settles
              (some (w, s.world))
              s.published
              (charges s.world)
              (after_deduction peers sorter config req start cs w o (record s { world = after.1 }))
    unfolding after_deduction
    after_deduction-Settles start cs w s none won e =
        reject-Settles (some (w, s.world)) nbr_budget_constraints start _ (charges s.world) (inr e)
    after_deduction-Settles start cs w s (some r) won e =
        let paid = deducted deduct_timeout (deduct_request req w) s.world r e in
        elim (Bool-cases r.success) [
          | inl yes_paid ↦ rw yes_paid (
              accept-Settles (some (w, s.world)) start cs w _ (charges s.world) won
                (rw yes_paid at paid))
          | inr refused ↦ rw refused (
              reject-Settles (some (w, s.world)) nbr_budget_constraints start _ (charges s.world)
                (inl (rw refused at paid)))
        ]

    after_auction-Settles :
        (start : Time) (cs : List (BidCandidate F)) (o : Option (BidCandidate F))
        (s : State F World)
        → run_auction sorter cs config.auction_type imp.bid_floor ≡ o
        → Settles
            (asked_of_winner o s.world)
            s.published
            (charges s.world)
            (after_auction peers sorter config req start cs o s)
    unfolding after_auction
    after_auction-Settles start cs none s won =
        reject-Settles none nbr_budget_constraints start s (charges s.world) (inl refl)
    after_auction-Settles start cs (some w) s won = after_deduction-Settles start cs w s _ won refl

    check_all-published :
        (scores : List (AdScore F)) (s : State F World)
        → (check_all peers sorter config req scores s).1.published ≡ s.published
    unfolding check_all
    check_all-published [] s = refl
    check_all-published (q ∷ qs) s = check_all-published qs _

    check_all-charges :
        (scores : List (AdScore F)) (s : State F World)
        → charges (check_all peers sorter config req scores s).1.world ≡ charges s.world
    unfolding check_all
    check_all-charges [] s = refl
    check_all-charges (q ∷ qs) s = check_all-charges qs _ ∙ check_keep _ _ s.world

    after_scoring-Settles :
        (start : Time) (o : Option (ScoreResponse F)) (s : State F World)
        → Settles
            (asked_of_scores o s)
            s.published
            (charges s.world)
            (after_scoring peers sorter config req start o s)
    unfolding after_scoring
    after_scoring-Settles start none s =
        reject-Settles none nbr_technical_error start s (charges s.world) (inl refl)
    after_scoring-Settles start (some resp) s =
        let checked = check_all peers sorter config req resp.scores s in
        subst₂
          (λ p k.
            Settles (asked_of_scores (some resp) s) p k
              (after_scoring peers sorter config req start (some resp) s))
          (check_all-published resp.scores s) (check_all-charges resp.scores s)
          (after_auction-Settles start checked.0 _ checked.1 (rw has))

    after_ids-Settles :
        (start : Time) (o : Option (List String)) (s : State F World)
        → Settles
            (asked_of_ids o s)
            s.published
            (charges s.world)
            (after_ids peers sorter config req start o s)
    unfolding after_ids
    after_ids-Settles start none s =
        reject-Settles none nbr_no_ad_found start s (charges s.world) (inl refl)
    after_ids-Settles start (some []) s =
        reject-Settles none nbr_no_ad_found start s (charges s.world) (inl refl)
    after_ids-Settles start (some (id ∷ ids)) s =
        subst
          (λ k.
            Settles (asked_of_ids (some (id ∷ ids)) s) s.published k
              (after_ids peers sorter config req start (some (id ∷ ids)) s))
          (score_keep _ _ s.world) (after_scoring-Settles start _ _)

    -- Every run on a request with an impression returns, and publishes exactly one result. If it
    -- bids, then for the winner of the auction at the impression's floor, as the result says, and the
    -- winner was charged its price per impression exactly once. If it does not, the result says so
    -- too, and nothing was charged unless the answer to the deduction that this run asked for was lost.
    pub process_bid_request-Settles :
        (s : State F World)
        → Settles
            (asked s)
            s.published
            (charges s.world)
            (process_bid_request peers sorter config req s)
    unfolding process_bid_request
    process_bid_request-Settles s =
        subst (λ k. Settles (asked s) s.published k (process_bid_request peers sorter config req s))
          (ids_keep _ ∙ now_keep s.world) (after_ids-Settles _ _ _)
