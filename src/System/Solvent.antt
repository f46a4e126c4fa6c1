-- ===== src/System/Solvent.antt =====
-- The bidding service with the budget service: what a run does to the daily budgets in Redis.
use bidflock.Prelude.{
  ℕ, ◌≡◌, refl, sym, subst, ◌∙◌, ◌⊎◌, inl, inr, Option, none, some, List, [], ◌∷◌, String, if-intro,
}
use bidflock.Prelude.Float.{Float64, IsOrdered, ◌≼◌}
use bidflock.Models.Campaign.{Time}
use bidflock.Models.OpenRtb.{
  BidRequest, BidResponse, BidCandidate, nbr_technical_error, nbr_no_ad_found,
  nbr_budget_constraints,
}
use bidflock.Models.Messages.{
  AdScore, ScoreRequest, ScoreResponse, CheckBudgetRequest, DeductBudgetRequest,
  DeductBudgetResponse,
}
use bidflock.Auction.{Sorter, run_auction, first_price, second_price}
use bidflock.Auction.Outcome.{clearing_bounds}
use bidflock.Bidding.Peers.{Peers, State, Action}
use bidflock.Bidding.Build.{Config, floor_price, deduct_timeout, deduct_request}
use bidflock.Bidding.Process.{
  reject, accept, after_deduction, after_auction, check_all, after_scoring, after_ids,
  process_bid_request,
}
use bidflock.Budget.Redis.{Redis, IsRedis}
use bidflock.Budget.Server.{serve_check, serve_deduct}
use bidflock.Budget.Solvent.{IsSolvent}
use bidflock.Budget.History.{check, deduct, perform, perform-IsSolvent}

module _ {F : Type 0} ⦃f : Float64 F⦄ (peers : Peers F) (redis : Redis F) where
  open f use {lit, div}
  open peers use {World, active_campaign_ids, score_ads, check_budget, deduct_budget, now, new_uuid}

  -- The Redis of the budget service is part of the world. A budget call runs the method of the budget
  -- service on it or does not reach it, answered or not; the other calls do not touch it.
  pub record IsBacked : Type 1 where
    pub view : World → redis.World
    pub ids_keep : (w : World) → view (active_campaign_ids w).1 ≡ view w
    pub score_keep : (t : ℕ) (q : ScoreRequest) (w : World) → view (score_ads t q w).1 ≡ view w
    pub now_keep : (w : World) → view (now w).1 ≡ view w
    pub uuid_keep : (w : World) → view (new_uuid w).1 ≡ view w
    pub check_runs :
        (t : ℕ) (q : CheckBudgetRequest F) (w : World)
        → (view (check_budget t q w).1 ≡ view w)
          ⊎ ((fuel : ℕ) × (view (check_budget t q w).1 ≡ (serve_check redis fuel q (view w)).1))
    pub deduct_runs :
        (t : ℕ) (q : DeductBudgetRequest F) (w : World)
        → (view (deduct_budget t q w).1 ≡ view w)
          ⊎ (view (deduct_budget t q w).1 ≡ (serve_deduct redis q (view w)).1)

  module _ (laws : IsRedis redis) (ordered : IsOrdered F) (backed : IsBacked) where
    open backed use {view, ids_keep, score_keep, now_keep, uuid_keep, check_runs, deduct_runs}

    abbrev pub StaysSolvent : World → Type 0
    StaysSolvent w = IsSolvent redis (view w)

    kept : (w v : World) → view v ≡ view w → StaysSolvent w → StaysSolvent v
    kept w v e h = subst (IsSolvent redis) (sym e) h

    checked :
        (t : ℕ) (q : CheckBudgetRequest F) (w : World)
        → StaysSolvent w
        → StaysSolvent (check_budget t q w).1
    unfolding serve_check perform
    checked t q w h = elim (check_runs t q w) [
      | inl e ↦ kept w _ e h
      | inr (fuel, e) ↦ subst (IsSolvent redis) (sym e) (
          perform-IsSolvent redis laws ordered (check fuel q.campaign_id q.user_id q.bid_amount)
            (view w) tt h)
    ]

    deducted :
        (t : ℕ) (q : DeductBudgetRequest F) (w : World)
        → lit 0 0 ≼ q.amount
        → StaysSolvent w
        → StaysSolvent (deduct_budget t q w).1
    unfolding serve_deduct perform
    deducted t q w paid h = elim (deduct_runs t q w) [
      | inl e ↦ kept w _ e h
      | inr e ↦
          subst (IsSolvent redis) (sym e)
            (perform-IsSolvent redis laws ordered (deduct q.campaign_id q.amount) (view w) paid h)
    ]

    module _ (sorter : Sorter F) (config : Config) (req : BidRequest F)
        (kind : (config.auction_type ≡ first_price) ⊎ (config.auction_type ≡ second_price))
        (thousandth : (x : F) → lit 0 0 ≼ x → lit 0 0 ≼ div x (lit 1000 0))
        (floor : lit 0 0 ≼ floor_price req.imp) where
      reject-StaysSolvent :
          (reason : ℕ) (start : Time) (s : State F World)
          → StaysSolvent s.world
          → StaysSolvent (reject peers sorter config req reason start s).1.world
      unfolding reject
      reject-StaysSolvent reason start s h = kept _ _ (now_keep _ ∙ now_keep _) h

      accept-StaysSolvent :
          (start : Time) (cs : List (BidCandidate F)) (w : BidCandidate F) (s : State F World)
          → StaysSolvent s.world
          → StaysSolvent (accept peers sorter config req start cs w s).1.world
      unfolding accept
      accept-StaysSolvent start cs w s h = kept _ _ (uuid_keep _ ∙ now_keep _ ∙ now_keep _) h

      after_deduction-StaysSolvent :
          (start : Time) (cs : List (BidCandidate F)) (w : BidCandidate F)
          (o : Option (DeductBudgetResponse F)) (s : State F World)
          → StaysSolvent s.world
          → StaysSolvent (after_deduction peers sorter config req start cs w o s).1.world
      unfolding after_deduction
      after_deduction-StaysSolvent start cs w none s h =
          reject-StaysSolvent nbr_budget_constraints start s h
      after_deduction-StaysSolvent start cs w (some r) s h =
          if-intro {A = Action F World (Option (BidResponse F))}
            (λ act. StaysSolvent (act s).1.world) r.success
            (λ _. accept-StaysSolvent start cs w s h)
            (λ _. reject-StaysSolvent nbr_budget_constraints start s h)

      after_auction-StaysSolvent :
          (start : Time) (cs : List (BidCandidate F)) (o : Option (BidCandidate F))
          (s : State F World)
          → run_auction sorter cs config.auction_type (floor_price req.imp) ≡ o
          → StaysSolvent s.world
          → StaysSolvent (after_auction peers sorter config req start cs o s).1.world
      unfolding after_auction
      after_auction-StaysSolvent start cs none s won h =
          reject-StaysSolvent nbr_budget_constraints start s h
      after_auction-StaysSolvent start cs (some w) s won h =
          let (low, _) = clearing_bounds ordered sorter _ _ _ kind won in
          let paid = thousandth w.clearing_price (ordered.le_trans _ _ _ floor low) in
          after_deduction-StaysSolvent start cs w _ _
            (deducted deduct_timeout (deduct_request req w) s.world paid h)

      check_all-StaysSolvent :
          (scores : List (AdScore F)) (s : State F World)
          → StaysSolvent s.world
          → StaysSolvent (check_all peers sorter config req scores s).1.world
      unfolding check_all
      check_all-StaysSolvent [] s h = h
      check_all-StaysSolvent (q ∷ qs) s h = check_all-StaysSolvent qs _ (checked _ _ s.world h)

      after_scoring-StaysSolvent :
          (start : Time) (o : Option (ScoreResponse F)) (s : State F World)
          → StaysSolvent s.world
          → StaysSolvent (after_scoring peers sorter config req start o s).1.world
      unfolding after_scoring
      after_scoring-StaysSolvent start none s h = reject-StaysSolvent nbr_technical_error start s h
      after_scoring-StaysSolvent start (some resp) s h =
          after_auction-StaysSolvent start _ _ _ refl (check_all-StaysSolvent resp.scores s h)

      after_ids-StaysSolvent :
          (start : Time) (o : Option (List String)) (s : State F World)
          → StaysSolvent s.world
          → StaysSolvent (after_ids peers sorter config req start o s).1.world
      unfolding after_ids
      after_ids-StaysSolvent start none s h = reject-StaysSolvent nbr_no_ad_found start s h
      after_ids-StaysSolvent start (some []) s h = reject-StaysSolvent nbr_no_ad_found start s h
      after_ids-StaysSolvent start (some (id ∷ ids)) s h =
          after_scoring-StaysSolvent start _ _ (kept s.world _ (score_keep _ _ s.world) h)

      -- From daily budgets that are not negative, a run of ProcessBidRequest leaves none negative,
      -- whatever the scores are and whichever answers are lost, if the budget service runs its checks
      -- and its deduction, the auction is a first-price or a second-price one, the floor of the request
      -- is not negative, and a thousandth of a number that is not negative is not negative either.
      pub process_bid_request-StaysSolvent :
          (s : State F World)
          → StaysSolvent s.world
          → StaysSolvent (process_bid_request peers sorter config req s).1.world
      unfolding process_bid_request
      process_bid_request-StaysSolvent s h =
          after_ids-StaysSolvent _ _ _ (kept s.world _ (ids_keep _ ∙ now_keep s.world) h)
