-- ===== src/System/Denied.antt =====
-- `ProcessBidRequest` when the budget service confirms no budget.
use bidflock.Prelude.{
  ℕ, ◌≡◌, refl, sym, ap, subst, Bool, ◌&&◌, false, Option, none, some, List, [], ◌∷◌, All, String,
}
use bidflock.Prelude.Float.{Float64, IsOrdered}
use bidflock.Models.Campaign.{Time}
use bidflock.Models.OpenRtb.{
  BidRequest, BidResponse, nbr_technical_error, nbr_no_ad_found, nbr_budget_constraints,
}
use bidflock.Models.Messages.{AdScore, ScoreResponse, CheckBudgetRequest}
use bidflock.Auction.{Sorter, run_auction, is_eligible}
use bidflock.Auction.Outcome.{run_auction-none_iff}
use bidflock.Bidding.Peers.{Peers, State}
use bidflock.Bidding.Build.{Config, no_bid_response, budget_confirmed, floor_price}
use bidflock.Bidding.Process.{
  reject, after_auction, check_all, after_scoring, after_ids, process_bid_request,
}

and_false : (a b : Bool) → a ≡ false → a && b ≡ false
and_false a b e = ap (λ t. t && b) e

-- A response without a bid to the request.
abbrev pub IsNoBid : {F : Type 0} → BidRequest F → Option (BidResponse F) → Type 0
IsNoBid req r = (reason : ℕ) × (r ≡ some (no_bid_response req.id reason))

module _ {F : Type 0} ⦃f : Float64 F⦄ (order : IsOrdered F) (peers : Peers F) (sorter : Sorter F)
    (config : Config) (req : BidRequest F) where
  open peers use {World, check_budget}

  reject-IsNoBid :
      (reason : ℕ) (start : Time) (s : State F World)
      → IsNoBid req (reject peers sorter config req reason start s).0
  unfolding reject
  reject-IsNoBid reason start s = (reason, refl)

  module _
      (denied : (t : ℕ) (q : CheckBudgetRequest F) (w : World)
        → budget_confirmed (check_budget t q w).0 ≡ false) where
    check_all-denied :
        (floor : F) (scores : List (AdScore F)) (s : State F World)
        → All (λ c. is_eligible floor c ≡ false) (check_all peers sorter config req scores s).0
    unfolding check_all
    check_all-denied floor [] s = tt
    check_all-denied floor (q ∷ qs) s =
        (and_false _ _ (denied _ _ s.world), check_all-denied floor qs _)

    after_scoring-IsNoBid :
        (start : Time) (o : Option (ScoreResponse F)) (s : State F World)
        → IsNoBid req (after_scoring peers sorter config req start o s).0
    unfolding after_scoring after_auction
    after_scoring-IsNoBid start none s = reject-IsNoBid nbr_technical_error start s
    after_scoring-IsNoBid start (some resp) s =
        let checked = check_all peers sorter config req resp.scores s in
        let floor = floor_price req.imp in
        let lost : run_auction sorter checked.0 config.auction_type floor ≡ none =
          (run_auction-none_iff order sorter config.auction_type floor checked.0).1
            (check_all-denied floor resp.scores s) in
        subst
          (λ o. IsNoBid req (after_auction peers sorter config req start checked.0 o checked.1).0)
          (sym lost) (reject-IsNoBid nbr_budget_constraints start checked.1)

    after_ids-IsNoBid :
        (start : Time) (o : Option (List String)) (s : State F World)
        → IsNoBid req (after_ids peers sorter config req start o s).0
    unfolding after_ids
    after_ids-IsNoBid start none s = reject-IsNoBid nbr_no_ad_found start s
    after_ids-IsNoBid start (some []) s = reject-IsNoBid nbr_no_ad_found start s
    after_ids-IsNoBid start (some (id ∷ ids)) s = after_scoring-IsNoBid start _ _

    pub process_bid_request-IsNoBid :
        (s : State F World) → IsNoBid req (process_bid_request peers sorter config req s).0
    unfolding process_bid_request
    process_bid_request-IsNoBid s = after_ids-IsNoBid _ _ _
