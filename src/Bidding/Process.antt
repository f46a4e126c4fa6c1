-- ===== src/Bidding/Process.antt =====
-- `ProcessBidRequest` of internal/bidding/service.go, a stage for each call to a peer: the next
-- stage matches on what came back, as the code does.
use bidflock.Prelude.{ℕ, ◌-◌, ◌/◌, Option, none, some, List, [], ◌∷◌, String, if◌then◌else◌}
use bidflock.Prelude.Float.{Float64}
use bidflock.Models.Campaign.{Time, unix_milli}
use bidflock.Models.OpenRtb.{
  BidRequest, BidResponse, BidCandidate, nbr_technical_error, nbr_no_ad_found,
  nbr_budget_constraints,
}
use bidflock.Models.Messages.{ScoreResponse, AdScore, DeductBudgetResponse}
use bidflock.Auction.{Sorter, run_auction}
use bidflock.Bidding.Peers.{Peers, Action, ◌>>=◌, ◌>>◌, pure, call, publish}
use bidflock.Bidding.Build.{
  Config, deduct_timeout, no_bid_response, user_id_of, score_request, no_bid_result, won_result,
  floor_price, answer, to_candidate, check_request, deduct_request,
}

-- `time.Since(start).Microseconds()` between two readings of the clock.
abbrev pub micros_since : Time → Time → ℕ
micros_since start end = (end - start) / 1000

module _ {F : Type 0} ⦃f : Float64 F⦄ (peers : Peers F) (sorter : Sorter F) (config : Config) where
  open peers use {World, active_campaign_ids, score_ads, check_budget, deduct_budget, now, new_uuid}

  module _ (req : BidRequest F) where
    -- `publishNoBid` and the response after it.
    unfoldable pub reject : ℕ → Time → Action F World (Option (BidResponse F))
    reject reason start = do
      end ← call now
      stamp ← call now
      publish req.id (no_bid_result req reason (micros_since start end) (unix_milli stamp))
      pure (some (no_bid_response req.id reason))

    -- The winner is charged: publish the result and answer the bid.
    unfoldable pub accept :
        Time → List (BidCandidate F) → BidCandidate F → Action F World (Option (BidResponse F))
    accept start candidates winner = do
      end ← call now
      stamp ← call now
      publish req.id (
          won_result req config.auction_type candidates winner (micros_since start end)
            (unix_milli stamp))
      bid_id ← call new_uuid
      pure (answer req winner bid_id req.imp)

    unfoldable pub after_deduction :
        Time
        → List (BidCandidate F)
        → BidCandidate F
        → Option (DeductBudgetResponse F)
        → Action F World (Option (BidResponse F))
    unfolding reject accept
    after_deduction start candidates winner none = reject nbr_budget_constraints start
    after_deduction start candidates winner (some r) =
        if r.success then accept start candidates winner else reject nbr_budget_constraints start

    unfoldable pub after_auction :
        Time
        → List (BidCandidate F)
        → Option (BidCandidate F)
        → Action F World (Option (BidResponse F))
    unfolding after_deduction
    after_auction start candidates none = reject nbr_budget_constraints start
    after_auction start candidates (some winner) = do
      charged ← call (deduct_budget deduct_timeout (deduct_request req winner))
      after_deduction start candidates winner charged

    -- The loop that asks the budget service about each score in turn.
    unfoldable pub check_all : List (AdScore F) → Action F World (List (BidCandidate F))
    check_all [] = pure []
    check_all (score ∷ scores) = do
      checked ←
          call (check_budget config.budget_timeout (check_request (user_id_of req.user) score))
      rest ← check_all scores
      pure (to_candidate score checked ∷ rest)

    unfoldable pub after_scoring :
        Time → Option (ScoreResponse F) → Action F World (Option (BidResponse F))
    unfolding after_auction check_all
    after_scoring start none = reject nbr_technical_error start
    after_scoring start (some resp) = do
      candidates ← check_all resp.scores
      after_auction start candidates
          (run_auction sorter candidates config.auction_type (floor_price req.imp))

    unfoldable pub after_ids : Time → Option (List String) → Action F World (Option (BidResponse F))
    unfolding after_scoring
    after_ids start none = reject nbr_no_ad_found start
    after_ids start (some []) = reject nbr_no_ad_found start
    after_ids start (some (id ∷ ids)) = do
      scored ← call (score_ads config.scoring_timeout (score_request req (id ∷ ids)))
      after_scoring start scored

    -- `ProcessBidRequest`. Its error is always nil; `none` is a panic.
    unfoldable pub process_bid_request : Action F World (Option (BidResponse F))
    unfolding after_ids
    process_bid_request = do start ← call now; ids ← call active_campaign_ids; after_ids start ids
