-- ===== src/System/Starved.antt =====
-- The bidding service with the budget service: what the recursion of GetMultiplier does to the bids.
use bidflock.Prelude.{ℕ, ◌≡◌, refl, sym, ap, ◌∙◌, false, Option, none, some}
use bidflock.Prelude.Float.{Float64, IsOrdered}
use bidflock.Models.OpenRtb.{BidRequest}
use bidflock.Models.Messages.{CheckBudgetRequest, CheckBudgetResponse}
use bidflock.Auction.{Sorter}
use bidflock.Bidding.Peers.{Peers, State}
use bidflock.Bidding.Build.{Config, budget_confirmed}
use bidflock.Bidding.Process.{process_bid_request}
use bidflock.Budget.Redis.{Redis, IsRedis}
use bidflock.Budget.Service.{Check}
use bidflock.Budget.Server.{serve_check, check_response}
use bidflock.Budget.Divergence.{IsReliable, check_budget_never_grants}
use bidflock.System.Denied.{IsNoBid, process_bid_request-IsNoBid}

module _ {F : Type 0} ⦃f : Float64 F⦄ (peers : Peers F) (redis : Redis F) where
  -- Each answer to a CheckBudget is one that the budget service gave to that request, in some state of
  -- Redis and after some number of calls. A call may also fail or time out.
  abbrev pub AnsweredByService : Type 0
  AnsweredByService =
      (t : ℕ) (q : CheckBudgetRequest F) (w : peers.World) (r : CheckBudgetResponse F)
      → (peers.check_budget t q w).0 ≡ some r
      → (fuel : ℕ) × (v : redis.World) × ((serve_check redis fuel q v).0 ≡ some r)

  module _ (laws : IsRedis redis) (reliable : IsReliable redis laws) where
    served_denied :
        (o : Option (Check F)) (r : CheckBudgetResponse F)
        → ((c : Check F) → o ≡ some c → c.allowed ≡ false)
        → check_response o ≡ some r
        → r.allowed ≡ false
    served_denied none r h e = absurd (cc)
    served_denied (some c) r h e = sym (ap (λ x. budget_confirmed x) e) ∙ h c refl

    serve_check-denied :
        (fuel : ℕ) (q : CheckBudgetRequest F) (v : redis.World) (r : CheckBudgetResponse F)
        → (serve_check redis fuel q v).0 ≡ some r
        → r.allowed ≡ false
    unfolding serve_check
    serve_check-denied fuel q v r e =
        served_denied _ r (λ c. check_budget_never_grants redis laws reliable fuel _ _ _ v c) e

    answer_denied :
        (o : Option (CheckBudgetResponse F))
        → ((r : CheckBudgetResponse F) → o ≡ some r → r.allowed ≡ false)
        → budget_confirmed o ≡ false
    answer_denied none h = refl
    answer_denied (some r) h = h r refl

    -- While Redis answers the budget service, the bidding service makes no bid: whatever its requests,
    -- the scores and the timeouts are, each run answers without a bid, if every answer to its budget
    -- checks comes from the budget service.
    pub system_never_bids :
        (answered : AnsweredByService) (order : IsOrdered F) (sorter : Sorter F) (config : Config)
        (req : BidRequest F) (s : State F peers.World)
        → IsNoBid req (process_bid_request peers sorter config req s).0
    system_never_bids answered order sorter config req s =
        process_bid_request-IsNoBid order peers sorter config req
          (λ t q w. answer_denied _ (λ r e.
            let (fuel, v, served) = answered t q w r e in serve_check-denied fuel q v r served))
          s
