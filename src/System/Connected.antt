-- ===== src/System/Connected.antt =====
-- Runs of the bidding service whose budget service is at the other end of a gRPC connection.
use bidflock.Prelude.{◌≡◌, ◌⊎◌}
use bidflock.Prelude.Float.{Float64, IsOrdered, ◌≼◌}
use bidflock.Models.OpenRtb.{BidRequest}
use bidflock.Auction.{Sorter, first_price, second_price}
use bidflock.Bidding.Peers.{Peers, State}
use bidflock.Bidding.Build.{Config, floor_price}
use bidflock.Bidding.Process.{process_bid_request}
use bidflock.Budget.Redis.{Redis, IsRedis}
use bidflock.Budget.Divergence.{IsReliable}
use bidflock.Budget.Solvent.{IsSolvent}
use bidflock.Rpc.Wire.{Json}
use bidflock.System.Denied.{IsNoBid}
use bidflock.System.Starved.{system_never_bids}
use bidflock.System.Solvent.{process_bid_request-StaysSolvent}
use bidflock.System.Wired.{IsDialled, IsCarried, dialled-IsBacked, dialled-AnsweredByService}

module _ {F Data : Type 0} ⦃f : Float64 F⦄ (json : Json F Data) (peers : Peers F) (redis : Redis F)
    (laws : IsRedis redis) (ordered : IsOrdered F) (dialled : IsDialled json peers redis)
    (carried : IsCarried json peers redis) (sorter : Sorter F) (config : Config)
    (req : BidRequest F) where
  open f use {lit, div}
  open dialled use {lens}
  open lens use {view}

  -- A run of ProcessBidRequest makes no daily budget in Redis negative, from daily budgets that are
  -- not: the budget service is at the other end of a gRPC connection, runs each call that reaches it,
  -- and calls may time out before or after that; the messages that encode decode to themselves; any
  -- answer of Redis may be lost. The auction is a first-price or a second-price one, the floor of the
  -- request is not negative, and a thousandth of a number that is not negative is not negative either.
  pub dialled-IsSolvent :
      (kind : (config.auction_type ≡ first_price) ⊎ (config.auction_type ≡ second_price))
      (thousandth : (x : F) → lit 0 0 ≼ x → lit 0 0 ≼ div x (lit 1000 0))
      (floor : lit 0 0 ≼ floor_price req.imp) (s : State F peers.World)
      → IsSolvent redis (view s.world)
      → IsSolvent redis (view (process_bid_request peers sorter config req s).1.world)
  unfolding dialled-IsBacked
  dialled-IsSolvent kind thousandth floor s h =
      process_bid_request-StaysSolvent peers redis laws ordered
        (dialled-IsBacked json peers redis dialled carried) sorter config req kind thousandth floor
        s h

  -- While Redis answers the budget service, no run of ProcessBidRequest bids, whatever the request,
  -- the scores, the timeouts and the state are, if the budget service is at the other end of a gRPC
  -- connection and the messages that encode decode to themselves.
  pub dialled_never_bids :
      (reliable : IsReliable redis laws) (s : State F peers.World)
      → IsNoBid req (process_bid_request peers sorter config req s).0
  dialled_never_bids reliable s =
      system_never_bids peers redis laws reliable
        (dialled-AnsweredByService json peers redis dialled carried) ordered sorter config req s
