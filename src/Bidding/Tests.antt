-- ===== src/Bidding/Tests.antt =====
-- The hot path on a concrete world: two campaigns, a budget service that keeps a list of charges.
use bidflock.Prelude.{◌≡◌, refl, inr, some, [], ◌∷◌}
use bidflock.Prelude.Int.{pos}
use bidflock.Prelude.Fixed.{Fixed, fixed_float, Fixed-IsOrdered, dollars}
use bidflock.Models.OpenRtb.{BidResponse, BidResult, SeatBid}
use bidflock.Auction.{run_auction, eligible, award}
use bidflock.Auction.Insertion.{insertion_sorter, insertion_sort}
use bidflock.Bidding.Build.{default_config}
use bidflock.Bidding.Process.{process_bid_request, check_all}
use bidflock.Bidding.Accounting.{Settles, asked, process_bid_request-Settles}
use bidflock.Bidding.Price.{OneBid, bid_price_bounds}
use bidflock.Bidding.Handler.{Serves, handle_bid, handle_bid-Serves}
use bidflock.Bidding.Pacing.{Matches, check_all-Matches}
use bidflock.Bidding.Example.{score, peers, ledger, imp, request, start}

abbrev seat : SeatBid Fixed
seat = record {
  bid =
      record {
        id = "bid";
        imp_id = "slot";
        price = dollars 280;
        ad_id = "ad";
        nurl = "http://bidflock/win?bid=bid&price=${AUCTION_PRICE}";
        burl = "";
        adm = "";
        adomain = [];
        cid = "a";
        crid = "ad";
        w = pos 0;
        h = pos 0;
        ext = [];
      }
      ∷ [];
  seat = "bidflock";
}

abbrev response : BidResponse Fixed
response = record { id = "r1"; seat_bid = seat ∷ []; bid_id = ""; cur = "USD"; nbr = 0 }

-- Paced by 0.7, the second bid of 4.00 sets a price of 2.80.
bids : (process_bid_request peers insertion_sorter default_config request start).0 ≡ some response
unfolding process_bid_request check_all run_auction eligible award insertion_sort
bids = refl

process_bid_request-Settles_example :
    Settles peers insertion_sorter default_config ledger request
      (asked peers insertion_sorter default_config ledger request start)
      []
      []
      (process_bid_request peers insertion_sorter default_config request start)
process_bid_request-Settles_example =
    process_bid_request-Settles peers insertion_sorter default_config ledger request imp [] refl
      start

bid_price_bounds_example :
    (res : BidResult Fixed) × ((process_bid_request peers insertion_sorter default_config request
        start).1.published
      ≡ (request.id, res) ∷ [])
    × OneBid Fixed-IsOrdered peers insertion_sorter default_config ledger request imp [] refl
        (inr refl)
        res
        seat
        []
bid_price_bounds_example =
    bid_price_bounds Fixed-IsOrdered peers insertion_sorter default_config ledger request imp []
      refl (inr refl) start {resp = response} {seat = seat} {seats = []} bids refl

handle_bid-Serves_example :
    Serves peers insertion_sorter default_config ledger
      (some request)
      start
      (handle_bid peers insertion_sorter default_config (some request) start)
handle_bid-Serves_example =
    handle_bid-Serves peers insertion_sorter default_config ledger (some request) start

check_all-Matches_example :
    let ran = check_all peers insertion_sorter default_config request (score "a" 500 ∷ []) start in
    Matches peers insertion_sorter default_config request (score "a" 500 ∷ []) start ran.0 ran.1
check_all-Matches_example =
    check_all-Matches peers insertion_sorter default_config request (score "a" 500 ∷ []) start
