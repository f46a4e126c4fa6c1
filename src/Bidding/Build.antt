-- ===== src/Bidding/Build.antt =====
-- internal/bidding/service.go: the configuration, the requests that the service sends to its peers,
-- and the responses and results that it builds from theirs.
use Prim.Native.String
use bidflock.Prelude.Int.{ℤ, pos}
use bidflock.Prelude.{
  ℕ, ◌*◌, Bool, true, false, ◌&&◌, Option, none, some, List, [], ◌∷◌, String, str_eq, ◌==◌,
  if◌then◌else◌,
}
use bidflock.Prelude.Float.{Float64}
use bidflock.Models.OpenRtb.{
  BidRequest, BidResponse, BidResult, BidCandidate, BidRequestExt, Bid, Imp, Device, Geo, User,
}
use bidflock.Models.Messages.{
  ScoreRequest, AdScore, CheckBudgetRequest, CheckBudgetResponse, DeductBudgetRequest,
}
use bidflock.Auction.{AuctionType, first_price, second_price}

-- Durations are nanoseconds.
pub record Config : Type 0 where
  pub auction_type : AuctionType
  pub scoring_timeout : ℕ
  pub budget_timeout : ℕ

abbrev pub millisecond : ℕ
millisecond = 1_000_000

abbrev pub default_config : Config
default_config = record {
  auction_type = second_price;
  scoring_timeout = 20 * millisecond;
  budget_timeout = 10 * millisecond;
}

abbrev pub deduct_timeout : ℕ
deduct_timeout = 15 * millisecond

abbrev pub os_class : String → String
os_class os =
    if str_eq os "iOS" then "ios" else if str_eq os "Android" then "android" else "desktop"

abbrev pub ssp_id_of : Option BidRequestExt → String
ssp_id_of none = ""
ssp_id_of (some e) = e.ssp_id

module _ {F : Type 0} where
  abbrev pub no_bid_response : String → ℕ → BidResponse F
  no_bid_response id nbr = record { id = id; seat_bid = []; bid_id = ""; cur = ""; nbr = nbr }

  abbrev pub device_geo : Option (Device F) → Option (Geo F)
  device_geo none = none
  device_geo (some d) = d.geo

  abbrev pub profile_geo : Option (User F) → Option (Geo F)
  profile_geo none = none
  profile_geo (some u) = u.geo

  abbrev pub first_country : Option (Geo F) → Option (Geo F) → String
  first_country (some g) _ = g.country
  first_country none (some g) = g.country
  first_country none none = ""

  -- `userGeo`: the device's place, or else the user's.
  abbrev pub user_geo : BidRequest F → String
  user_geo req = first_country (device_geo req.device) (profile_geo req.user)

  abbrev pub device_type_of : Option (Device F) → String
  device_type_of none = ""
  device_type_of (some d) = os_class d.os

  abbrev pub interests_of : Option (User F) → List String
  interests_of none = []
  interests_of (some u) = u.interests

  abbrev pub user_id_of : Option (User F) → String
  user_id_of none = ""
  user_id_of (some u) = u.id

  abbrev pub score_request : BidRequest F → List String → ScoreRequest
  score_request req ids = record {
    request_id = req.id;
    bid_request = record {
      id = req.id;
      user_id = user_id_of req.user;
      geo = user_geo req;
      device_type = device_type_of req.device;
      ssp_id = ssp_id_of req.ext;
      interests = interests_of req.user;
    };
    campaign_ids = ids;
  }

  abbrev pub no_bid_result : BidRequest F → ℕ → ℕ → ℤ → BidResult F
  no_bid_result req reason duration stamp = record {
    request_id = req.id;
    auction_type = "";
    candidates = [];
    winner = none;
    no_bid = true;
    no_bid_reason = reason;
    auction_duration_us = duration;
    ssp_id = ssp_id_of req.ext;
    timestamp = stamp;
  }

  abbrev pub won_result :
      BidRequest F → AuctionType → List (BidCandidate F) → BidCandidate F → ℕ → ℤ → BidResult F
  won_result req kind candidates winner duration stamp = record {
    request_id = req.id;
    auction_type = if kind == first_price then "first_price" else "second_price";
    candidates = candidates;
    winner = some winner;
    no_bid = false;
    no_bid_reason = 0;
    auction_duration_us = duration;
    ssp_id = ssp_id_of req.ext;
    timestamp = stamp;
  }

module _ {F : Type 0} ⦃f : Float64 F⦄ where
  open f use {lit, mul, div, lt}

  abbrev pub floor_price : List (Imp F) → F
  floor_price [] = lit 0 0
  floor_price (i ∷ _) = i.bid_floor

  -- The bid for the impression `imp`. The empty fields are those that the code leaves out.
  abbrev pub bid_for : BidCandidate F → String → Imp F → Bid F
  bid_for winner bid_id imp = record {
    id = bid_id;
    imp_id = imp.id;
    price = winner.clearing_price;
    ad_id = winner.ad_id;
    nurl = String.◌++◌ "http://bidflock/win?bid=" (String.◌++◌ bid_id "&price=${AUCTION_PRICE}");
    burl = "";
    adm = "";
    adomain = [];
    cid = winner.campaign_id;
    crid = winner.ad_id;
    w = pos 0;
    h = pos 0;
    ext = [];
  }

  abbrev pub bid_response : BidRequest F → BidCandidate F → String → Imp F → BidResponse F
  bid_response req winner bid_id imp = record {
    id = req.id;
    seat_bid = record { bid = bid_for winner bid_id imp ∷ []; seat = "bidflock" } ∷ [];
    bid_id = "";
    cur = "USD";
    nbr = 0;
  }

  -- `req.Imp[0]` in the response: `none` is the index panic on a request with no impression.
  abbrev pub answer : BidRequest F → BidCandidate F → String → List (Imp F) → Option (BidResponse F)
  answer req winner bid_id [] = none
  answer req winner bid_id (i ∷ _) = some (bid_response req winner bid_id i)

  -- What the answer of the budget service makes of a score.
  abbrev pub budget_confirmed : Option (CheckBudgetResponse F) → Bool
  budget_confirmed none = false
  budget_confirmed (some r) = r.allowed

  abbrev pub paced_bid : F → Option (CheckBudgetResponse F) → F
  paced_bid bid none = bid
  paced_bid bid (some r) =
      if r.allowed && lt (lit 0 0) r.pacing_multiplier then mul bid r.pacing_multiplier else bid

  abbrev pub to_candidate : AdScore F → Option (CheckBudgetResponse F) → BidCandidate F
  to_candidate score r = record {
    campaign_id = score.campaign_id;
    ad_id = score.ad_id;
    raw_bid = score.effective_bid;
    effective_bid = paced_bid score.effective_bid r;
    clearing_price = lit 0 0;
    predicted_ctr = score.predicted_ctr;
    budget_ok = budget_confirmed r;
  }

  abbrev pub check_request : String → AdScore F → CheckBudgetRequest F
  check_request user score = record {
    campaign_id = score.campaign_id;
    user_id = user;
    bid_amount = score.effective_bid;
  }

  -- From a price per thousand impressions to the cost of one.
  abbrev pub deduct_request : BidRequest F → BidCandidate F → DeductBudgetRequest F
  deduct_request req winner = record {
    campaign_id = winner.campaign_id;
    bid_id = req.id;
    amount = div winner.clearing_price (lit 1000 0);
  }
