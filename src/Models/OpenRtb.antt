-- ===== src/Models/OpenRtb.antt =====
-- pkg/models/openrtb.go: the OpenRTB request and response, and the auction's record of a candidate.
-- A pointer is an `Option`, a `json.RawMessage` its bytes.
use bidflock.Prelude.{ℕ, Bool, Option, List, String}
use bidflock.Prelude.Int.{ℤ}

abbrev pub nbr_technical_error : ℕ
nbr_technical_error = 1

abbrev pub nbr_invalid_request : ℕ
nbr_invalid_request = 2

abbrev pub nbr_no_ad_found : ℕ
nbr_no_ad_found = 7

abbrev pub nbr_budget_constraints : ℕ
nbr_budget_constraints = 9

pub record Publisher : Type 0 where
  pub id : String
  pub name : String
  pub cat : List String
  pub domain : String

pub record Site : Type 0 where
  pub id : String
  pub name : String
  pub domain : String
  pub cat : List String
  pub page : String
  pub referrer : String
  pub publisher : Option Publisher

pub record App : Type 0 where
  pub id : String
  pub name : String
  pub bundle : String
  pub cat : List String
  pub ver : String
  pub publisher : Option Publisher
  pub store_url : String

pub record Geo (F : Type 0) : Type 0 where
  pub lat : F
  pub lon : F
  pub country : String
  pub region : String
  pub city : String
  pub zip : String

pub record User (F : Type 0) : Type 0 where
  pub id : String
  pub yob : ℤ
  pub gender : String
  pub geo : Option (Geo F)
  pub interests : List String

pub record Device (F : Type 0) : Type 0 where
  pub ua : String
  pub ip : String
  pub geo : Option (Geo F)
  pub make : String
  pub model : String
  pub os : String
  pub osv : String
  pub device_type : ℤ
  pub js : ℤ
  pub language : String
  pub carrier : String
  pub ifa : String

pub record Banner : Type 0 where
  pub w : ℤ
  pub h : ℤ
  pub btype : List ℤ
  pub battr : List ℤ
  pub position : ℤ

pub record Video : Type 0 where
  pub mimes : List String
  pub min_duration : ℤ
  pub max_duration : ℤ
  pub protocols : List ℤ
  pub w : ℤ
  pub h : ℤ
  pub start_delay : ℤ
  pub linearity : ℤ
  pub api : List ℤ

pub record Native : Type 0 where
  pub request : String
  pub ver : String
  pub api : List ℤ

pub record Imp (F : Type 0) : Type 0 where
  pub id : String
  pub banner : Option Banner
  pub video : Option Video
  pub native_ad : Option Native
  pub bid_floor : F
  pub bid_floor_cur : String
  pub secure : ℤ
  pub ext : List ℕ

pub record BidRequestExt : Type 0 where
  pub ssp_id : String
  pub exchange : String

pub record BidRequest (F : Type 0) : Type 0 where
  pub id : String
  pub imp : List (Imp F)
  pub site : Option Site
  pub app : Option App
  pub user : Option (User F)
  pub device : Option (Device F)
  pub auction_type : ℤ
  pub tmax : ℤ
  pub wseat : List String
  pub cur : List String
  pub ext : Option BidRequestExt

pub record Bid (F : Type 0) : Type 0 where
  pub id : String
  pub imp_id : String
  pub price : F
  pub ad_id : String
  pub nurl : String
  pub burl : String
  pub adm : String
  pub adomain : List String
  pub cid : String
  pub crid : String
  pub w : ℤ
  pub h : ℤ
  pub ext : List ℕ

pub record SeatBid (F : Type 0) : Type 0 where
  pub bid : List (Bid F)
  pub seat : String

pub record BidResponse (F : Type 0) : Type 0 where
  pub id : String
  pub seat_bid : List (SeatBid F)
  pub bid_id : String
  pub cur : String
  pub nbr : ℕ

pub record BidCandidate (F : Type 0) : Type 0 where
  pub campaign_id : String
  pub ad_id : String
  pub raw_bid : F
  pub effective_bid : F
  pub clearing_price : F
  pub predicted_ctr : F
  pub budget_ok : Bool

pub record BidResult (F : Type 0) : Type 0 where
  pub request_id : String
  pub auction_type : String
  pub candidates : List (BidCandidate F)
  pub winner : Option (BidCandidate F)
  pub no_bid : Bool
  pub no_bid_reason : ℕ
  pub auction_duration_us : ℕ
  pub ssp_id : String
  pub timestamp : ℤ
