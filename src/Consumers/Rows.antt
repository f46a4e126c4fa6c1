-- ===== src/Consumers/Rows.antt =====
-- The row types of internal/consumer/writer.go. A time is its count of milliseconds since 1970.
use bidflock.Prelude.{Bool, String}
use bidflock.Prelude.Int.{ℤ}

pub record ImpressionRow (F : Type 0) : Type 0 where
  pub event_id : String
  pub bid_id : String
  pub request_id : String
  pub campaign_id : String
  pub ad_id : String
  pub user_id : String
  pub ssp_id : String
  pub price : F
  pub timestamp : ℤ

pub record ClickRow : Type 0 where
  pub event_id : String
  pub impression_id : String
  pub campaign_id : String
  pub ad_id : String
  pub user_id : String
  pub timestamp : ℤ

pub record ConversionRow (F : Type 0) : Type 0 where
  pub event_id : String
  pub click_id : String
  pub campaign_id : String
  pub ad_id : String
  pub user_id : String
  pub value : F
  pub timestamp : ℤ

pub record BidResultRow (F : Type 0) : Type 0 where
  pub request_id : String
  pub auction_type : String
  pub winner_cam_id : String
  pub winner_ad_id : String
  pub clear_price : F
  pub no_bid : Bool
  pub no_bid_reason : ℤ
  pub duration_us : ℤ
  pub ssp_id : String
  pub timestamp : ℤ

-- What `append` takes as an `interface{}`.
pub data Row (F : Type 0) : Type 0 where
  impression_row : ImpressionRow F → Row F
  click_row : ClickRow → Row F
  conversion_row : ConversionRow F → Row F
  bid_result_row : BidResultRow F → Row F
