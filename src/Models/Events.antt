-- ===== src/Models/Events.antt =====
-- pkg/models/events.go.
use bidflock.Prelude.{String}
use bidflock.Prelude.Int.{ℤ}

pub record ImpressionEvent (F : Type 0) : Type 0 where
  pub event_id : String
  pub bid_id : String
  pub request_id : String
  pub campaign_id : String
  pub ad_id : String
  pub user_id : String
  pub ssp_id : String
  pub price : F
  pub timestamp : ℤ

pub record ClickEvent : Type 0 where
  pub event_id : String
  pub impression_id : String
  pub campaign_id : String
  pub ad_id : String
  pub user_id : String
  pub timestamp : ℤ

pub record ConversionEvent (F : Type 0) : Type 0 where
  pub event_id : String
  pub click_id : String
  pub campaign_id : String
  pub ad_id : String
  pub user_id : String
  pub value : F
  pub timestamp : ℤ
