-- ===== src/Models/Messages.antt =====
-- The request and response types of the gRPC services, gen/go/budget and gen/go/scoring.
use bidflock.Prelude.{Bool, List, String}

pub record CheckBudgetRequest (F : Type 0) : Type 0 where
  pub campaign_id : String
  pub user_id : String
  pub bid_amount : F

pub record CheckBudgetResponse (F : Type 0) : Type 0 where
  pub allowed : Bool
  pub reason : String
  pub remaining_daily_budget : F
  pub pacing_multiplier : F

pub record DeductBudgetRequest (F : Type 0) : Type 0 where
  pub campaign_id : String
  pub bid_id : String
  pub amount : F

pub record DeductBudgetResponse (F : Type 0) : Type 0 where
  pub success : Bool
  pub remaining_daily_budget : F

pub record PacingRequest : Type 0 where
  pub campaign_id : String

pub record PacingResponse (F : Type 0) : Type 0 where
  pub spend_rate : F
  pub target_rate : F
  pub pacing_multiplier : F
  pub daily_spend_so_far : F
  pub daily_budget : F

-- `BidRequest` of gen/go/scoring: what the scoring service is told of the request.
pub record BidContext : Type 0 where
  pub id : String
  pub user_id : String
  pub geo : String
  pub device_type : String
  pub ssp_id : String
  pub interests : List String

pub record ScoreRequest : Type 0 where
  pub request_id : String
  pub bid_request : BidContext
  pub campaign_ids : List String

pub record AdScore (F : Type 0) : Type 0 where
  pub campaign_id : String
  pub ad_id : String
  pub predicted_ctr : F
  pub predicted_cvr : F
  pub effective_bid : F
  pub quality_score : F

pub record ScoreResponse (F : Type 0) : Type 0 where
  pub request_id : String
  pub scores : List (AdScore F)
