-- ===== src/Models/Campaign.antt =====
-- pkg/models/campaign.go. The string types keep their texts; a `time.Time` is its count of
-- nanoseconds since the zero time, 1 January of year 1, as the time package documents it. Times
-- before that are not modelled.
use bidflock.Prelude.{ℕ, ◌/◌, ◌==◌, Bool, Option, List, String, ltb}
use bidflock.Prelude.Int.{ℤ, sub_ℕ}

abbrev pub Time : Type 0
Time = ℕ

-- `Time.IsZero`
abbrev pub is_zero : Time → Bool
is_zero t = t == 0

-- `Time.Before`
abbrev pub before : Time → Time → Bool
before t u = ltb t u

-- `Time.Unix`: 1 January 1970 is 62135596800 seconds after the zero time.
abbrev pub unix : Time → ℤ
unix t = sub_ℕ (t / 1_000_000_000) 62_135_596_800

-- `Time.UnixMilli`
abbrev pub unix_milli : Time → ℤ
unix_milli t = sub_ℕ (t / 1_000_000) 62_135_596_800_000

abbrev pub CampaignStatus : Type 0
CampaignStatus = String

abbrev pub status_active : CampaignStatus
status_active = "active"

abbrev pub status_draft : CampaignStatus
status_draft = "draft"

abbrev pub BidStrategy : Type 0
BidStrategy = String

abbrev pub AdType : Type 0
AdType = String

abbrev pub ad_type_video : AdType
ad_type_video = "video"

pub record Advertiser : Type 0 where
  pub id : String
  pub name : String
  pub domain : String
  pub industry : String
  pub created_at : Time

pub record TargetingRules : Type 0 where
  pub age_min : ℤ
  pub age_max : ℤ
  pub genders : List String
  pub interests : List String
  pub geos : List String
  pub device_types : List String
  pub os_types : List String
  pub ad_types : List AdType

pub record Campaign (F : Type 0) : Type 0 where
  pub id : String
  pub advertiser_id : String
  pub name : String
  pub status : CampaignStatus
  pub bid_strategy : BidStrategy
  pub daily_budget : F
  pub total_budget : F
  pub bid_ceiling : F
  pub base_bid : F
  pub targeting : TargetingRules
  pub ad_ids : List String
  pub start_date : Time
  pub end_date : Time
  pub day_parting : List ℤ
  pub created_at : Time
  pub updated_at : Time

pub record Ad : Type 0 where
  pub id : String
  pub campaign_id : String
  pub advertiser_id : String
  pub ad_type : AdType
  pub title : String
  pub description : String
  pub image_url : String
  pub video_url : String
  pub landing_url : String
  pub width : ℤ
  pub height : ℤ
  pub created_at : Time
  pub updated_at : Time

abbrev pub CampaignEventType : Type 0
CampaignEventType = String

abbrev pub campaign_created : CampaignEventType
campaign_created = "campaign.created"

abbrev pub campaign_updated : CampaignEventType
campaign_updated = "campaign.updated"

abbrev pub campaign_deleted : CampaignEventType
campaign_deleted = "campaign.deleted"

-- A nil `*Campaign` is `none`.
pub record CampaignEvent (F : Type 0) : Type 0 where
  pub event_type : CampaignEventType
  pub campaign_id : String
  pub campaign : Option (Campaign F)
  pub timestamp : ℤ

pub record CampaignCache (F : Type 0) : Type 0 where
  pub id : String
  pub status : CampaignStatus
  pub daily_budget : F
  pub total_budget : F
  pub bid_ceiling : F
  pub base_bid : F
  pub bid_strategy : BidStrategy
  pub targeting : TargetingRules
  pub ad_ids : List String
  pub start_date : ℤ
  pub end_date : ℤ
