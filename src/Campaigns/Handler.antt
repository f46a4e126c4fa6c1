-- ===== src/Campaigns/Handler.antt =====
-- internal/campaign/handler.go: a handler takes the parts of the request that it reads, with `none`
-- for a body that is no JSON of the type, and answers with a status and a body.
use bidflock.Prelude.{ℕ, Option, none, some, List, String}
use bidflock.Prelude.Int.{ℤ}
use bidflock.Prelude.State.{Act, ◌>>=◌, pure}
use bidflock.Prelude.Float.{Float64}
use bidflock.Models.Campaign.{Advertiser, Ad, Campaign}
use bidflock.Campaigns.Database.{Database}
use bidflock.Campaigns.Repository.{
  Error, not_found, bad_request, internal, Result, ok, failure, find_advertiser, find_campaign,
  find_ad, find_ads, remove_ad,
}
use bidflock.Campaigns.Service.{
  create_advertiser, list_advertisers, create_campaign, update_campaign, delete_campaign,
  list_campaigns, create_ad, update_ad,
}

-- `body` is `none` for an error message and for no body.
pub record Reply (A : Type 0) : Type 0 where
  pub status : ℕ
  pub body : Option A

-- The query string of a request: a parameter as text, which is empty if there is none, and as the
-- number that `strconv.ParseInt` gives, whose error is ignored.
pub record Query : Type 0 where
  pub text : String → String
  pub number : String → ℤ

-- `writeServiceError`
abbrev pub error_status : Error → ℕ
error_status not_found = 404
error_status bad_request = 400
error_status internal = 500

abbrev pub write_result : {A : Type 0} → ℕ → Result A → Reply A
write_result status (ok a) = record { status = status; body = some a }
write_result status (failure e) = record { status = error_status e; body = none }

abbrev pub write_no_content : Result (Unit {0}) → Reply (Unit {0})
write_no_content (ok _) = record { status = 204; body = none }
write_no_content (failure e) = record { status = error_status e; body = none }

module _ {F : Type 0} ⦃f : Float64 F⦄ (db : Database F) where
  open db use {World}

  abbrev pub with_body :
      {A B : Type 0} → ℕ → Option A → (A → Act World (Result B)) → Act World (Reply B)
  with_body status none serve = pure (record { status = 400; body = none })
  with_body status (some a) serve = do r ← serve a; pure (write_result status r)

  abbrev pub answering : {B : Type 0} → Act World (Result B) → Act World (Reply B)
  answering serve = do r ← serve; pure (write_result 200 r)

  unfoldable pub post_advertiser : Option Advertiser → Act World (Reply Advertiser)
  unfolding create_advertiser
  post_advertiser body = with_body 201 body (create_advertiser db)

  unfoldable pub get_advertiser : String → Act World (Reply Advertiser)
  unfolding find_advertiser
  get_advertiser id = answering (find_advertiser db id)

  unfoldable pub get_advertisers : Query → Act World (Reply (List Advertiser))
  unfolding list_advertisers
  get_advertisers query =
      answering (list_advertisers db (query.number "limit") (query.number "offset"))

  unfoldable pub post_campaign : Option (Campaign F) → Act World (Reply (Campaign F))
  unfolding create_campaign
  post_campaign body = with_body 201 body (create_campaign db)

  unfoldable pub get_campaign : String → Act World (Reply (Campaign F))
  unfolding find_campaign
  get_campaign id = answering (find_campaign db id)

  unfoldable pub put_campaign : String → Option (Campaign F) → Act World (Reply (Campaign F))
  unfolding update_campaign
  put_campaign id body = with_body 200 body (update_campaign db id)

  unfoldable pub remove_campaign_at : String → Act World (Reply (Unit {0}))
  unfolding delete_campaign
  remove_campaign_at id = do r ← delete_campaign db id; pure (write_no_content r)

  unfoldable pub get_campaigns : Query → Act World (Reply (List (Campaign F)))
  unfolding list_campaigns
  get_campaigns query = answering (
      list_campaigns db (query.text "advertiser_id") (query.text "status") (query.number "limit")
        (query.number "offset"))

  unfoldable pub post_ad : Option Ad → Act World (Reply Ad)
  unfolding create_ad
  post_ad body = with_body 201 body (create_ad db)

  unfoldable pub get_ad : String → Act World (Reply Ad)
  unfolding find_ad
  get_ad id = answering (find_ad db id)

  unfoldable pub put_ad : String → Option Ad → Act World (Reply Ad)
  unfolding update_ad
  put_ad id body = with_body 200 body (update_ad db id)

  unfoldable pub remove_ad_at : String → Act World (Reply (Unit {0}))
  unfolding remove_ad
  remove_ad_at id = do r ← remove_ad db id; pure (write_no_content r)

  unfoldable pub get_campaign_ads : String → Act World (Reply (List Ad))
  unfolding find_ads
  get_campaign_ads campaign_id = answering (find_ads db campaign_id)
