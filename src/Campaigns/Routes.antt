-- ===== src/Campaigns/Routes.antt =====
-- The routes of internal/campaign/handler.go, with the handler behind each.
use bidflock.Prelude.{Option, none, some, List, [], ◌∷◌, ◌++◌, String}
use bidflock.Prelude.State.{Act, ◌>>=◌, pure}
use bidflock.Prelude.Float.{Float64}
use bidflock.Models.Campaign.{Advertiser, Ad, Campaign}
use bidflock.Campaigns.Database.{Database}
use bidflock.Campaigns.Handler.{
  Reply, Query, post_advertiser, get_advertiser, get_advertisers, post_campaign, get_campaign,
  put_campaign, remove_campaign_at, get_campaigns, post_ad, get_ad, put_ad, remove_ad_at,
  get_campaign_ads,
}

-- A request as the handlers read it: `param` is `chi.URLParam`, and the body is decoded as what the
-- handler wants.
pub record Request (F : Type 0) : Type 0 where
  pub param : String → String
  pub query : Query
  pub advertiser : Option Advertiser
  pub campaign : Option (Campaign F)
  pub ad : Option Ad

-- What a response has in its body.
pub data Content (F : Type 0) : Type 0 where
  an_advertiser : Advertiser → Content F
  advertisers : List Advertiser → Content F
  a_campaign : Campaign F → Content F
  campaigns : List (Campaign F) → Content F
  an_ad : Ad → Content F
  ads : List Ad → Content F
  nothing : Unit {0} → Content F

abbrev content_of : {A F : Type 0} → (A → Content F) → Option A → Option (Content F)
content_of make none = none
content_of make (some a) = some (make a)

abbrev with_content : {A F : Type 0} → (A → Content F) → Reply A → Reply (Content F)
with_content make reply = record { status = reply.status; body = content_of make reply.body }

-- A handler under a method and a pattern.
pub record Route (F W : Type 0) : Type 0 where
  pub method : String
  pub pattern : String
  pub serve : Request F → Act W (Reply (Content F))

module _ {F : Type 0} ⦃f : Float64 F⦄ (db : Database F) where
  open db use {World}

  abbrev route :
      {A : Type 0}
      → String
      → String
      → (A → Content F)
      → (Request F → Act World (Reply A))
      → Route F World
  route method pattern make handler = record {
    method = method;
    pattern = pattern;
    serve = λ r. (do reply ← handler r; pure (with_content make reply));
  }

  abbrev advertiser_routes : List (Route F World)
  advertiser_routes =
      route "POST" "/advertisers/" an_advertiser (λ r. post_advertiser db r.advertiser)
      ∷ route "GET" "/advertisers/" advertisers (λ r. get_advertisers db r.query)
      ∷ route "GET" "/advertisers/{id}" an_advertiser (λ r. get_advertiser db (r.param "id"))
      ∷ []

  abbrev campaign_routes : List (Route F World)
  campaign_routes =
      route "POST" "/campaigns/" a_campaign (λ r. post_campaign db r.campaign)
      ∷ route "GET" "/campaigns/" campaigns (λ r. get_campaigns db r.query)
      ∷ route "GET" "/campaigns/{id}" a_campaign (λ r. get_campaign db (r.param "id"))
      ∷ route "PUT" "/campaigns/{id}" a_campaign (λ r. put_campaign db (r.param "id") r.campaign)
      ∷ route "DELETE" "/campaigns/{id}" nothing (λ r. remove_campaign_at db (r.param "id"))
      ∷ []

  abbrev ad_routes : List (Route F World)
  ad_routes =
      route "POST" "/ads/" an_ad (λ r. post_ad db r.ad)
      ∷ route "GET" "/ads/{id}" an_ad (λ r. get_ad db (r.param "id"))
      ∷ route "PUT" "/ads/{id}" an_ad (λ r. put_ad db (r.param "id") r.ad)
      ∷ route "DELETE" "/ads/{id}" nothing (λ r. remove_ad_at db (r.param "id"))
      ∷ route "GET" "/ads/campaign/{campaignId}" ads
          (λ r. get_campaign_ads db (r.param "campaignId"))
      ∷ []

  -- `Routes`
  abbrev pub routes : List (Route F World)
  routes = advertiser_routes ++ campaign_routes ++ ad_routes
