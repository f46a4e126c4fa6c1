-- ===== src/Campaigns/Repository.antt =====
-- internal/campaign/repository.go.
use bidflock.Prelude.{
  ℕ, zero, suc, Bool, true, false, Option, none, some, List, String, str_eq, if◌then◌else◌,
}
use bidflock.Prelude.State.{Act, ◌>>=◌, pure}
use bidflock.Models.Campaign.{Advertiser, Ad, Campaign, CampaignStatus, status_active}
use bidflock.Campaigns.Database.{
  Database, Found, document, no_documents, query_error, Page, by_owner, running,
}

-- The errors: ErrNotFound, ErrBadRequest and any other.
pub data Error : Type 0 where
  not_found : Error
  bad_request : Error
  internal : Error

-- A Go result with an error.
pub data Result (A : Type 0) : Type 0 where
  ok : A → Result A
  failure : Error → Result A

abbrev pub from_insert : Bool → Result (Unit {0})
from_insert true = ok tt
from_insert false = failure internal

abbrev pub from_find : {A : Type 0} → Found A → Result A
from_find (document a) = ok a
from_find no_documents = failure not_found
from_find query_error = failure internal

-- A replacement or a deletion that meets no document is ErrNotFound.
abbrev pub from_count : Option ℕ → Result (Unit {0})
from_count none = failure internal
from_count (some zero) = failure not_found
from_count (some (suc _)) = ok tt

abbrev pub from_list : {A : Type 0} → Option (List A) → Result (List A)
from_list none = failure internal
from_list (some xs) = ok xs

abbrev pub unless_empty : String → Option String
unless_empty s = if str_eq s "" then none else some s

module _ {F : Type 0} (db : Database F) where
  open db use {World, advertisers, campaigns, ads, now}

  unfoldable pub insert_advertiser : Advertiser → Act World (Result (Unit {0}) × Advertiser)
  insert_advertiser adv = do
    t ← now
    let stamped = record adv { created_at = t }
    r ← advertisers.insert_one stamped
    pure (from_insert r, stamped)

  unfoldable pub find_advertiser : String → Act World (Result Advertiser)
  find_advertiser id = do r ← advertisers.find_one id; pure (from_find r)

  unfoldable pub find_advertisers : Page → Act World (Result (List Advertiser))
  find_advertisers page = do r ← advertisers.find page; pure (from_list r)

  -- The pointer that the caller passed holds the document with the times set; it is returned.
  unfoldable pub insert_campaign : Campaign F → Act World (Result (Unit {0}) × Campaign F)
  insert_campaign c = do
    created ← now
    updated ← now
    let stamped = record c { created_at = created; updated_at = updated }
    r ← campaigns.insert_one stamped
    pure (from_insert r, stamped)

  unfoldable pub find_campaign : String → Act World (Result (Campaign F))
  find_campaign id = do r ← campaigns.find_one id; pure (from_find r)

  unfoldable pub replace_campaign : String → Campaign F → Act World (Result (Unit {0}) × Campaign F)
  replace_campaign id update = do
    t ← now
    let stamped = record update { updated_at = t }
    r ← campaigns.replace_one id stamped
    pure (from_count r, stamped)

  unfoldable pub remove_campaign : String → Act World (Result (Unit {0}))
  remove_campaign id = do r ← campaigns.delete_one id; pure (from_count r)

  unfoldable pub find_campaigns :
      String → CampaignStatus → Page → Act World (Result (List (Campaign F)))
  find_campaigns advertiser_id status page = do
    r ← campaigns.find (by_owner (unless_empty advertiser_id) (unless_empty status) page)
    pure (from_list r)

  unfoldable pub list_active_campaigns : Act World (Result (List (Campaign F)))
  list_active_campaigns = do
    t ← now
    r ← campaigns.find (running status_active t)
    pure (from_list r)

  unfoldable pub insert_ad : Ad → Act World (Result (Unit {0}) × Ad)
  insert_ad ad = do
    created ← now
    updated ← now
    let stamped = record ad { created_at = created; updated_at = updated }
    r ← ads.insert_one stamped
    pure (from_insert r, stamped)

  unfoldable pub find_ad : String → Act World (Result Ad)
  find_ad id = do r ← ads.find_one id; pure (from_find r)

  unfoldable pub replace_ad : String → Ad → Act World (Result (Unit {0}) × Ad)
  replace_ad id update = do
    t ← now
    let stamped = record update { updated_at = t }
    r ← ads.replace_one id stamped
    pure (from_count r, stamped)

  unfoldable pub remove_ad : String → Act World (Result (Unit {0}))
  remove_ad id = do r ← ads.delete_one id; pure (from_count r)

  unfoldable pub find_ads : String → Act World (Result (List Ad))
  find_ads campaign_id = do r ← ads.find campaign_id; pure (from_list r)
