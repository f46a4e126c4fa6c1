-- ===== src/System/Tests.antt =====
-- The bidding service of the example with the budget service of the example behind it.
use bidflock.Prelude.{
  ◌≡◌, refl, inr, arith, none, some, List, [], ◌∷◌, map, str_eq, true, false, if◌then◌else◌,
}
use bidflock.Prelude.Fixed.{Fixed, fixed_float, Fixed-IsOrdered}
use bidflock.Auction.Insertion.{insertion_sorter}
use bidflock.Bidding.Peers.{Peers}
use bidflock.Bidding.Build.{default_config}
use bidflock.Bidding.Process.{process_bid_request}
use bidflock.Bidding.Example.{score, charged, request}
use bidflock.Budget.Example.{start-IsSolvent, Tables, server, server-IsRedis, answers, start}
use bidflock.Budget.Server.{serve_check}
use bidflock.Prelude.Int.{pos, negsuc}
use bidflock.Prelude.Float.{◌≼◌}
use bidflock.System.Denied.{IsNoBid}
use bidflock.Models.Campaign.{Ad, Campaign, CampaignEvent, status_active}
use bidflock.Campaigns.Example.{draft, banner}
use bidflock.Campaigns.Documents.{Change, create, update, add_ad, perform, perform_changes}
use bidflock.Bidding.ActiveSet.{active_campaigns_key, is_active, consume}
use bidflock.Clients.Consumer.{run}
use bidflock.Campaigns.Repository.{ok, find_campaign, insert_ad}
use bidflock.Campaigns.Service.{link_ad, delete_campaign}
use bidflock.System.Follower.{event_of}
use bidflock.System.Cached.{cache_of, cache_catches_up}
use bidflock.Scoring.Example.{store, store-IsStore}
use bidflock.Scoring.Service.{campaign_key}
use bidflock.Scoring.Cache.{handle_records}
use bidflock.Bidding.Example.{sets, sets-IsReachable}
use bidflock.System.CaughtUp.{sync_handler, active_set_catches_up}
use bidflock.Bidding.Peers.{State}
use bidflock.Budget.Solvent.{IsSolvent}
use bidflock.Rpc.Example.{json, conn, connected, encodes}
use bidflock.Rpc.Stubs.{budget_client}
use bidflock.System.Wired.{IsDialled, IsCarried}
use bidflock.System.Connected.{dialled-IsSolvent, dialled_never_bids}
use bidflock.System.Resurrected.{lists, deleted_campaign_returns}
use bidflock.Campaigns.Stored.{Store, database, database_log, database_documents, held, replaces}
use bidflock.System.Example.{client, host, group, consumer}

abbrev peers : Peers Fixed
peers = record {
  World = Tables;
  active_campaign_ids = λ v. (some ("a" ∷ "b" ∷ []), v);
  score_ads = λ _ q v.
      (some (record { request_id = q.request_id; scores = score "a" 500 ∷ score "b" 400 ∷ [] }), v);
  check_budget = λ _ q v. serve_check server 5 q v;
  deduct_budget = λ _ q v. (some charged, v);
  now = λ v. (62_135_596_800_000_000_000, v);
  new_uuid = λ v. ("bid", v);
}

thousandth :
    (x : Fixed)
    → fixed_float.lit 0 0 ≼ x
    → fixed_float.lit 0 0 ≼ fixed_float.div x (fixed_float.lit 1000 0)
thousandth (pos n) h = ground arith
thousandth (negsuc n) h = absurd (ground arith)

abbrev empty : Store
empty = record { stored = λ _. none; events = [] }

abbrev spring : Campaign Fixed
spring = record draft { id = "c1"; status = status_active }

-- A campaign is created, gets an ad, and is paused.
abbrev changes : List (Change Fixed)
changes =
    create spring
    ∷ add_ad (record banner { campaign_id = "c1" })
    ∷ update "c1" (record spring { status = "paused" })
    ∷ []

abbrev everything : List (CampaignEvent Fixed)
everything = map event_of (perform_changes database changes empty).events

active_set_catches_up_example :
    sets.is_member
      (host.view (run client (sync_handler sets client host) 1 (consumer (map some everything))).1)
      active_campaigns_key
      "c1"
    ≡ is_active (held (perform_changes database changes empty) "c1")
unfolding run sync_handler perform_changes consume perform
active_set_catches_up_example =
    active_set_catches_up database database_log database_documents sets sets-IsReachable
      (λ _ _. false) client host group changes empty 1 (consumer (map some everything)) (λ j. refl)
      refl (λ j. refl) "c1"

cache_catches_up_example :
    handle_records store store-IsStore (map some everything) (λ k. none) (campaign_key "c1")
    ≡ cache_of (held (perform_changes database changes empty) "c1")
unfolding perform_changes perform
cache_catches_up_example =
    cache_catches_up database database_log database_documents replaces store store-IsStore
      (λ k c w. refl, λ k w. refl) changes empty (λ k. none) (map some everything) (λ j. refl)
      (λ j. refl) "c1"

abbrev running : Store
running = record { stored = λ j. if str_eq "c1" j then some spring else none; events = [] }

abbrev ad : Ad
ad = record banner { id = "a1"; campaign_id = "c1" }

abbrev before_deletion : Store
before_deletion = (insert_ad database ad running).1

deleted_campaign_returns_example :
    let back =
      (link_ad database spring (ok tt, ad) (delete_campaign database "c1" before_deletion).1).1 in
    (held back "c1" ≡ none)
    × (lists database database_log database_documents sets sets-IsReachable (λ _ _. false) back "c1"
        ≡ true)
unfolding find_campaign insert_ad delete_campaign
deleted_campaign_returns_example =
    deleted_campaign_returns database database_log database_documents sets sets-IsReachable
      (λ _ _. false) ad spring running refl refl refl refl

-- The budget service behind its stubs.
abbrev dialling : Peers Fixed
dialling = record peers {
  check_budget = λ _ q w. (budget_client json conn).check_budget q w;
  deduct_budget = λ _ q w. (budget_client json conn).deduct_budget q w;
}

abbrev dialled : IsDialled json dialling server
dialled = record {
  lens = record { view = λ w. w; back = λ v _. v; view_back = λ v w. refl };
  fuel = 5;
  conn = conn;
  connected = connected;
  ids_keep = λ w. refl;
  score_keep = λ t q w. refl;
  now_keep = λ w. refl;
  uuid_keep = λ w. refl;
  check_dials = λ t q w. inr (inr refl);
  deduct_dials = λ t q w. inr (inr refl);
}

carried : IsCarried json dialling server
carried = (
  (
    encodes _ json.check_request.unmarshal (λ x. refl),
    encodes _ json.check_response.unmarshal (λ x. refl),
  ),
  (
    encodes _ json.deduct_request.unmarshal (λ x. refl),
    encodes _ json.deduct_response.unmarshal (λ x. refl),
  ),
)

abbrev begin : State Fixed Tables
begin = record { world = start; published = [] }

dialled-IsSolvent_example :
    IsSolvent server
      (process_bid_request dialling insertion_sorter default_config request begin).1.world
dialled-IsSolvent_example =
    dialled-IsSolvent json dialling server server-IsRedis Fixed-IsOrdered dialled carried
      insertion_sorter default_config request (inr refl) thousandth refl begin start-IsSolvent

dialled_never_bids_example :
    IsNoBid request (process_bid_request dialling insertion_sorter default_config request begin).0
dialled_never_bids_example =
    dialled_never_bids json dialling server server-IsRedis Fixed-IsOrdered dialled carried
      insertion_sorter default_config request answers begin
