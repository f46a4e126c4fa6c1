-- ===== src/Bidding/Example.antt =====
-- A concrete world for the hot path: two campaigns, a budget service that keeps a list of charges.
use bidflock.Prelude.{
  ℕ, ◌≡◌, refl, true, none, some, List, [], ◌∷◌, ◌++◌, Bool, false, ◌&&◌, String, str_eq, arith,
  if◌then◌else◌,
}
use bidflock.Prelude.Int.{pos}
use bidflock.Prelude.Fixed.{Fixed, fixed_float, dollars}
use bidflock.Models.OpenRtb.{BidRequest, Imp}
use bidflock.Models.Messages.{
  AdScore, CheckBudgetResponse, DeductBudgetRequest, DeductBudgetResponse,
}
use bidflock.Bidding.Peers.{Peers, State}
use bidflock.Bidding.Accounting.{Charges}
use bidflock.Bidding.ActiveSet.{RedisSets, IsReachable}

abbrev pub score : String → ℕ → AdScore Fixed
score id cents = record {
  campaign_id = id;
  ad_id = "ad";
  predicted_ctr = dollars 2;
  predicted_cvr = dollars 1;
  effective_bid = dollars cents;
  quality_score = dollars 1;
}

abbrev pub allows : ℕ → CheckBudgetResponse Fixed
allows percent = record {
  allowed = true;
  reason = "";
  remaining_daily_budget = dollars 10_000;
  pacing_multiplier = dollars percent;
}

abbrev pub charged : DeductBudgetResponse Fixed
charged = record { success = true; remaining_daily_budget = dollars 9_000 }

abbrev pub peers : Peers Fixed
peers = record {
  World = List (DeductBudgetRequest Fixed);
  active_campaign_ids = λ v. (some ("a" ∷ "b" ∷ []), v);
  score_ads = λ _ q v.
      (some (record { request_id = q.request_id; scores = score "a" 500 ∷ score "b" 400 ∷ [] }), v);
  check_budget = λ _ _ v. (some (allows 70), v);
  deduct_budget = λ _ q v. (some charged, v ++ (q ∷ []));
  now = λ v. (62_135_596_800_000_000_000, v);
  new_uuid = λ v. ("bid", v);
}

pub charged_once :
    (v : List (DeductBudgetRequest Fixed)) (q : DeductBudgetRequest Fixed)
    (r : DeductBudgetResponse Fixed)
    → some charged ≡ some r
    → v ++ (q ∷ []) ≡ (if r.success then v ++ (q ∷ []) else v)
charged_once v q r e = ground arith

abbrev pub ledger : Charges peers
ledger = record {
  charges = λ v. v;
  ids_keep = λ v. refl;
  score_keep = λ t q v. refl;
  check_keep = λ t q v. refl;
  now_keep = λ v. refl;
  uuid_keep = λ v. refl;
  deducted = λ t q v r e. charged_once v q r e;
}

abbrev pub imp : Imp Fixed
imp = record {
  id = "slot";
  banner = none;
  video = none;
  native_ad = none;
  bid_floor = dollars 30;
  bid_floor_cur = "USD";
  secure = pos 1;
  ext = [];
}

abbrev pub request : BidRequest Fixed
request = record {
  id = "r1";
  imp = imp ∷ [];
  site = none;
  app = none;
  user = none;
  device = none;
  auction_type = pos 2;
  tmax = pos 150;
  wseat = [];
  cur = [];
  ext = none;
}

abbrev pub start : State Fixed (List (DeductBudgetRequest Fixed))
start = record { world = []; published = [] }

abbrev pub sets : RedisSets
sets = record {
  Db = String → String → Bool;
  sadd = λ key m d. (true, λ k j. if str_eq key k && str_eq m j then true else d k j);
  srem = λ key m d. (true, λ k j. if str_eq key k && str_eq m j then false else d k j);
  is_member = λ d. d;
  sadd_lem = λ key m d k j _. refl;
  srem_lem = λ key m d k j _. refl;
}

abbrev pub sets-IsReachable : IsReachable sets
sets-IsReachable = record { added = λ key m d. refl; removed = λ key m d. refl }
