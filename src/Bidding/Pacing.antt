-- ===== src/Bidding/Pacing.antt =====
-- How the answers of the budget service become the candidates of the auction.
use bidflock.Prelude.{
  ◌≡◌, refl, Bool, ◌&&◌, if◌then◌else◌, true, false, Option, none, some, List, [], ◌∷◌, arith,
}
use bidflock.Prelude.Float.{Float64, IsOrdered, ◌≼◌}
use bidflock.Models.OpenRtb.{BidRequest, BidCandidate}
use bidflock.Models.Messages.{AdScore, CheckBudgetResponse}
use bidflock.Auction.{Sorter}
use bidflock.Bidding.Peers.{Peers, State}
use bidflock.Bidding.Build.{Config, user_id_of, to_candidate}
use bidflock.Bidding.Process.{check_all}

-- IEEE 754: multiplying a number that is not negative by one from 0 to 1 does not raise it.
pub record IsScaling (F : Type 0) ⦃f : Float64 F⦄ : Type 0 where
  pub mul_shrinks : (x m : F) → f.lit 0 0 ≼ x → f.lit 0 0 ≼ m → m ≼ f.lit 1 0 → f.mul x m ≼ x
  pub mul_one : (x : F) → f.mul x (f.lit 1 0) ≡ x
  pub zero_lt_one : f.lt (f.lit 0 0) (f.lit 1 0) ≡ true
  pub zero_not_lt : f.lt (f.lit 0 0) (f.lit 0 0) ≡ false

module _ {F : Type 0} ⦃f : Float64 F⦄ (peers : Peers F) (sorter : Sorter F) (config : Config)
    (req : BidRequest F) where
  open peers use {World, check_budget}

  -- A bid is multiplied only if it is allowed and the multiplier is above zero.
  abbrev IsPaced : F → F → Bool → F → Bool → Type 0
  IsPaced bid m true paced true = paced ≡ f.mul bid m
  IsPaced bid m true paced false = paced ≡ bid
  IsPaced bid m false paced _ = paced ≡ bid

  -- A candidate against the answer of the budget service, of which there may be none.
  abbrev HasBudget : F → BidCandidate F → Option (CheckBudgetResponse F) → Type 0
  HasBudget bid c none = (c.budget_ok ≡ false) × (c.effective_bid ≡ bid)
  HasBudget bid c (some r) =
      (c.budget_ok ≡ r.allowed)
      × IsPaced bid r.pacing_multiplier r.allowed c.effective_bid
          (f.lt (f.lit 0 0) r.pacing_multiplier)

  -- The candidate of a score, with the answer to the check of it.
  pub record ComesFrom (q : AdScore F) (o : Option (CheckBudgetResponse F)) (c : BidCandidate F)
      : Type 0 where
    pub of_campaign : c.campaign_id ≡ q.campaign_id
    pub of_ad : c.ad_id ≡ q.ad_id
    pub of_bid : c.raw_bid ≡ q.effective_bid
    pub unpriced : c.clearing_price ≡ f.lit 0 0
    pub has_budget : HasBudget q.effective_bid c o

  -- The check that a score is due: of its campaign and its bid, for the user of the request.
  abbrev check_of : AdScore F → World → Option (CheckBudgetResponse F) × World
  check_of q = check_budget config.budget_timeout (record {
    campaign_id = q.campaign_id;
    user_id = user_id_of req.user;
    bid_amount = q.effective_bid;
  })

  -- The lists correspond, element by element, from one state to another. Each check is made in the
  -- world that the checks before it left, and nothing is published.
  abbrev pub Matches :
      List (AdScore F) → State F World → List (BidCandidate F) → State F World → Type 0
  Matches [] s [] e = e ≡ s
  Matches [] s (_ ∷ _) e = ⊥
  Matches (_ ∷ _) s [] e = ⊥
  Matches (q ∷ qs) s (c ∷ cs) e =
      let asked = check_of q s.world in
      ComesFrom q asked.0 c × Matches qs (record s { world = asked.1 }) cs e

  to_candidate-HasBudget :
      (q : AdScore F) (o : Option (CheckBudgetResponse F))
      → HasBudget q.effective_bid (to_candidate q o) o
  to_candidate-HasBudget q none = (refl, refl)
  to_candidate-HasBudget q (some r) = (refl, ran r.allowed (f.lt (f.lit 0 0) r.pacing_multiplier))
    where
      ran :
          (a p : Bool)
          → IsPaced q.effective_bid r.pacing_multiplier a
              (if a && p then f.mul q.effective_bid r.pacing_multiplier else q.effective_bid)
              p
      ran true true = refl
      ran true false = refl
      ran false p = refl

  -- The loop asks the budget service about each score in turn, for its campaign, its bid and the user
  -- of the request, and publishes nothing. The candidates are the scores in order, each with its
  -- campaign, its ad and its raw bid. The budget of a candidate counts as confirmed exactly if the
  -- answer to its check arrived and allowed it. The bid is then multiplied by the multiplier of that
  -- answer if this is above zero, and is the raw bid in every other case.
  pub check_all-Matches :
      (scores : List (AdScore F)) (s : State F World)
      → let ran = check_all peers sorter config req scores s in Matches scores s ran.0 ran.1
  unfolding check_all
  check_all-Matches [] s = refl
  check_all-Matches (q ∷ qs) s = (
    record {
      of_campaign = refl;
      of_ad = refl;
      of_bid = refl;
      unpriced = refl;
      has_budget = to_candidate-HasBudget q _;
    },
    check_all-Matches qs _,
  )

module _ {F : Type 0} ⦃f : Float64 F⦄ (laws : IsOrdered F) (scaling : IsScaling F) where
  open laws use {numbers_of_le, lt-le}
  open scaling use {mul_shrinks, mul_one, zero_lt_one, zero_not_lt}

  -- Pacing never raises a bid: for a score that is not negative and a multiplier of at most 1.0 the
  -- candidate bids at most the score, whatever the budget service allowed.
  pacing_never_raises :
      (q : AdScore F) (r : CheckBudgetResponse F)
      → f.lit 0 0 ≼ q.effective_bid
      → r.pacing_multiplier ≼ f.lit 1 0
      → (to_candidate q (some r)).effective_bid ≼ (to_candidate q (some r)).raw_bid
  pacing_never_raises q r h k = ground (
    arith,
    lt-le (f.lit 0 0) r.pacing_multiplier,
    mul_shrinks q.effective_bid r.pacing_multiplier h,
    numbers_of_le (f.lit 0 0) q.effective_bid h,
  )

  -- A multiplier of 0.0 does not stop the bid: the candidate is the one of a multiplier of 1.0.
  zero_multiplier_is_full_speed :
      (q : AdScore F) (r : CheckBudgetResponse F)
      → to_candidate q (some (record r { pacing_multiplier = f.lit 0 0 }))
        ≡ to_candidate q (some (record r { pacing_multiplier = f.lit 1 0 }))
  zero_multiplier_is_full_speed q r = ground (arith, mul_one q.effective_bid)
