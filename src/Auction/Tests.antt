-- ===== src/Auction/Tests.antt =====
-- `RunAuction` on the inputs of auction_test.go.
use mathlib.Core.List.{Permᴰ, Memᴰ}
use bidflock.Prelude.{
  ℕ, ◌≡◌, refl, ◌⊎◌, inr, Bool, true, false, List, [], ◌∷◌, none, some, map, All, String,
}
use bidflock.Prelude.Float.{◌≼◌}
use bidflock.Prelude.Fixed.{Fixed, fixed_float, Fixed-IsOrdered, dollars}
use bidflock.Models.OpenRtb.{BidCandidate}
use bidflock.Auction.{first_price, second_price, is_eligible, eligible, award, run_auction}
use bidflock.Auction.Insertion.{insertion_sort, insertion_sorter}
use bidflock.Auction.Outcome.{run_auction_best, clearing_bounds, second_price_lem}

abbrev candidate : String → ℕ → Bool → BidCandidate Fixed
candidate id cents ok = record {
  campaign_id = id;
  ad_id = id;
  raw_bid = dollars cents;
  effective_bid = dollars cents;
  clearing_price = dollars 0;
  predicted_ctr = dollars 2;
  budget_ok = ok;
}

abbrev three : List (BidCandidate Fixed)
three = candidate "c2" 350 true ∷ candidate "c0" 900 false ∷ candidate "c1" 500 true ∷ []

abbrev winner : ℕ → BidCandidate Fixed
winner cents = record (candidate "c1" 500 true) { clearing_price = dollars cents }

second : run_auction insertion_sorter three second_price (dollars 30) ≡ some (winner 350)
unfolding run_auction eligible award insertion_sort
second = refl

first : run_auction insertion_sorter three first_price (dollars 30) ≡ some (winner 500)
unfolding run_auction eligible award insertion_sort
first = refl

below_floor : run_auction insertion_sorter three second_price (dollars 501) ≡ none
unfolding run_auction eligible award insertion_sort
below_floor = refl

run_auction_best_example :
    (c : BidCandidate Fixed) × Memᴰ c three
    × (is_eligible (dollars 30) c ≡ true)
    × (winner 350 ≡ record c { clearing_price = dollars 350 })
    × All (λ d. is_eligible (dollars 30) d ≡ true → d.effective_bid ≼ dollars 500) three
run_auction_best_example =
    run_auction_best Fixed-IsOrdered insertion_sorter second_price (dollars 30) three second

clearing_bounds_example : (dollars 30 ≼ dollars 350) × (dollars 350 ≼ dollars 500)
clearing_bounds_example =
    clearing_bounds Fixed-IsOrdered insertion_sorter second_price (dollars 30) three (inr refl)
      second

second_price_lem_example :
    (c : BidCandidate Fixed) × (rest : List (BidCandidate Fixed)) × Permᴰ
      (eligible (dollars 30) three)
      (c ∷ rest)
    × (winner 350 ≡ record c { clearing_price = dollars 350 })
    × All (λ d. d.effective_bid ≼ dollars 350) rest
    × (((rest ≡ []) × (dollars 350 ≡ dollars 30))
        ⊎ Memᴰ (dollars 350) (map (λ d. d.effective_bid) rest))
second_price_lem_example =
    second_price_lem Fixed-IsOrdered insertion_sorter (dollars 30) three second
