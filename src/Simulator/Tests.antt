-- ===== src/Simulator/Tests.antt =====
-- The load generator on a concrete source: numbers of one half, the first entry of each table.
use mathlib.Core.List.Permᴰ
use native.Mathlib.Nat.{le-div_iff_mul-le, zero-div}
use bidflock.Prelude.{ℕ, ◌+◌, ◌*◌, ◌/◌, ◌≤◌, ◌<◌, ◌≡◌, refl, some, List, [], ◌∷◌, arith, true}
use bidflock.Prelude.Int.{pos, pos_part}
use bidflock.Prelude.Float.{◌≼◌}
use bidflock.Prelude.Fixed.{Fixed, fixed_float, Fixed-IsOrdered, dollars}
use bidflock.Prelude.Partial.{Returns}
use bidflock.Models.OpenRtb.{BidCandidate}
use bidflock.Auction.Insertion.{insertion_sorter}
use bidflock.Bidding.Build.{default_config}
use bidflock.Bidding.Handler.{handle_bid}
use bidflock.Bidding.Example as Bidding
use bidflock.Simulator.Random.{Rng, Sources, IsRng, IsSources}
use bidflock.Simulator.Requests.{generate}
use bidflock.Simulator.WellFormed.{IsWellFormed, generate-IsWellFormed}
use bidflock.Simulator.Served.{IsServed, generate-IsServed}
use bidflock.Simulator.Stats.{
  Reached, bid, started, counted, timed, counts, answers, spawns, here, there, begins, steps,
  count_request, add_latency, no_stats, zeros,
}
use bidflock.Simulator.Counts.{IsCounted, Reached-IsCounted}
use bidflock.Simulator.Traffic.{Math, TrafficConfig, Wake, tick, run}
use bidflock.Simulator.Bursts.{IsEnded, run-IsEnded}
use bidflock.Simulator.Reporter.{percentiles, share}
use bidflock.Simulator.Percentiles.{separate, percentiles-separate}
use bidflock.Simulator.Quantiles.{IsOrderedBelow, percentiles-IsOrderedBelow}
use bidflock.Simulator.Funnel.{Published, simulate_funnel}
use bidflock.Simulator.Chain.{Adds, simulate_funnel-Adds}

abbrev half : Rng Fixed ℕ
half = record {
  float64 = λ w. (pos 500_000, w + 1);
  intn = λ n w. (0, w + 1);
  shuffle = λ xs w. (xs, w + 1);
}

half-IsRng : IsRng half
half-IsRng = record {
  float_range = λ w. (refl, refl);
  intn_lt = λ n w h. h;
  shuffle_perm = λ xs w. Permᴰ.refl xs;
}

abbrev sources : Sources Fixed
sources = record {
  World = ℕ;
  user_rng = half;
  rng = half;
  new_uuid = λ w. ("uuid", w + 1);
  now = λ w. (62_135_596_800_000_000_000, w + 1);
}

sources-IsSources : IsSources sources
sources-IsSources = record { users = half-IsRng; requests = half-IsRng; uuid = λ w. refl }

generate-IsWellFormed_example : Returns IsWellFormed (generate sources 0)
generate-IsWellFormed_example = generate-IsWellFormed sources sources-IsSources 0

generate-IsServed_example :
    Returns
      (λ req.
        IsServed
          (handle_bid Bidding.peers insertion_sorter default_config (some req) Bidding.start).0)
      (generate sources 0)
generate-IsServed_example =
    generate-IsServed sources sources-IsSources Bidding.peers insertion_sorter default_config
      Bidding.ledger 0 Bidding.start

-- Two goroutines: one has its answer, the other has counted itself.
two_started : Reached (started ∷ started ∷ []) no_stats
two_started = steps (steps begins spawns) spawns

two_running :
    Reached (counted ∷ timed 7 bid ∷ []) (count_request (add_latency 7 (count_request no_stats)))
two_running =
    steps (steps (steps two_started (there (here counts))) (there (here answers))) (here counts)

Reached-IsCounted_example :
    IsCounted (counted ∷ timed 7 bid ∷ []) (count_request (add_latency 7 (count_request no_stats)))
Reached-IsCounted_example = Reached-IsCounted two_running

abbrev math : Math Fixed
math = record {
  of_int = λ n. pos (pos_part n * 1_000_000);
  to_int = λ x. pos (pos_part x / 1_000_000);
  seconds = λ d. pos (d / 1_000);
  sin = λ x. x;
  abs = λ x. x;
  pi = pos 3_141_593;
}

abbrev spike : TrafficConfig
spike = record { target_qps = pos 100; duration = 3_000_000_000; pattern = "spike" }

abbrev ticks : List Wake
ticks = tick 1_000_000_000 ∷ tick 2_000_000_000 ∷ tick 3_000_000_000 ∷ tick 4_000_000_000 ∷ []

run-IsEnded_example : IsEnded (run math spike 0 ticks).outcome
run-IsEnded_example = run-IsEnded math spike 0 ticks (omega arith) (omega arith)

abbrev histogram : List ℕ
histogram = 40 ∷ 50 ∷ 5 ∷ 5 ∷ []

percentiles-separate_example : percentiles fixed_float histogram ≡ separate fixed_float histogram
percentiles-separate_example =
    percentiles-separate Fixed-IsOrdered histogram ((refl, (refl, tt)), ((refl, tt), (tt, tt)))

whole_ratio : (m : ℕ) → 0 < m → fixed_float.lit 99 2 ≼ fixed_float.div (pos m) (pos m)
whole_ratio m h =
    let enough : 990_000 ≤ 1_000_000 * m / (m + 0) =
      (le-div_iff_mul-le {k = m + 0} (omega (arith, h))).1 (omega arith) in
    let none_down : 0 / (m + 0) ≡ 0 = zero-div (m + 0) in rw none_down (ground (arith, enough))

whole_share : (n : ℕ) → 0 < n → fixed_float.lit 99 2 ≼ share n n
whole_share n h = whole_ratio (n * 1_000_000 / 1) (omega (arith, h))

percentiles-IsOrderedBelow_example : IsOrderedBelow 98 (percentiles fixed_float (7 ∷ zeros 49))
percentiles-IsOrderedBelow_example =
    percentiles-IsOrderedBelow Fixed-IsOrdered 7 (zeros 49) refl
      ((refl, (refl, tt)), ((refl, tt), (tt, tt))) whole_share

abbrev winner : BidCandidate Fixed
winner = record {
  campaign_id = "a";
  ad_id = "ad";
  raw_bid = dollars 500;
  effective_bid = dollars 350;
  clearing_price = dollars 280;
  predicted_ctr = dollars 2;
  budget_ok = true;
}

abbrev quiet : Published Fixed ℕ
quiet = record { world = 0; calls = [] }

simulate_funnel-Adds_example :
    Adds sources winner "r1" "u" "ssp" [] (simulate_funnel sources winner "r1" "u" "ssp" quiet).1
simulate_funnel-Adds_example = simulate_funnel-Adds sources winner "r1" "u" "ssp" quiet
