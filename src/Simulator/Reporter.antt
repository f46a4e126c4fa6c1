-- ===== src/Simulator/Reporter.antt =====
-- internal/simulator/reporter.go: the figures of each second, the percentiles and the summary. What
-- it prints and the files that it creates are left out; a CSV file is its rows.
use bidflock.Prelude.{
  ℕ, suc, ◌+◌, ◌*◌, ◌/◌, List, [], ◌∷◌, ◌++◌, String, get_or, ltb, ◌==◌, if◌then◌else◌, map,
}
use bidflock.Prelude.Int.{sub_ℕ}
use bidflock.Prelude.Float.{Float64}
use bidflock.Simulator.Stats.{Stats, sum}
use bidflock.Simulator.Traffic.{Math}

pub record Percentiles : Type 0 where
  pub p50 : ℕ
  pub p95 : ℕ
  pub p99 : ℕ

pub record SecondStats (F : Type 0) : Type 0 where
  pub second : ℕ
  pub qps : F
  pub bid_rate : F
  pub error_rate : F
  pub p50_ms : ℕ
  pub p95_ms : ℕ
  pub p99_ms : ℕ

-- The variables of `Run`, with the results.
pub record Reporter (F : Type 0) : Type 0 where
  pub prev_requests : ℕ
  pub second : ℕ
  pub results : List (SecondStats F)

-- What `Run` loads on a tick, one counter after the other.
pub record Reading : Type 0 where
  pub requests : ℕ
  pub bids : ℕ
  pub errors : ℕ
  pub buckets : List ℕ

abbrev pub no_percentiles : Percentiles
no_percentiles = record { p50 = 0; p95 = 0; p99 = 0 }

-- The three entries of `results`.
abbrev pub results_of : List ℕ → Percentiles
results_of found = record { p50 = get_or 0 found 0; p95 = get_or 0 found 1; p99 = get_or 0 found 2 }

abbrev pub new_reporter : {F : Type 0} → Reporter F
new_reporter = record { prev_requests = 0; second = 0; results = [] }

abbrev pub csv_header : List String
csv_header = "second" ∷ "qps" ∷ "bid_rate" ∷ "error_rate" ∷ "p50_ms" ∷ "p95_ms" ∷ "p99_ms" ∷ []

abbrev pub avg_latency : ℕ → ℕ → ℕ
avg_latency total_latency total = if ltb 0 total then total_latency / total else 0

-- The figures of `Summary` that do not come from the clock.
pub record Figures (F : Type 0) : Type 0 where
  pub won_rate : F
  pub no_bid_rate : F
  pub error_rate : F
  pub peak_qps : F
  pub latency : ℕ
  pub p : Percentiles

module _ {F : Type 0} ⦃f : Float64 F⦄ where
  open f use {lit, div, le}

  abbrev pub targets : List F
  targets = lit 50 2 ∷ lit 95 2 ∷ lit 99 2 ∷ []

  abbrev pub share : ℕ → ℕ → F
  share total cumulative = div (lit cumulative 0) (lit total 0)

  -- The inner loop of `percentiles`: what it writes, and the targets from `ti` on that it leaves.
  abbrev pub reached_values : F → ℕ → List F → List ℕ
  reached_values r value [] = []
  reached_values r value (t ∷ ts) =
      let rest = reached_values r value ts in if le t r then value ∷ rest else []

  abbrev pub left : F → List F → List F
  left r [] = []
  left r (t ∷ ts) = let rest = left r ts in if le t r then rest else t ∷ ts

  -- The outer loop from bucket `i` on, with the targets from `ti` on; it ends when none is left, and
  -- what it does not write stays 0.
  unfoldable pub scan : ℕ → ℕ → ℕ → List F → List ℕ → List ℕ
  scan total cumulative i [] buckets = []
  scan total cumulative i (t ∷ ts) [] = map (λ _. 0) (t ∷ ts)
  scan total cumulative i (t ∷ ts) (count ∷ buckets) =
      let r = share total (cumulative + count) in
      reached_values r (i * 2) (t ∷ ts)
      ++ scan total (cumulative + count) (suc i) (left r (t ∷ ts)) buckets

unfoldable pub percentiles : {F : Type 0} → Float64 F → List ℕ → Percentiles
unfolding scan
percentiles f buckets =
    let total = sum buckets in
    if total == 0
    then no_percentiles
    else results_of (scan ⦃f = f⦄ total 0 0 (targets ⦃f = f⦄) buckets)

module _ {F : Type 0} ⦃f : Float64 F⦄ where
  open f use {lit, mul, div, lt}

  unfoldable pub pct : ℕ → ℕ → F
  pct part total = if total == 0 then lit 0 0 else mul (div (lit part 0) (lit total 0)) (lit 100 0)

  -- The rates of `Run`.
  abbrev pub rate : ℕ → ℕ → F
  rate part total =
      if ltb 0 total then mul (div (lit part 0) (lit total 0)) (lit 100 0) else lit 0 0

  unfoldable pub peak_from : F → List (SecondStats F) → F
  peak_from peak [] = peak
  peak_from peak (s ∷ rest) = peak_from (if lt peak s.qps then s.qps else peak) rest

  unfoldable pub summary : Stats → Reporter F → Figures F
  unfolding percentiles pct peak_from
  summary st r = record {
    won_rate = pct st.total_bids st.total_requests;
    no_bid_rate = pct st.total_no_bids st.total_requests;
    error_rate = pct st.total_errors st.total_requests;
    peak_qps = peak_from (lit 0 0) r.results;
    latency = avg_latency st.total_latency_ms st.total_requests;
    p = percentiles f st.latency_buckets;
  }

  module _ (math : Math F) where
    abbrev pub second_stats : Reading → Reporter F → SecondStats F
    second_stats now r =
        let p = percentiles f now.buckets in
        record {
          second = r.second;
          qps = math.of_int (sub_ℕ now.requests r.prev_requests);
          bid_rate = rate now.bids now.requests;
          error_rate = rate now.errors now.requests;
          p50_ms = p.p50;
          p95_ms = p.p95;
          p99_ms = p.p99;
        }

    -- A tick of `Run`.
    unfoldable pub report : Reading → Reporter F → Reporter F
    unfolding percentiles
    report now r = record {
      prev_requests = now.requests;
      second = r.second + 1;
      results = r.results ++ (second_stats now r ∷ []);
    }

    unfoldable pub report_all : List Reading → Reporter F → Reporter F
    unfolding report
    report_all [] r = r
    report_all (now ∷ later) r = report_all later (report now r)

  -- The rows of `SaveCSV`, for the formats `%d`, `%.1f` and `%.2f`.
  abbrev pub csv_row : (ℕ → String) → (ℕ → F → String) → SecondStats F → List String
  csv_row show_int show_fixed s =
      show_int s.second
      ∷ show_fixed 1 s.qps
      ∷ show_fixed 2 s.bid_rate
      ∷ show_fixed 2 s.error_rate
      ∷ show_int s.p50_ms
      ∷ show_int s.p95_ms
      ∷ show_int s.p99_ms
      ∷ []

  unfoldable pub save_csv :
      (ℕ → String) → (ℕ → F → String) → List (SecondStats F) → List (List String)
  save_csv show_int show_fixed results = csv_header ∷ map (csv_row show_int show_fixed) results
