-- ===== src/Simulator/Seconds.antt =====
-- The results that `Run` of reporter.go collects, and the peak of `Summary`.
use bidflock.Prelude.{
  ℕ, suc, ◌+◌, ◌-◌, ◌≤◌, ◌≡◌, refl, ap, sym, ◌∙◌, inl, inr, false, List, [], ◌∷◌, ◌++◌, All, map,
  length, if-intro, arith, Bool-cases, append_assoc, append_nil,
}
use bidflock.Prelude.Int.{pos, sub_ℕ}
use bidflock.Prelude.Float.{Float64, IsOrdered, IsNumber, ◌≼◌}
use bidflock.Simulator.Stats.{sum}
use bidflock.Simulator.Traffic.{Math}
use bidflock.Simulator.Bursts.{up_from}
use bidflock.Simulator.Reporter.{
  Reporter, Reading, SecondStats, new_reporter, second_stats, report, report_all, peak_from,
}

-- No reading has fewer requests than the one before.
abbrev pub IsRising : ℕ → List Reading → Type 0
IsRising prev [] = Unit
IsRising prev (now ∷ later) = (prev ≤ now.requests) × IsRising now.requests later

abbrev pub last_requests : ℕ → List Reading → ℕ
last_requests prev [] = prev
last_requests prev (now ∷ later) = last_requests now.requests later

module _ {F : Type 0} ⦃f : Float64 F⦄ where
  module _ (math : Math F) where
    -- The figures of the readings, each from the requests of the one before.
    abbrev rows_from : ℕ → ℕ → List Reading → List (SecondStats F)
    rows_from second prev [] = []
    rows_from second prev (now ∷ later) =
        second_stats math now (record { prev_requests = prev; second = second; results = [] })
        ∷ rows_from (second + 1) now.requests later

    report_all-append :
        (later : List Reading) (r : Reporter F)
        → (report_all math later r).results ≡ r.results ++ rows_from r.second r.prev_requests later
    unfolding report_all report
    report_all-append [] r = sym (append_nil r.results)
    report_all-append (now ∷ later) r =
        report_all-append later (report math now r)
        ∙ append_assoc r.results (second_stats math now r ∷ [])
            (rows_from (r.second + 1) now.requests later)

    rows_from-second :
        (k prev : ℕ) (later : List Reading)
        → map (λ s. s.second) (rows_from k prev later) ≡ up_from k (length later)
    rows_from-second k prev [] = refl
    rows_from-second k prev (now ∷ later) =
        ap (λ t. k ∷ t)
          (rows_from-second (k + 1) now.requests later
            ∙ ap (λ j. up_from j (length later)) {x = k + 1} {y = suc k} (omega arith))

    -- The rates of the rows are those of counts that add up to the requests since `prev`.
    abbrev pub AddsUp : ℕ → ℕ → List (SecondStats F) → Type 0
    AddsUp prev final rows =
        (counts : List ℕ) × (map (λ s. s.qps) rows ≡ map (λ n. math.of_int (pos n)) counts)
        × (prev + sum counts ≡ final)

    rows_from-AddsUp :
        (k prev : ℕ) (later : List Reading)
        → IsRising prev later
        → AddsUp prev (last_requests prev later) (rows_from k prev later)
    rows_from-AddsUp k prev [] h = ([], refl, omega arith)
    rows_from-AddsUp k prev (now ∷ later) (up, h) =
        let (counts, same, total) = rows_from-AddsUp (k + 1) now.requests later h in
        let exact : sub_ℕ now.requests prev ≡ pos (now.requests - prev) = ground arith in
        ((now.requests - prev) ∷ counts, rw (exact, same), omega (arith, total, up))

    -- The reporter that starts fresh and then reads counters that never fall has one result for each
    -- reading, for the seconds 0, 1, 2, ... in order, and their rates are those of counts that add up
    -- to the requests of the last reading: no request is counted in two seconds or in none.
    pub report_all_lem :
        (readings : List Reading)
        → IsRising 0 readings
        → let results = (report_all math readings new_reporter).results in
          (map (λ s. s.second) results ≡ up_from 0 (length readings))
          × AddsUp 0 (last_requests 0 readings) results
    report_all_lem readings h =
        rw report_all-append (rows_from-second 0 0 readings, rows_from-AddsUp 0 0 readings h)

  module _ (order : IsOrdered F) where
    open order use {le_trans, le_total, lt-le, lt-eq-not-le}

    abbrev pub IsPeak : F → List (SecondStats F) → F → Type 0
    IsPeak start rows top = (start ≼ top) × All (λ s. s.qps ≼ top) rows

    le_of_not_lt : (x y : F) → IsNumber x → IsNumber y → f.lt x y ≡ false → y ≼ x
    le_of_not_lt x y n m h = elim (Bool-cases (f.le y x)) [
      | inl e ↦ e
      | inr e ↦ absurd (cc (lt-eq-not-le x y n m, e, h))
    ]

    -- The peak is a number that is at least each rate and at least the start.
    pub peak_from-IsPeak :
        (start : F) (rows : List (SecondStats F))
        → IsNumber start
        → All (λ s. IsNumber s.qps) rows
        → IsPeak start rows (peak_from start rows)
    unfolding peak_from
    peak_from-IsPeak start [] n h = (n, tt)
    peak_from-IsPeak start (s ∷ rows) n (m, h) =
        if-intro (λ x. IsPeak start (s ∷ rows) (peak_from x rows)) (f.lt start s.qps)
          (λ up.
            let (top, all) = peak_from-IsPeak s.qps rows m h in
            (le_trans start s.qps _ (lt-le start s.qps up) top, (top, all)))
          (λ down.
            let (top, all) = peak_from-IsPeak start rows n h in
            (top, (le_trans s.qps start _ (le_of_not_lt start s.qps n m down) top, all)))
