-- ===== src/Simulator/Answered.antt =====
-- The counters of traffic.go when every request has its answer.
use bidflock.Prelude.{◌+◌, ◌≡◌, refl, List, [], ◌∷◌, All, length, true, false, arith}
use bidflock.Simulator.Stats.{
  Stats, Phase, Reached, started, counted, timed, sorted, finished, failed, bid, no_bid, sum,
}
use bidflock.Simulator.Counts.{
  carried, requested, bucketed, closed, is_failed, is_bid, is_no_bid, Reached-IsCounted,
}

abbrev pub IsFinished : Phase → Type 0
IsFinished started = true ≡ false
IsFinished counted = true ≡ false
IsFinished (timed _ _) = true ≡ false
IsFinished (sorted _ _) = true ≡ false
IsFinished (finished _ _) = Unit

each_answered :
    (ps : List Phase)
    → All IsFinished ps
    → (carried requested ps ≡ length ps)
      × ((carried bucketed ps ≡ length ps)
          × (carried (closed is_bid) ps
                + carried (closed is_no_bid) ps
                + carried (closed is_failed) ps
              ≡ length ps))
each_answered [] _ = (refl, (refl, refl))
each_answered (started ∷ ps) (h, _) = absurd (cc)
each_answered (counted ∷ ps) (h, _) = absurd (cc)
each_answered (timed _ _ ∷ ps) (h, _) = absurd (cc)
each_answered (sorted _ _ ∷ ps) (h, _) = absurd (cc)
each_answered (finished ms failed ∷ ps) (_, h) =
    let (a, (b, c)) = each_answered ps h in (omega arith, (omega arith, omega arith))
each_answered (finished ms bid ∷ ps) (_, h) =
    let (a, (b, c)) = each_answered ps h in (omega arith, (omega arith, omega arith))
each_answered (finished ms no_bid ∷ ps) (_, h) =
    let (a, (b, c)) = each_answered ps h in (omega arith, (omega arith, omega arith))

-- When every goroutine is through, the requests, the entries of the buckets, and the bids, no bids and
-- errors together are each as many as the goroutines.
requests_accounted :
    {ps : List Phase} {st : Stats}
    → Reached ps st
    → All IsFinished ps
    → (st.total_requests ≡ length ps)
      × ((sum st.latency_buckets ≡ length ps)
          × (st.total_bids + st.total_no_bids + st.total_errors ≡ length ps))
requests_accounted {ps} r done =
    let c = Reached-IsCounted r in
    let (a, (b, d)) = each_answered ps done in
    (
      omega (arith, c.requests),
      (omega (arith, c.buckets), omega (arith, c.bids, c.no_bids, c.errors)),
    )
