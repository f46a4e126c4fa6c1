-- ===== src/Simulator/Quantiles.antt =====
-- The order of the percentiles of reporter.go, and their range.
use bidflock.Prelude.{
  ℕ, suc, ◌+◌, ◌*◌, ◌≤◌, ◌<◌, ◌≡◌, sym, subst, false, List, [], ◌∷◌, length, if◌then◌else◌,
  if-intro, arith, ◌==◌, Bool-cases, inl, inr,
}
use bidflock.Prelude.Float.{Float64, IsOrdered, ◌≼◌}
use bidflock.Simulator.Stats.{sum, bucket_count}
use bidflock.Simulator.Reporter.{Percentiles, targets, share, percentiles}
use bidflock.Simulator.Percentiles.{first_reach, separate, IsSorted, percentiles-separate}

-- The percentiles are in order, and the last is inside the range of the buckets.
abbrev pub IsOrderedBelow : ℕ → Percentiles → Type 0
IsOrderedBelow high p = (p.p50 ≤ p.p95) × ((p.p95 ≤ p.p99) × (p.p99 ≤ high))

module _ {F : Type 0} ⦃f : Float64 F⦄ (order : IsOrdered F) where
  open f use {lit, div, le}

  abbrev InOrder : ℕ → ℕ → ℕ → ℕ → Type 0
  InOrder low a b high = (low ≤ a) × ((a ≤ b) × (b + 2 ≤ high))

  -- One bucket, whose share is `r`, before the rest of them.
  step-InOrder :
      (i len x y : ℕ) (t u r : F)
      → t ≼ u
      → (le u r ≡ false → InOrder ((i + 1) * 2) x y ((i + 1 + len) * 2))
      → InOrder
          (i * 2)
          (if le t r then i * 2 else x)
          (if le u r then i * 2 else y)
          ((i + suc len) * 2)
  step-InOrder i len x y t u r below rest = elim (Bool-cases (le u r)) [
    | inl reached ↦
        let first = order.le_trans t u r below reached in
        let both : InOrder (i * 2) (i * 2) (i * 2) ((i + suc len) * 2) =
          (omega arith, (omega arith, omega arith)) in
        rw (reached, first) both
    | inr miss ↦
        let (low, (mid, high)) = rest miss in
        let first : InOrder (i * 2) (i * 2) y ((i + suc len) * 2) =
          (omega arith, (omega (arith, low, mid), omega (arith, high))) in
        let second : InOrder (i * 2) x y ((i + suc len) * 2) =
          (omega (arith, low), (mid, omega (arith, high))) in
        if-intro (λ a. InOrder (i * 2) a (if le u r then i * 2 else y) ((i + suc len) * 2)) (le t r)
          (λ _. rw miss first) (λ _. rw miss second)
  ]

  -- Of two targets the lower is reached first, when the last share reaches the upper.
  first_reach-InOrder :
      (total c i : ℕ) (t u : F) (count : ℕ) (buckets : List ℕ)
      → t ≼ u
      → u ≼ share total (c + sum (count ∷ buckets))
      → InOrder
          (i * 2)
          (first_reach total c i (count ∷ buckets) t)
          (first_reach total c i (count ∷ buckets) u)
          ((i + suc (length buckets)) * 2)
  unfolding first_reach
  first_reach-InOrder total c i t u count [] below last =
      step-InOrder i 0 0 0 t u (share total (c + count)) below (λ miss.
        let whole : c + (count + 0) ≡ c + count = omega arith in
        let reached = subst (λ n. u ≼ share total n) whole last in absurd (cc (reached, miss)))
  first_reach-InOrder total c i t u count (d ∷ buckets) below last =
      step-InOrder i (suc (length buckets)) _ _ t u (share total (c + count)) below (λ _.
        let whole : c + sum (count ∷ d ∷ buckets) ≡ c + count + sum (d ∷ buckets) = omega arith in
        let further = subst (λ n. u ≼ share total n) whole last in
        let rest = first_reach-InOrder total (c + count) (suc i) t u d buckets below further in
        omega (arith, rest.0, rest.1.0, rest.1.1))

  separate-IsOrderedBelow :
      (count : ℕ) (buckets : List ℕ)
      → IsSorted (targets {F = F})
      → ((n : ℕ) → 0 < n → lit 99 2 ≼ share n n)
      → IsOrderedBelow (length buckets * 2) (separate f (count ∷ buckets))
  unfolding separate
  separate-IsOrderedBelow count buckets ((h, (_, _)), ((k, _), _)) whole =
      if-intro (IsOrderedBelow (length buckets * 2)) (sum (count ∷ buckets) == 0)
        (λ _. (omega arith, (omega arith, omega arith)))
        (λ some.
          let n = sum (count ∷ buckets) in
          let last : lit 99 2 ≼ share n (0 + n) =
            subst (λ m. lit 99 2 ≼ share n m) (zero_add n) (whole n (ground arith)) in
          let upper = first_reach-InOrder n 0 0 (lit 95 2) (lit 99 2) count buckets k last in
          let before = order.le_trans _ _ _ k last in
          let lower = first_reach-InOrder n 0 0 (lit 50 2) (lit 95 2) count buckets h before in
          (lower.1.0, (upper.1.0, omega (arith, upper.1.1))))
    where
      zero_add : (n : ℕ) → n ≡ 0 + n
      zero_add n = omega arith

  -- When 0.50, 0.95 and 0.99 compare in their order and 0.99 is at most n / n, the percentiles of a
  -- histogram of fifty buckets are in order, P50, P95, P99, and at most 98 milliseconds.
  pub percentiles-IsOrderedBelow :
      (count : ℕ) (buckets : List ℕ)
      → suc (length buckets) ≡ bucket_count
      → IsSorted (targets {F = F})
      → ((n : ℕ) → 0 < n → lit 99 2 ≼ share n n)
      → IsOrderedBelow 98 (percentiles f (count ∷ buckets))
  percentiles-IsOrderedBelow count buckets size h whole =
      let (a, (b, c)) = separate-IsOrderedBelow count buckets h whole in
      subst (IsOrderedBelow 98) (sym (percentiles-separate order (count ∷ buckets) h))
        (a, (b, omega (arith, c, size)))
