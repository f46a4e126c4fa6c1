-- ===== src/Simulator/Percentiles.antt =====
-- The one-pass percentiles of reporter.go against a search for each target, and their order.
use bidflock.Prelude.{
  ℕ, suc, ◌+◌, ◌*◌, ◌≡◌, refl, ap, ◌∙◌, false, List, [], ◌∷◌, ◌++◌, All, map, if◌then◌else◌,
  if-intro, ◌==◌, Bool-cases, inl, inr,
}
use bidflock.Prelude.Float.{Float64, IsOrdered, ◌≼◌}
use bidflock.Simulator.Stats.{sum}
use bidflock.Simulator.Reporter.{
  Percentiles, targets, share, reached_values, left, scan, percentiles, no_percentiles, results_of,
}

module _ {F : Type 0} ⦃f : Float64 F⦄ where
  open f use {lit, div, le}

  -- Twice the first index from `i` at which the running share reaches the target, or 0.
  unfoldable pub first_reach : ℕ → ℕ → ℕ → List ℕ → F → ℕ
  first_reach total c i [] t = 0
  first_reach total c i (count ∷ buckets) t =
      let later = first_reach total (c + count) (suc i) buckets t in
      if le t (share total (c + count)) then i * 2 else later

  -- Each target is at most all that follow.
  abbrev pub IsSorted : List F → Type 0
  IsSorted [] = Unit
  IsSorted (t ∷ ts) = All (λ u. t ≼ u) ts × IsSorted ts

  module _ (order : IsOrdered F) where
    open order use {le_trans}

    map-cong : (g h : F → ℕ) (ts : List F) → All (λ t. g t ≡ h t) ts → map g ts ≡ map h ts
    map-cong g h [] _ = refl
    map-cong g h (t ∷ ts) (e, es) = rw (e, map-cong g h ts es)

    -- A target above one that the share does not reach is not reached.
    pub out_of_reach : (t u r : F) → t ≼ u → le t r ≡ false → le u r ≡ false
    out_of_reach t u r below miss = elim (Bool-cases (le u r)) [
      | inl reached ↦ absurd (cc (le_trans t u r below reached, miss))
      | inr e ↦ e
    ]

    abbrev choose : F → ℕ → (F → ℕ) → F → ℕ
    choose r value next t = if le t r then value else next t

    none_chosen :
        (r : F) (value : ℕ) (next : F → ℕ) (t : F) (ts : List F)
        → All (λ u. t ≼ u) ts
        → le t r ≡ false
        → All (λ u. choose r value next u ≡ next u) ts
    none_chosen r value next t [] _ miss = tt
    none_chosen r value next t (u ∷ us) (below, h) miss =
        let e = out_of_reach t u r below miss in (rw e, none_chosen r value next t us h miss)

    -- The inner loop writes the value for the targets that it reaches.
    reached_values-choose :
        (r : F) (value : ℕ) (next : F → ℕ) (ts : List F)
        → IsSorted ts
        → reached_values r value ts ++ map next (left r ts) ≡ map (choose r value next) ts
    reached_values-choose r value next [] _ = refl
    reached_values-choose r value next (t ∷ ts) (below, h) = elim (Bool-cases (le t r)) [
      | inl reached ↦ rw (reached, reached_values-choose r value next ts h)
      | inr miss ↦
          let same =
            map-cong (choose r value next) next ts (none_chosen r value next t ts below miss) in
          rw (miss, same)
    ]

    left-IsSorted : (r : F) (ts : List F) → IsSorted ts → IsSorted (left r ts)
    left-IsSorted r [] _ = tt
    left-IsSorted r (t ∷ ts) (below, h) =
        if-intro IsSorted (le t r) (λ _. left-IsSorted r ts h) (λ _. (below, h))

    scan-first_reach :
        (total c i : ℕ) (ts : List F) (buckets : List ℕ)
        → IsSorted ts
        → scan total c i ts buckets ≡ map (first_reach total c i buckets) ts
    unfolding scan first_reach
    scan-first_reach total c i [] buckets h = refl
    scan-first_reach total c i (t ∷ ts) [] h = refl
    scan-first_reach total c i (t ∷ ts) (count ∷ buckets) h =
        let r = share total (c + count) in
        let next = first_reach total (c + count) (suc i) buckets in
        let rest =
          scan-first_reach total (c + count) (suc i) (left r (t ∷ ts)) buckets
            (left-IsSorted r (t ∷ ts) h) in
        ap (λ u. reached_values r (i * 2) (t ∷ ts) ++ u) rest
        ∙ reached_values-choose r (i * 2) next (t ∷ ts) h

-- Each percentile by a search of its own.
unfoldable pub separate : {F : Type 0} → Float64 F → List ℕ → Percentiles
separate f buckets =
    let at = first_reach ⦃f = f⦄ (sum buckets) 0 0 buckets in
    if sum buckets == 0
    then no_percentiles
    else record { p50 = at (f.lit 50 2); p95 = at (f.lit 95 2); p99 = at (f.lit 99 2) }

-- When 0.50, 0.95 and 0.99 compare in their order, the one pass over the histogram finds for each of
-- them what a search of its own finds: twice the first bucket at which the running share of the
-- requests reaches it.
pub percentiles-separate :
    {F : Type 0} ⦃f : Float64 F⦄ (order : IsOrdered F) (buckets : List ℕ)
    → IsSorted (targets {F = F})
    → percentiles f buckets ≡ separate f buckets
unfolding percentiles separate
percentiles-separate ⦃f⦄ order buckets h =
    ap (λ found. if sum buckets == 0 then no_percentiles else results_of found)
      (scan-first_reach order (sum buckets) 0 0 targets buckets h)
