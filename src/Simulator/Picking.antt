-- ===== src/Simulator/Picking.antt =====
-- The weighted choice of user_gen.go against its running sums.
use bidflock.Prelude.{
  ℕ, zero, suc, ◌+◌, ◌<◌, ◌≡◌, ◌⊎◌, inl, inr, true, false, Option, none, some, List, [], ◌∷◌, All,
  length, if-intro, arith, map, length-map, subst,
}
use bidflock.Prelude.Float.{Float64}
use bidflock.Prelude.Partial.{Total, skip-Total, pure-Total}
use bidflock.Simulator.Random.{Rng}
use bidflock.Simulator.Users.{reach_from, or_last, pick_index, pick_weighted_index, total_from}

module _ {F : Type 0} ⦃f : Float64 F⦄ where
  open f use {lit, add, le}

  -- The sums of the first one, two, ... weights, from `c`.
  abbrev pub running_sums : F → List F → List F
  running_sums c [] = []
  running_sums c (w ∷ ws) = add c w ∷ running_sums (add c w) ws

  -- Place `i` holds the first sum that is at least `r`.
  abbrev pub IsFirst : F → List F → ℕ → Type 0
  IsFirst r [] i = true ≡ false
  IsFirst r (s ∷ ss) zero = le r s ≡ true
  IsFirst r (s ∷ ss) (suc i) = (le r s ≡ false) × IsFirst r ss i

  abbrev Reaches : F → F → ℕ → List F → Option ℕ → Type 0
  Reaches r c k ws none = All (λ s. le r s ≡ false) (running_sums c ws)
  Reaches r c k ws (some j) =
      (i : ℕ) × ((j ≡ k + i) × ((i < length ws) × IsFirst r (running_sums c ws) i))

  Reaches-cons :
      (r c w : F) (k : ℕ) (ws : List F) (o : Option ℕ)
      → le r (add c w) ≡ false
      → Reaches r (add c w) (suc k) ws o
      → Reaches r c k (w ∷ ws) o
  Reaches-cons r c w k ws none e h = (e, h)
  Reaches-cons r c w k ws (some j) e (i, (at, (lt, first))) =
      (suc i, (omega (arith, at), (omega (arith, lt), (e, first))))

  reach_from-Reaches : (r c : F) (k : ℕ) (ws : List F) → Reaches r c k ws (reach_from r c k ws)
  unfolding reach_from
  reach_from-Reaches r c k [] = tt
  reach_from-Reaches r c k (w ∷ ws) =
      if-intro (Reaches r c k (w ∷ ws)) (le r (add c w)) (λ e. (0, (omega arith, (omega arith, e))))
        (λ e. Reaches-cons r c w k ws _ e (reach_from-Reaches r (add c w) (suc k) ws))

  -- The index is that of the first sum that reaches `r`, or the last one if none does.
  abbrev pub Picks : F → List F → ℕ → Type 0
  Picks r ws i =
      (i < length ws)
      × (IsFirst r (running_sums (lit 0 0) ws) i
          ⊎ (All (λ s. le r s ≡ false) (running_sums (lit 0 0) ws) × (i + 1 ≡ length ws)))

  or_last-Picks :
      (r w : F) (ws : List F) (o : Option ℕ)
      → Reaches r (lit 0 0) 0 (w ∷ ws) o
      → Picks r (w ∷ ws) (or_last (w ∷ ws) o)
  or_last-Picks r w ws none h = (omega arith, inr (h, omega arith))
  or_last-Picks r w ws (some j) (i, (at, (lt, first))) =
      let same : i ≡ j = omega (arith, at) in subst (Picks r (w ∷ ws)) same (lt, inl first)

  -- The weighted choice among at least one weight is in range. It picks the first place whose running
  -- sum of the weights reaches the drawn value, or the last place if rounding keeps every sum below.
  pub pick_index-Picks : (r w : F) (ws : List F) → Picks r (w ∷ ws) (pick_index r (w ∷ ws))
  unfolding pick_index
  pick_index-Picks r w ws = or_last-Picks r w ws _ (reach_from-Reaches r (lit 0 0) 0 (w ∷ ws))

  pub weighted-Total :
      {W A : Type 0} (g : Rng F W) (weight : A → F) (items : List A)
      → 0 < length items
      → Total (λ i. i < length items) (pick_weighted_index g (map weight items))
  unfolding pick_weighted_index
  weighted-Total g weight [] h = absurd (omega arith)
  weighted-Total g weight (x ∷ xs) h = skip-Total _ (λ u.
      let r = f.mul u (total_from (lit 0 0) (map weight (x ∷ xs))) in
      let picked = (pick_index-Picks r (weight x) (map weight xs)).0 in
      pure-Total _ (omega (arith, picked, length-map weight xs)))
