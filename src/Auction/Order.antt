-- ===== src/Auction/Order.antt =====
-- What the sorted list of eligible candidates holds: the same candidates, the best one first.
use mathlib.Core.List.{Permᴰ, Memᴰ}
use bidflock.Prelude.{
  ◌≡◌, refl, ◌∙◌, inl, inr, true, false, is_empty, ◌↔◌, Bool-cases, List, [], ◌∷◌, All, All-map_of,
  arith,
}
use bidflock.Prelude.Float.{Float64, ◌≼◌, IsOrdered}
use bidflock.Models.OpenRtb.{BidCandidate}
use bidflock.Auction.{HasNumber, bids_more, is_eligible, eligible}

-- A rearranged list has the same elements.
pub All-perm {ℓ κ} :
    {A : Type ℓ} (P : A → Type κ) {xs ys : List A} → Permᴰ xs ys → All P xs → All P ys
All-perm P Permᴰ.nil h = h
All-perm P (Permᴰ.cons e p) h = (rw (← e) h.0, All-perm P p h.1)
All-perm P (Permᴰ.swap e d) h = (rw (← d) h.1.0, (rw (← e) h.0, h.1.1))
All-perm P (Permᴰ.trans p q) h = All-perm P q (All-perm P p h)

pub is_empty-perm {ℓ} : {A : Type ℓ} {xs ys : List A} → Permᴰ xs ys → is_empty xs ≡ is_empty ys
is_empty-perm Permᴰ.nil = refl
is_empty-perm (Permᴰ.cons e p) = refl
is_empty-perm (Permᴰ.swap e d) = refl
is_empty-perm (Permᴰ.trans p q) = is_empty-perm p ∙ is_empty-perm q

pub All-mem {ℓ κ} : {A : Type ℓ} (P : A → Type κ) {a : A} {xs : List A} → Memᴰ a xs → All P xs → P a
All-mem P (Memᴰ.head e) h = rw e h.0
All-mem P (Memᴰ.tail m) h = All-mem P m h.1

All-Memᴰ {ℓ} : {A : Type ℓ} (xs : List A) → All (λ a. Memᴰ a xs) xs
All-Memᴰ [] = tt
All-Memᴰ (x ∷ xs) =
    (Memᴰ.head refl, All-map_of _ (λ a. Memᴰ a (x ∷ xs)) xs (λ a m. Memᴰ.tail m) (All-Memᴰ xs))

module _ {F : Type 0} ⦃f : Float64 F⦄ where
  pub eligible-All :
      (floor : F) (cs : List (BidCandidate F))
      → All (λ c. is_eligible floor c ≡ true) (eligible floor cs)
  unfolding eligible
  eligible-All floor [] = tt
  eligible-All floor (c ∷ cs) = ground (arith, eligible-All floor cs)

  -- Every eligible candidate is one of the candidates.
  pub eligible-Mem :
      (floor : F) (cs : List (BidCandidate F)) → All (λ c. Memᴰ c cs) (eligible floor cs)
  unfolding eligible
  eligible-Mem floor [] = tt
  eligible-Mem floor (c ∷ cs) =
      let older =
        All-map_of (λ d. Memᴰ d cs) (λ d. Memᴰ d (c ∷ cs)) (eligible floor cs) (λ d m. Memᴰ.tail m)
          (eligible-Mem floor cs) in
      let here : Memᴰ c (c ∷ cs) = Memᴰ.head refl in
      elim (Bool-cases (is_eligible floor c)) [ inl e ↦ rw e (here, older) | inr e ↦ rw e older ]

  -- What holds of all eligible candidates holds of each candidate that passes the test.
  pub candidates_of_eligible :
      (P : BidCandidate F → Type 0) (floor : F) (cs : List (BidCandidate F))
      → All P (eligible floor cs)
      → All (λ c. is_eligible floor c ≡ true → P c) cs
  unfolding eligible
  candidates_of_eligible P floor [] h = tt
  candidates_of_eligible P floor (c ∷ cs) h = elim (Bool-cases (is_eligible floor c)) [
    | inl e ↦ let k = rw e at h in ((λ _. k.0), candidates_of_eligible P floor cs k.1)
    | inr e ↦ ((λ t. absurd (cc)), candidates_of_eligible P floor cs (rw e at h))
  ]

  -- No candidate is eligible exactly when each fails the test.
  pub eligible-nil_iff :
      (floor : F) (cs : List (BidCandidate F))
      → (is_empty (eligible floor cs) ≡ true) ↔ All (λ c. is_eligible floor c ≡ false) cs
  unfolding eligible
  eligible-nil_iff floor [] = (λ _. tt, λ _. refl)
  eligible-nil_iff floor (c ∷ cs) = ground (arith, eligible-nil_iff floor cs)

  module _ (laws : IsOrdered F) where
    open laws use {numbers_of_le, lt-eq-not-le}

    pub eligible_numbers :
        (floor : F) (cs : List (BidCandidate F))
        → All (λ c. is_eligible floor c ≡ true) cs
        → All HasNumber cs
    eligible_numbers floor cs =
        All-map_of _ HasNumber cs (λ c h. (numbers_of_le floor c.effective_bid (ground arith)).1)

    -- The first candidate of a descending list bids at least as much as any other.
    pub first_best :
        (c : BidCandidate F) (rest : List (BidCandidate F))
        → All HasNumber (c ∷ rest)
        → All (λ d. bids_more d c ≡ false) rest
        → All (λ d. d.effective_bid ≼ c.effective_bid) rest
    first_best c [] n h = tt
    first_best c (d ∷ rest) n h = (
      ground (arith, lt-eq-not-le c.effective_bid d.effective_bid n.0 n.1.0),
      first_best c rest (n.0, n.1.1) h.1,
    )
