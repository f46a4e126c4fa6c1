-- ===== src/Auction.antt =====
-- internal/bidding/auction.go. `sort.Slice` is not stable, so it is a parameter: any function that
-- rearranges its list and leaves no element before one that should precede it.
mod Order
pub mod Outcome
pub mod Insertion
mod Tests
use mathlib.Core.List.{Permᴰ}
use bidflock.Prelude.{
  ℕ, ◌≡◌, Bool, false, ◌&&◌, List, [], ◌∷◌, Option, none, some, All, is_empty, ◌==◌, if◌then◌else◌,
}
use bidflock.Prelude.Float.{Float64, IsNumber}
use bidflock.Models.OpenRtb.{BidCandidate}

abbrev pub AuctionType : Type 0
AuctionType = ℕ

abbrev pub first_price : AuctionType
first_price = 1

abbrev pub second_price : AuctionType
second_price = 2

module _ {F : Type 0} ⦃f : Float64 F⦄ where
  open f use {lt, le}

  abbrev pub HasNumber : BidCandidate F → Type 0
  HasNumber c = IsNumber c.effective_bid

  -- The `less` that `RunAuction` hands to `sort.Slice`.
  abbrev pub bids_more : BidCandidate F → BidCandidate F → Bool
  bids_more c d = lt d.effective_bid c.effective_bid

  abbrev pub IsDescending : List (BidCandidate F) → Type 0
  IsDescending [] = Unit
  IsDescending (c ∷ cs) = All (λ d. bids_more d c ≡ false) cs × IsDescending cs

-- What sort.Slice promises for this `less`, which is a strict weak order on numbers.
pub record Sorter (F : Type 0) ⦃f : Float64 F⦄ : Type 0 where
  pub sort : List (BidCandidate F) → List (BidCandidate F)
  pub sort_perm : (cs : List (BidCandidate F)) → Permᴰ cs (sort cs)
  pub sort_descending : (cs : List (BidCandidate F)) → All HasNumber cs → IsDescending (sort cs)

module _ {F : Type 0} ⦃f : Float64 F⦄ where
  open f use {lt, le}

  -- The test of the loop that collects `eligible`.
  abbrev pub is_eligible : F → BidCandidate F → Bool
  is_eligible floor c = c.budget_ok && le floor c.effective_bid

  unfoldable pub eligible : F → List (BidCandidate F) → List (BidCandidate F)
  eligible floor [] = []
  eligible floor (c ∷ cs) = if is_eligible floor c then c ∷ eligible floor cs else eligible floor cs

  -- The price of the second candidate, or the floor if there is one bidder.
  abbrev pub runner_up_price : F → List (BidCandidate F) → F
  runner_up_price floor [] = floor
  runner_up_price floor (d ∷ _) = d.effective_bid

  -- The switch on the auction type; another type leaves the candidate's own field.
  abbrev pub auction_price : AuctionType → F → BidCandidate F → List (BidCandidate F) → F
  auction_price kind floor c rest =
      if kind == second_price
      then runner_up_price floor rest
      else if kind == first_price
      then c.effective_bid
      else c.clearing_price

  abbrev pub enforce_floor : F → F → F
  enforce_floor floor price = if lt price floor then floor else price

  -- The winner is the first of the sorted candidates, with its price set.
  unfoldable pub award : AuctionType → F → List (BidCandidate F) → Option (BidCandidate F)
  award kind floor [] = none
  award kind floor (c ∷ rest) =
      some (record c { clearing_price = enforce_floor floor (auction_price kind floor c rest) })

  -- `RunAuction`: `none` is `(nil, true)`.
  unfoldable pub run_auction :
      Sorter F → List (BidCandidate F) → AuctionType → F → Option (BidCandidate F)
  run_auction sorter candidates kind floor =
      let chosen = eligible floor candidates in
      if is_empty chosen then none else award kind floor (sorter.sort chosen)
