-- ===== src/Auction/Insertion.antt =====
-- A sorter: insertion sort meets what is asked of `sort.Slice`.
use mathlib.Core.List.{Permᴰ}
use mathlib.Core.List.Permᴰ
use bidflock.Prelude.{
  ◌≡◌, refl, false, List, [], ◌∷◌, All, All-map_of, arith, Bool-cases, inl, inr, if◌then◌else◌,
}
use bidflock.Prelude.Fixed.{Fixed, fixed_float}
use bidflock.Models.OpenRtb.{BidCandidate}
use bidflock.Auction.{bids_more, IsDescending, Sorter}
use bidflock.Auction.Order.{All-perm}

insert : BidCandidate Fixed → List (BidCandidate Fixed) → List (BidCandidate Fixed)
insert c [] = c ∷ []
insert c (d ∷ ds) = if bids_more c d then c ∷ d ∷ ds else d ∷ insert c ds

unfoldable pub insertion_sort : List (BidCandidate Fixed) → List (BidCandidate Fixed)
unfolding insert
insertion_sort [] = []
insertion_sort (c ∷ cs) = insert c (insertion_sort cs)

insert-perm :
    (c : BidCandidate Fixed) (ds : List (BidCandidate Fixed)) → Permᴰ (c ∷ ds) (insert c ds)
unfolding insert
insert-perm c [] = Permᴰ.refl (c ∷ [])
insert-perm c (d ∷ ds) = elim (Bool-cases (bids_more c d)) [
  | inl e ↦ rw e (Permᴰ.refl (c ∷ d ∷ ds))
  | inr e ↦ rw e (Permᴰ.trans (Permᴰ.swap refl refl) (Permᴰ.cons refl (insert-perm c ds)))
]

pub sort-perm : (cs : List (BidCandidate Fixed)) → Permᴰ cs (insertion_sort cs)
unfolding insertion_sort
sort-perm [] = Permᴰ.nil
sort-perm (c ∷ cs) =
    Permᴰ.trans (Permᴰ.cons refl (sort-perm cs)) (insert-perm c (insertion_sort cs))

below :
    (c d : BidCandidate Fixed) (ds : List (BidCandidate Fixed))
    → bids_more d c ≡ false
    → All (λ e. bids_more e d ≡ false) ds
    → All (λ e. bids_more e c ≡ false) ds
below c d ds h = All-map_of _ (λ e. bids_more e c ≡ false) ds (λ e k. ground arith)

insert-IsDescending :
    (c : BidCandidate Fixed) (ds : List (BidCandidate Fixed))
    → IsDescending ds
    → IsDescending (insert c ds)
unfolding insert
insert-IsDescending c [] h = (tt, tt)
insert-IsDescending c (d ∷ ds) h = elim (Bool-cases (bids_more c d)) [
  | inl e ↦ rw e ((ground arith, below c d ds (ground arith) h.0), h)
  | inr e ↦ rw e (
    All-perm (λ k. bids_more k d ≡ false) (insert-perm c ds) (e, h.0),
    insert-IsDescending c ds h.1,
  )
]

pub sort-IsDescending : (cs : List (BidCandidate Fixed)) → IsDescending (insertion_sort cs)
unfolding insertion_sort
sort-IsDescending [] = tt
sort-IsDescending (c ∷ cs) = insert-IsDescending c (insertion_sort cs) (sort-IsDescending cs)

abbrev pub insertion_sorter : Sorter Fixed
insertion_sorter = record {
  sort = insertion_sort;
  sort_perm = sort-perm;
  sort_descending = λ cs _. sort-IsDescending cs;
}
