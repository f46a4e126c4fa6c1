-- ===== src/Auction/Outcome.antt =====
-- What `RunAuction` returns: who wins, and at what price.
use mathlib.Core.List.{Permᴰ, Memᴰ}
use mathlib.Core.List.Permᴰ
use bidflock.Prelude.{
  ◌≡◌, refl, sym, ap, subst, ◌∙◌, ◌↔◌, ◌⊎◌, inl, inr, true, false, List, [], ◌∷◌, none, some, map,
  All, is_empty, arith, Bool-cases,
}
use bidflock.Prelude.Float.{Float64, ◌≼◌, IsOrdered}
use bidflock.Models.OpenRtb.{BidCandidate}
use bidflock.Auction.{
  AuctionType, first_price, second_price, HasNumber, IsDescending, Sorter, is_eligible, eligible,
  auction_price, enforce_floor, award, run_auction,
}
use bidflock.Auction.Order.{
  All-perm, eligible-All, eligible-Mem, candidates_of_eligible, eligible-nil_iff, eligible_numbers,
  first_best, is_empty-perm,
}

module _ {F : Type 0} ⦃f : Float64 F⦄ where
  -- The winner `w` is the candidate `c` with a price set; `rest` are the other eligible candidates,
  -- the runner-up first.
  pub record IsWinner (kind : AuctionType) (floor : F) (cs : List (BidCandidate F))
      (c : BidCandidate F) (rest : List (BidCandidate F)) (w : BidCandidate F) : Type 0 where
    pub same : Permᴰ (eligible floor cs) (c ∷ rest)
    pub passed : All (λ d. is_eligible floor d ≡ true) (c ∷ rest)
    pub ordered : IsDescending (c ∷ rest)
    pub priced :
        w ≡ record c { clearing_price = enforce_floor floor (auction_price kind floor c rest) }

module _ {F : Type 0} ⦃f : Float64 F⦄ (laws : IsOrdered F) (sorter : Sorter F) where
  open laws use {numbers_of_le, le_trans, le_total, lt-eq-not-le}

  award-IsWinner :
      (kind : AuctionType) (floor : F) (cs sorted : List (BidCandidate F)) {w : BidCandidate F}
      → Permᴰ (eligible floor cs) sorted
      → IsDescending sorted
      → award kind floor sorted ≡ some w
      → (c : BidCandidate F) × (rest : List (BidCandidate F)) × IsWinner kind floor cs c rest w
  unfolding award
  award-IsWinner kind floor cs [] p d e = cc
  award-IsWinner kind floor cs (c ∷ rest) p d e = (
    c,
    rest,
    record { same = p; passed = All-perm _ p (eligible-All floor cs); ordered = d; priced = cc },
  )

  pub run_auction-IsWinner :
      (kind : AuctionType) (floor : F) (cs : List (BidCandidate F)) {w : BidCandidate F}
      → run_auction sorter cs kind floor ≡ some w
      → (c : BidCandidate F) × (rest : List (BidCandidate F)) × IsWinner kind floor cs c rest w
  unfolding run_auction
  run_auction-IsWinner kind floor cs e = elim (Bool-cases (is_empty (eligible floor cs))) [
    | inl t ↦ absurd (cc (rw t at e))
    | inr t ↦
        let chosen = eligible floor cs in
        award-IsWinner kind floor cs (sorter.sort chosen) (sorter.sort_perm chosen)
          (sorter.sort_descending chosen
            (eligible_numbers laws floor chosen (eligible-All floor cs)))
          (rw t at e)
  ]

  award-none :
      (kind : AuctionType) (floor : F) (sorted : List (BidCandidate F))
      → award kind floor sorted ≡ none
      → is_empty sorted ≡ true
  unfolding award
  award-none kind floor [] e = refl
  award-none kind floor (c ∷ rest) e = cc

  -- The auction has no winner exactly when no candidate has its budget confirmed and bids at least
  -- the floor.
  pub run_auction-none_iff :
      (kind : AuctionType) (floor : F) (cs : List (BidCandidate F))
      → (run_auction sorter cs kind floor ≡ none) ↔ All (λ c. is_eligible floor c ≡ false) cs
  unfolding run_auction
  run_auction-none_iff kind floor cs =
      let chosen = eligible floor cs in
      let (only, back) = eligible-nil_iff floor cs in
      (
        ground (
          arith,
          only,
          award-none kind floor (sorter.sort chosen),
          is_empty-perm (sorter.sort_perm chosen),
        ),
        λ h. rw (back h),
      )

  enforce_floor_id : (floor price : F) → floor ≼ price → enforce_floor floor price ≡ price
  enforce_floor_id floor price h =
      let (n, m) = numbers_of_le floor price h in ground (arith, lt-eq-not-le price floor m n)

  module _ {kind : AuctionType} {floor : F} {cs : List (BidCandidate F)} {c : BidCandidate F}
      {rest : List (BidCandidate F)} {w : BidCandidate F}
      (h : IsWinner kind floor cs c rest w) where
    numbers : All HasNumber (c ∷ rest)
    numbers = eligible_numbers laws floor (c ∷ rest) h.passed

    IsWinner-best : All (λ d. d.effective_bid ≼ c.effective_bid) (c ∷ rest)
    IsWinner-best = (numbers.0, first_best laws c rest numbers h.ordered.0)

    floor_le : floor ≼ c.effective_bid
    floor_le = ground (arith, h.passed.0)

    IsWinner_beats : All (λ d. is_eligible floor d ≡ true → d.effective_bid ≼ c.effective_bid) cs
    IsWinner_beats =
        candidates_of_eligible _ floor cs (All-perm _ (Permᴰ.symm h.same) IsWinner-best)

    IsWinner-mem : Memᴰ c cs
    IsWinner-mem = (All-perm _ h.same (eligible-Mem floor cs)).0

    within :
        (price : F)
        → w.clearing_price ≡ price
        → floor ≼ price
        → price ≼ c.effective_bid
        → (floor ≼ w.clearing_price) × (w.clearing_price ≼ w.effective_bid)
    within price e l u = let same = ap (λ v. v.effective_bid) h.priced in ground arith

    price_of :
        (price : F)
        → auction_price kind floor c rest ≡ price
        → floor ≼ price
        → w.clearing_price ≡ price
    price_of price e l =
        ap (λ v. v.clearing_price) h.priced
        ∙ ap (enforce_floor floor) e
        ∙ enforce_floor_id floor price l

  -- A winner is one of the candidates with only its price set; its budget was confirmed, it bids at
  -- least the floor, and no eligible candidate bids more.
  pub run_auction_best :
      (kind : AuctionType) (floor : F) (cs : List (BidCandidate F)) {w : BidCandidate F}
      → run_auction sorter cs kind floor ≡ some w
      → (c : BidCandidate F) × Memᴰ c cs
        × (is_eligible floor c ≡ true)
        × (w ≡ record c { clearing_price = w.clearing_price })
        × All (λ d. is_eligible floor d ≡ true → d.effective_bid ≼ w.effective_bid) cs
  run_auction_best kind floor cs {w} e =
      let (c, rest, h) = run_auction-IsWinner kind floor cs e in
      (c, IsWinner-mem h, h.passed.0, cc (h.priced), rw h.priced (IsWinner_beats h))

  priced_second :
      (floor : F) (cs : List (BidCandidate F)) (c : BidCandidate F) (rest : List (BidCandidate F))
      (w : BidCandidate F)
      → IsWinner second_price floor cs c rest w
      → (floor ≼ w.clearing_price) × (w.clearing_price ≼ w.effective_bid)
  priced_second floor cs c [] w h =
      let low = (numbers_of_le floor _ (floor_le h)).0 in
      within h floor (price_of h floor refl low) low (floor_le h)
  priced_second floor cs c (d ∷ rest) w h =
      let low : floor ≼ d.effective_bid = ground (arith, h.passed.1.0) in
      within h d.effective_bid (price_of h d.effective_bid refl low) low (IsWinner-best h).1.0

  -- In a first-price auction the winner pays its bid.
  first_price_pays_bid :
      (floor : F) (cs : List (BidCandidate F)) {w : BidCandidate F}
      → run_auction sorter cs first_price floor ≡ some w
      → w.clearing_price ≡ w.effective_bid
  first_price_pays_bid floor cs e =
      let (c, rest, h) = run_auction-IsWinner first_price floor cs e in
      price_of h c.effective_bid refl (floor_le h) ∙ sym (ap (λ v. v.effective_bid) h.priced)

  -- In either kind of auction the price lies between the floor and the winner's bid.
  pub clearing_bounds :
      (kind : AuctionType) (floor : F) (cs : List (BidCandidate F)) {w : BidCandidate F}
      → (kind ≡ first_price) ⊎ (kind ≡ second_price)
      → run_auction sorter cs kind floor ≡ some w
      → (floor ≼ w.clearing_price) × (w.clearing_price ≼ w.effective_bid)
  clearing_bounds kind floor cs (inl k) e =
      let (c, rest, h) = run_auction-IsWinner first_price floor cs (rw k at e) in
      let bid = c.effective_bid in
      within h bid (price_of h bid refl (floor_le h)) (floor_le h) (IsWinner-best h).0
  clearing_bounds kind floor cs (inr k) e =
      let (c, rest, h) = run_auction-IsWinner second_price floor cs (rw k at e) in
      priced_second floor cs c rest _ h

  abbrev PaysSecond : F → BidCandidate F → List (BidCandidate F) → Type 0
  PaysSecond floor w rest =
      All (λ d. d.effective_bid ≼ w.clearing_price) rest
      × (((rest ≡ []) × (w.clearing_price ≡ floor))
          ⊎ Memᴰ w.clearing_price (map (λ d. d.effective_bid) rest))

  pays_second :
      (floor : F) (cs : List (BidCandidate F)) (c : BidCandidate F) (rest : List (BidCandidate F))
      (w : BidCandidate F)
      → IsWinner second_price floor cs c rest w
      → PaysSecond floor w rest
  pays_second floor cs c [] w h =
      (tt, inl (refl, price_of h floor refl (numbers_of_le floor _ (floor_le h)).0))
  pays_second floor cs c (d ∷ rest) w h =
      let n = numbers h in
      let price : w.clearing_price ≡ d.effective_bid =
        price_of h d.effective_bid refl (ground (arith, h.passed.1.0)) in
      (
        subst (λ p. All (λ e. e.effective_bid ≼ p) (d ∷ rest)) (sym price)
            (n.1.0, first_best laws d rest n.1 h.ordered.1.0),
        inr (Memᴰ.head price),
      )

  -- In a second-price auction the price is the highest bid among the other eligible candidates, or
  -- the floor if there are none.
  pub second_price_lem :
      (floor : F) (cs : List (BidCandidate F)) {w : BidCandidate F}
      → run_auction sorter cs second_price floor ≡ some w
      → (c : BidCandidate F) × (rest : List (BidCandidate F)) × Permᴰ (eligible floor cs) (c ∷ rest)
        × (w ≡ record c { clearing_price = w.clearing_price })
        × All (λ d. d.effective_bid ≼ w.clearing_price) rest
        × (((rest ≡ []) × (w.clearing_price ≡ floor))
            ⊎ Memᴰ w.clearing_price (map (λ d. d.effective_bid) rest))
  second_price_lem floor cs e =
      let (c, rest, h) = run_auction-IsWinner second_price floor cs e in
      let p = pays_second floor cs c rest _ h in (c, rest, h.same, cc (h.priced), p.0, p.1)
