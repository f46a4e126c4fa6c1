-- ===== src/Bidding/Price.antt =====
-- The price of an answered bid, from the accounts of one run and the rules of the auction.
use mathlib.Core.Option.{some-injective}
use mathlib.Core.List.{Memᴰ}
use bidflock.Prelude.{
  ◌≡◌, sym, ap, subst, ◌∙◌, ◌⊎◌, inl, inr, true, some, List, [], ◌∷◌, ◌++◌, Option, arith,
}
use bidflock.Prelude.Float.{Float64, ◌≼◌, IsOrdered}
use bidflock.Models.OpenRtb.{BidRequest, BidResponse, BidResult, BidCandidate, Bid, SeatBid, Imp}
use bidflock.Models.Messages.{DeductBudgetRequest}
use bidflock.Auction.{first_price, second_price, Sorter}
use bidflock.Auction.Outcome.{run_auction_best, clearing_bounds}
use bidflock.Bidding.Peers.{Peers, State}
use bidflock.Bidding.Build.{Config, bid_for}
use bidflock.Bidding.Process.{process_bid_request}
use bidflock.Bidding.Accounting.{Charges, IsRejected, IsAccepted, process_bid_request-Settles}

module _ {F : Type 0} ⦃f : Float64 F⦄ (laws : IsOrdered F) (peers : Peers F) (sorter : Sorter F)
    (config : Config) (ledger : Charges peers) (req : BidRequest F) (imp : Imp F)
    (others : List (Imp F)) (has : req.imp ≡ imp ∷ others)
    (kind : (config.auction_type ≡ first_price) ⊎ (config.auction_type ≡ second_price)) where
  open peers use {World}

  -- A bid for the impression at a price between its floor and the paced bid of a candidate of the
  -- same campaign and ad, whose budget was confirmed.
  abbrev pub IsWithin : Bid F → BidCandidate F → Type 0
  IsWithin b c =
      (b.imp_id ≡ imp.id)
      × (b.cid ≡ c.campaign_id)
      × (b.ad_id ≡ c.ad_id)
      × (c.budget_ok ≡ true)
      × (imp.bid_floor ≼ b.price)
      × (b.price ≼ c.effective_bid)

  abbrev pub OneBid : BidResult F → SeatBid F → List (SeatBid F) → Type 0
  OneBid res seat seats =
      (b : Bid F) × (c : BidCandidate F) × Memᴰ c res.candidates
      × (seat.bid ≡ b ∷ [])
      × (seats ≡ [])
      × IsWithin b c

  rejected :
      (ask : Option (BidCandidate F × World)) (before : List (DeductBudgetRequest F)) (v : World)
      (resp : BidResponse F) (res : BidResult F) {seat : SeatBid F} {seats : List (SeatBid F)}
      → IsRejected peers sorter config ledger req ask before v resp res
      → resp.seat_bid ≡ seat ∷ seats
      → OneBid res seat seats
  rejected ask before v resp res h e = absurd (cc (sym (ap (λ r. r.seat_bid) h.0) ∙ e))

  accepted :
      (before : List (DeductBudgetRequest F)) (v : World) (resp : BidResponse F) (res : BidResult F)
      {seat : SeatBid F} {seats : List (SeatBid F)}
      → IsAccepted peers sorter config ledger req before v resp res
      → resp.seat_bid ≡ seat ∷ seats
      → OneBid res seat seats
  accepted before v resp res {seat} {seats} (w, i, o, id, h, r, _, _, won, _) e =
      let (c, inside, passed, only, _) = run_auction_best laws sorter _ _ _ won in
      let (low, high) = clearing_bounds laws sorter _ _ _ kind won in
      let same : i ≡ imp = cc in
      let one = sym (ap (λ q. q.seat_bid) r) ∙ e in
      let first : seat ≡ record { bid = bid_for w id i ∷ []; seat = "bidflock" } = cc in
      (
        bid_for w id i,
        c,
        inside,
        ap (λ q. q.bid) first,
        cc,
        (
          ap (λ k. k.id) same,
          ap (λ v. v.campaign_id) only,
          ap (λ v. v.ad_id) only,
          ground (arith, passed),
          subst (λ k. k.bid_floor ≼ w.clearing_price) same low,
          subst (λ p. w.clearing_price ≼ p) (ap (λ v. v.effective_bid) only) high,
        ),
      )

  -- An answered bid is the only one of the response, and the run publishes one result. The bid is for
  -- the first impression, at a price between the impression's floor and the bid of one of the
  -- candidates of that result, which is of the same campaign and ad and whose budget was confirmed.
  pub bid_price_bounds :
      (s : State F World) {resp : BidResponse F} {seat : SeatBid F} {seats : List (SeatBid F)}
      → (process_bid_request peers sorter config req s).0 ≡ some resp
      → resp.seat_bid ≡ seat ∷ seats
      → (res : BidResult F) × ((process_bid_request peers sorter config req s).1.published
          ≡ s.published ++ ((req.id, res) ∷ []))
        × OneBid res seat seats
  bid_price_bounds s {resp} {seat} {seats} answered bid =
      let (resp', res, e, told, how) =
        process_bid_request-Settles peers sorter config ledger req imp others has s in
      let same : resp' ≡ resp = some-injective _ _ (sym e ∙ answered) in
      let bid' = ap (λ r. r.seat_bid) same ∙ bid in
      (
        res,
        told,
        elim how [
          | inl h ↦ rejected _ _ _ resp' res h bid'
          | inr h ↦ accepted _ _ resp' res h bid'
        ],
      )
