-- ===== src/Simulator/Served.antt =====
-- A request of the load generator at the bid handler of the bidding service.
use bidflock.Prelude.{
  ℕ, ◌≡◌, refl, ap, ◌∙◌, inl, inr, Bool, false, ◌||◌, Option, some, List, [], ◌∷◌, is_empty,
}
use bidflock.Prelude.Float.{Float64}
use bidflock.Prelude.Partial.{Returns, returns}
use bidflock.Models.OpenRtb.{BidRequest, BidResponse, Imp}
use bidflock.Auction.{Sorter}
use bidflock.Bidding.Peers.{Peers, State}
use bidflock.Bidding.Build.{Config}
use bidflock.Bidding.Accounting.{Charges}
use bidflock.Bidding.Handler.{handle_bid, handle_bid-Serves, is_invalid, status_ok}
use bidflock.Simulator.Random.{Sources, IsSources}
use bidflock.Simulator.Requests.{generate}
use bidflock.Simulator.WellFormed.{IsWellFormed, OneImp, generate-IsWellFormed}

-- The handler answers with status 200 and a response.
abbrev pub IsServed : {F : Type 0} → Option (ℕ × BidResponse F) → Type 0
IsServed {F} o = (resp : BidResponse F) × (o ≡ some (status_ok, resp))

module _ {F : Type 0} ⦃f : Float64 F⦄ (s : Sources F) (laws : IsSources s) (peers : Peers F)
    (sorter : Sorter F) (config : Config) (ledger : Charges peers) where
  has_imp : (imps : List (Imp F)) → OneImp imps → is_empty imps ≡ false
  has_imp [] h = h
  has_imp (i ∷ is) h = refl

  or_false : (a b : Bool) → a ≡ false → b ≡ false → a || b ≡ false
  or_false a b e h = ap (λ t. t || b) e ∙ h

  handle_bid-IsServed :
      (req : BidRequest F) (st : State F peers.World)
      → IsWellFormed req
      → IsServed (handle_bid peers sorter config (some req) st).0
  handle_bid-IsServed req st h =
      let valid : is_invalid req ≡ false = or_false _ _ h.identified (has_imp req.imp h.one_imp) in
      elim (handle_bid-Serves peers sorter config ledger (some req) st) [
        | inl (bad, _) ↦ absurd (cc (bad, valid))
        | inr (_, resp, _, _, e, _) ↦ (resp, e)
      ]

  -- Over random sources and identifiers as documented, a generated request is never refused: Generate returns one, and the bid handler answers it with
  -- status 200, whatever the state of the bidding service is.
  pub generate-IsServed :
      (w : s.World) (st : State F peers.World)
      → Returns (λ req. IsServed (handle_bid peers sorter config (some req) st).0) (generate s w)
  generate-IsServed w st = relabel (generate-IsWellFormed s laws w)
    where
      relabel :
          {o : Option (BidRequest F × s.World)}
          → Returns IsWellFormed o
          → Returns (λ req. IsServed (handle_bid peers sorter config (some req) st).0) o
      relabel (returns {a} h) = returns (handle_bid-IsServed a st h)
