-- ===== src/Bidding/Handler.antt =====
-- `Handler.bid` of internal/bidding/handler.go, from the decoded body to the status and response.
-- The metrics and the log are left out.
use bidflock.Prelude.{
  ℕ, ◌≡◌, refl, ap, sym, subst, ◌⊎◌, inl, inr, Bool, ◌||◌, true, false, Option, none, some, List,
  [], ◌∷◌, str_eq, is_empty, arith, Bool-cases, if◌then◌else◌,
}
use bidflock.Prelude.Float.{Float64}
use bidflock.Models.OpenRtb.{BidRequest, BidResponse, Imp, nbr_invalid_request}
use bidflock.Auction.{Sorter}
use bidflock.Bidding.Peers.{Peers, State, Action, ◌>>=◌, pure}
use bidflock.Bidding.Build.{Config, no_bid_response}
use bidflock.Bidding.Process.{process_bid_request}
use bidflock.Bidding.Accounting.{Charges, Settles, asked, process_bid_request-Settles}

abbrev pub status_ok : ℕ
status_ok = 200

abbrev pub status_bad_request : ℕ
status_bad_request = 400

module _ {F : Type 0} where
  -- `none` is a panic.
  abbrev pub respond : Option (BidResponse F) → Option (ℕ × BidResponse F)
  respond none = none
  respond (some resp) = some (status_ok, resp)

  abbrev pub bad_request : ℕ × BidResponse F
  bad_request = (status_bad_request, no_bid_response "" nbr_invalid_request)

  abbrev pub is_invalid : BidRequest F → Bool
  is_invalid req = str_eq req.id "" || is_empty req.imp

  abbrev pub is_malformed : Option (BidRequest F) → Bool
  is_malformed none = true
  is_malformed (some req) = is_invalid req

module _ {F : Type 0} ⦃f : Float64 F⦄ (peers : Peers F) (sorter : Sorter F) (config : Config) where
  open peers use {World}

  -- `none` is a body that is no JSON of a bid request.
  pub handle_bid : Option (BidRequest F) → Action F World (Option (ℕ × BidResponse F))
  handle_bid none = pure (some bad_request)
  handle_bid (some req) =
      if is_invalid req
      then pure (some bad_request)
      else (process_bid_request peers sorter config req >>= λ r. pure (respond r))

  module _ (ledger : Charges peers) where
    open ledger use {charges}

    abbrev pub Serves :
        Option (BidRequest F) → State F World → Option (ℕ × BidResponse F) × State F World → Type 0
    Serves body s out =
        (is_malformed body ≡ true) × (out ≡ (some bad_request, s))
        ⊎ ((req : BidRequest F) × (resp : BidResponse F) × (body ≡ some req)
            × (is_invalid req ≡ false)
            × (out.0 ≡ some (status_ok, resp))
            × Settles peers sorter config ledger req (asked peers sorter config ledger req s)
                s.published (charges s.world) (some resp, out.1))

    has_imp :
        (req : BidRequest F)
        → is_invalid req ≡ false
        → (imp : Imp F) × (others : List (Imp F)) × (req.imp ≡ imp ∷ others)
    has_imp req h = non_empty req.imp (ground arith)
      where
        non_empty :
            (imps : List (Imp F))
            → is_empty imps ≡ false
            → (imp : Imp F) × (others : List (Imp F)) × (imps ≡ imp ∷ others)
        non_empty [] e = absurd (cc)
        non_empty (i ∷ is) e = (i, is, refl)

    served :
        (req : BidRequest F) (s : State F World)
        → is_invalid req ≡ false
        → let ran = process_bid_request peers sorter config req s in
          Serves (some req) s (respond ran.0, ran.1)
    served req s valid =
        let (imp, others, has) = has_imp req valid in
        let (resp, res, e, told, how) =
          process_bid_request-Settles peers sorter config ledger req imp others has s in
        inr (req, resp, refl, valid, ap respond e, (resp, res, refl, told, how))

    -- Every body gets one response and no panic. A body that does not decode, has no id or has no
    -- impression gets status 400, and nothing else happens. Any other gets status 200 with the
    -- response of one run of `ProcessBidRequest`, which publishes one result that agrees with it. If
    -- it bids, the winner was charged exactly once; if not, nothing was charged unless the answer to
    -- the deduction that the run asked for was lost.
    pub handle_bid-Serves :
        (body : Option (BidRequest F)) (s : State F World) → Serves body s (handle_bid body s)
    unfolding handle_bid
    handle_bid-Serves none s = inl (refl, refl)
    handle_bid-Serves (some req) s = elim (Bool-cases (is_invalid req)) [
      | inl e ↦ inl (e, rw e)
      | inr e ↦
          subst (Serves (some req) s)
            (ap
              (λ t.
                (if t
                    then pure (some bad_request)
                    else (process_bid_request peers sorter config req >>= λ r. pure (respond r)))
                  s)
              (sym e))
            (served req s e)
    ]
