-- ===== src/Campaigns/Validity.antt =====
-- What `CreateCampaign` lets into the database.
use bidflock.Prelude.{
  ◌≡◌, ◌≢◌, refl, ◌⊎◌, inl, inr, Bool-cases, true, false, String, str_eq, eq_iff, if-intro, arith,
}
use bidflock.Prelude.Float.{Float64}
use bidflock.Models.Campaign.{Campaign, before, is_zero}
use bidflock.Campaigns.Database.{Database}
use bidflock.Campaigns.Repository.{bad_request, Result, ok, failure, insert_campaign}
use bidflock.Campaigns.Service.{
  is_complete, validate_campaign, after_write, store_campaign, with_status, create_campaign,
}

module _ {F : Type 0} ⦃f : Float64 F⦄ (db : Database F) where
  open db use {World, now}

  -- What a campaign must have: each part on its own, and a number that is NaN passes.
  abbrev pub IsFilled : Campaign F → Type 0
  IsFilled c =
      (c.name ≢ "")
      × (c.advertiser_id ≢ "")
      × (f.le c.daily_budget (f.lit 0 0) ≡ false)
      × (f.le c.base_bid (f.lit 0 0) ≡ false)
      × (c.end_date ≢ 0)

  abbrev pub Lacks : Campaign F → Type 0
  Lacks c =
      (c.name ≡ "")
      ⊎ ((c.advertiser_id ≡ "")
          ⊎ ((f.le c.daily_budget (f.lit 0 0) ≡ true)
              ⊎ ((f.le c.base_bid (f.lit 0 0) ≡ true) ⊎ (c.end_date ≡ 0))))

  is_complete-cases :
      (c : Campaign F) → (IsFilled c × (is_complete c ≡ true)) ⊎ (Lacks c × (is_complete c ≡ false))
  unfolding is_complete
  is_complete-cases c = elim (Bool-cases (str_eq c.name "")) [
    | inl e ↦ inr (inl ((eq_iff c.name "").0 e), rw e refl)
    | inr named ↦ elim (Bool-cases (str_eq c.advertiser_id "")) [
      | inl e ↦ inr (inr (inl ((eq_iff c.advertiser_id "").0 e)), rw (named, e) refl)
      | inr advertised ↦ elim (Bool-cases (f.le c.daily_budget (f.lit 0 0))) [
        | inl e ↦ inr (inr (inr (inl e)), rw (named, advertised, e) refl)
        | inr funded ↦ elim (Bool-cases (f.le c.base_bid (f.lit 0 0))) [
          | inl e ↦ inr (inr (inr (inr (inl e))), rw (named, advertised, funded, e) refl)
          | inr priced ↦ elim (Bool-cases (is_zero c.end_date)) [
            | inl e ↦ inr (
              inr (inr (inr (inr (ground arith)))),
              rw (named, advertised, funded, priced, e) refl,
            )
            | inr dated ↦ inl (
              (
                unlike c.name "" named,
                unlike c.advertiser_id "" advertised,
                funded,
                priced,
                ground arith,
              ),
              rw (named, advertised, funded, priced, dated) refl,
            )
          ]
        ]
      ]
    ]
  ]
    where
      unlike : (x y : String) → str_eq x y ≡ false → x ≢ y
      unlike x y e same = absurd (cc (e, (eq_iff x y).1 same))

  -- A campaign that is filled in, whose end date is not past at the time that the validation read,
  -- and that has a status.
  abbrev pub IsAccepted : World → Campaign F → Type 0
  IsAccepted w c =
      IsFilled c × ((before c.end_date (now w).0 ≡ false) × (str_eq c.status "" ≡ false))

  abbrev pub IsAnswer : World → Result (Campaign F) → Type 0
  IsAnswer w (ok c) = IsAccepted w c
  IsAnswer w (failure _) = Unit

  with_status_lem :
      (w : World) (c : Campaign F)
      → IsFilled c
      → before c.end_date (now w).0 ≡ false
      → IsAccepted w (with_status db c)
  with_status_lem w c h k =
      if-intro (IsAccepted w) (str_eq c.status "") (λ _. (h, (k, refl))) (λ e. (h, (k, e)))

  after_write-IsAnswer :
      (w v : World) (t : String) (r : Result (Unit {0})) (c : Campaign F)
      → IsAccepted w c
      → IsAnswer w (after_write db t (r, c) v).0
  after_write-IsAnswer w v t (ok _) c h = h
  after_write-IsAnswer w v t (failure _) c h = tt

  store-IsAnswer :
      (w v : World) (req : Campaign F)
      → IsFilled req
      → before req.end_date (now w).0 ≡ false
      → IsAnswer w (store_campaign db req v).0
  unfolding store_campaign insert_campaign
  store-IsAnswer w v req h k =
      after_write-IsAnswer w _ _ _ _ (with_status_lem w (record req { id = (db.new_uuid v).0 }) h k)

  -- What came back, by what the campaign lacks and whether its end date is past.
  abbrev pub Verdict : Campaign F → World → Result (Campaign F) × World → Type 0
  Verdict req w out =
      (Lacks req × (out ≡ (failure bad_request, w)))
      ⊎ (((before req.end_date (now w).0 ≡ true) × (out ≡ (failure bad_request, (now w).1)))
          ⊎ (IsFilled req × (before req.end_date (now w).0 ≡ false) × IsAnswer w out.0))

  -- CreateCampaign refuses a campaign as a bad request if it has no name, no advertiser or no end
  -- date, or a daily budget or a base bid of zero or less; nothing is read or written then. It
  -- refuses one whose end date is past as well, after it has read the clock only. In every other case
  -- the campaign that it returns, if it returns one, has all of these, an end date that is not past,
  -- and a status.
  pub create_campaign_lem :
      (req : Campaign F) (w : World) → Verdict req w (create_campaign db req w)
  unfolding create_campaign validate_campaign
  create_campaign_lem req w = elim (is_complete-cases req) [
    | inr (lacks, e) ↦ inl (lacks, rw e refl)
    | inl (filled, e) ↦ elim (Bool-cases (before req.end_date (now w).0)) [
      | inl late ↦ inr (inl (late, rw (e, late) refl))
      | inr due ↦ inr (inr (filled, due, rw (e, due) (store-IsAnswer w (now w).1 req filled due)))
    ]
  ]
