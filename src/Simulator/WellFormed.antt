-- ===== src/Simulator/WellFormed.antt =====
-- The requests of the load generator: `Generate` never panics, and what its requests look like.
use bidflock.Prelude.{
  ℕ, ◌+◌, ◌-◌, ◌≤◌, ◌<◌, ◌≡◌, refl, true, false, not, Option, none, some, List, [], ◌∷◌, All,
  String, str_eq, length, is_some, if-intro, arith,
}
use bidflock.Prelude.Int.{ℤ, pos}
use bidflock.Prelude.Float.{Float64}
use bidflock.Prelude.Partial.{
  Returns, Total, run_total, bind-Total, index-Total, call-Total, skip-Total, pure-Total,
  draw-Total,
}
use bidflock.Models.OpenRtb.{BidRequest, Imp, User, App, Site}
use bidflock.Auction.{second_price}
use bidflock.Simulator.Random.{Rng, Sources, IsRng, IsSources}
use bidflock.Simulator.Users.{
  AgeGroup, Share, DeviceKind, age_groups, genders, geo_distribution, device_distribution,
  ssp_partners, pick_yob, pick_weighted, pick_interests, pick_ssp, device_info, generate_user,
}
use bidflock.Simulator.Requests.{
  Slot, ad_slots, app_bundles, site_domains, fill_imp, gen_app, gen_site, is_phone, place, generate,
}
use bidflock.Simulator.Picking.{weighted-Total}

abbrev pub count_one : {A : Type 0} → Option A → ℕ
count_one none = 0
count_one (some _) = 1

module _ {F : Type 0} where
  -- The number of formats that the impression offers.
  abbrev pub formats : Imp F → ℕ
  formats imp = count_one imp.banner + count_one imp.video + count_one imp.native_ad

  -- The user was born in a year of the age groups.
  abbrev pub HasAge : Option (User F) → Type 0
  HasAge none = true ≡ false
  HasAge (some u) = (n : ℕ) × ((u.yob ≡ pos n) × ((1960 ≤ n) × (n ≤ 2006)))

  abbrev pub OneImp : List (Imp F) → Type 0
  OneImp [] = true ≡ false
  OneImp (imp ∷ []) = formats imp ≡ 1
  OneImp (_ ∷ _ ∷ _) = true ≡ false

  -- A second-price request with an identifier, one impression in one format, a user with an age, a
  -- device and an exchange, for an app or for a site but not both.
  pub record IsWellFormed (req : BidRequest F) : Type 0 where
    pub identified : str_eq req.id "" ≡ false
    pub one_imp : OneImp req.imp
    pub priced : req.auction_type ≡ pos second_price
    pub aged : HasAge req.user
    pub placed : is_some req.app ≡ not (is_some req.site)
    pub known : is_some req.device ≡ true
    pub routed : is_some req.ext ≡ true

abbrev Any : {A : Type 0} → A → Type 0
Any _ = Unit

module _ {F : Type 0} ⦃f : Float64 F⦄ where
  module _ {W : Type 0} (g : Rng F W) (laws : IsRng g) where
    open laws use {intn_lt}

    abbrev HasYears : AgeGroup F → Type 0
    HasYears a = (1960 ≤ a.yob_min) × ((a.yob_min ≤ a.yob_max) × (a.yob_max ≤ 2006))

    years : All HasYears age_groups
    years = omega arith

    abbrev IsYear : ℤ → Type 0
    IsYear y = (n : ℕ) × ((y ≡ pos n) × ((1960 ≤ n) × (n ≤ 2006)))

    pick_yob-Total : Total IsYear (pick_yob g)
    unfolding pick_yob
    pick_yob-Total =
        bind-Total (weighted-Total g (λ (a : AgeGroup F). a.weight) age_groups (omega arith))
          (λ i lt. bind-Total (index-Total {P = HasYears} age_groups years lt) (λ a h.
            bind-Total
              (draw-Total g.intn (a.yob_max + 1 - a.yob_min) (omega arith)
                (λ w. intn_lt (a.yob_max + 1 - a.yob_min) w (omega arith)))
              (λ k lt. pure-Total _ (a.yob_min + k, (refl, omega arith)))))

    pick_weighted-Total :
        (items : List (Share F))
        → All Any items
        → 0 < length items
        → Total Any (pick_weighted g items)
    unfolding pick_weighted
    pick_weighted-Total items all h =
        bind-Total (weighted-Total g (λ (a : Share F). a.weight) items h)
          (λ i lt. bind-Total (index-Total {P = Any} items all lt) (λ _ _. pure-Total _ tt))

    pick_ssp-Total : Total Any (pick_ssp g)
    unfolding pick_ssp
    pick_ssp-Total =
        bind-Total
          (call-Total {P = λ k. k < length ssp_partners} _ (λ w. intn_lt _ w (omega arith)))
          (λ i lt. index-Total {P = Any} ssp_partners (omega arith) lt)

    pick_interests-Total : (n : ℕ) → Total Any (pick_interests g n)
    unfolding pick_interests
    pick_interests-Total n = skip-Total _ (λ _. pure-Total _ tt)

    device_info-Total : Total Any (device_info g)
    unfolding device_info
    device_info-Total =
        bind-Total
          (weighted-Total g (λ (a : DeviceKind F). a.weight) device_distribution (omega arith))
          (λ i lt. bind-Total (index-Total {P = Any} device_distribution (omega arith) lt) (λ d _.
            skip-Total _
              (λ _. skip-Total _ (λ _. skip-Total _ (λ _. skip-Total _ (λ _. pure-Total _ tt))))))

  module _ (s : Sources F) (laws : IsSources s) where
    open s use {World, user_rng, rng, new_uuid}
    open laws use {users, requests, uuid}
    open requests use {intn_lt}

    generate_user-Total : Total (λ u. HasAge (some u)) (generate_user s)
    unfolding generate_user
    generate_user-Total = skip-Total _ (λ _. bind-Total (pick_yob-Total user_rng users) (λ yob year.
        bind-Total (pick_weighted-Total user_rng users genders (omega arith) (omega arith)) (λ _ _.
          bind-Total
            (pick_weighted-Total user_rng users geo_distribution (omega arith) (omega arith))
            (λ _ _.
              bind-Total (pick_interests-Total user_rng users 3) (λ _ _. pure-Total _ year)))))

    gen_app-Total : Total Any (gen_app s)
    unfolding gen_app
    gen_app-Total =
        bind-Total (call-Total {P = λ k. k < length app_bundles} _ (λ w. intn_lt _ w (omega arith)))
          (λ i lt. bind-Total (index-Total {P = Any} app_bundles (omega arith) lt) (λ _ _.
            skip-Total _
              (λ _. bind-Total (pick_ssp-Total user_rng users) (λ _ _. pure-Total _ tt))))

    gen_site-Total : Total Any (gen_site s)
    unfolding gen_site
    gen_site-Total =
        bind-Total
          (call-Total {P = λ k. k < length site_domains} _ (λ w. intn_lt _ w (omega arith)))
          (λ i lt. bind-Total (index-Total {P = Any} site_domains (omega arith) lt) (λ _ _.
            skip-Total _ (λ _.
              skip-Total _
                (λ _. bind-Total (pick_ssp-Total user_rng users) (λ _ _. pure-Total _ tt)))))

    place-Total :
        (os : String) (req : BidRequest F)
        → ((app : App) → IsWellFormed (record req { app = some app }))
        → ((site : Site) → IsWellFormed (record req { site = some site }))
        → Total IsWellFormed (place s os req)
    unfolding place
    place-Total os req for_app for_site =
        if-intro (Total IsWellFormed) (is_phone os)
          (λ _. bind-Total gen_app-Total (λ app _. pure-Total _ (for_app app)))
          (λ _. bind-Total gen_site-Total (λ site _. pure-Total _ (for_site site)))

    abbrev FillsOne : Slot F → Type 0
    FillsOne slot = (id : String) → formats (fill_imp id slot) ≡ 1

    slots_fill : All FillsOne ad_slots
    unfolding fill_imp
    slots_fill = (λ id. refl, (λ id. refl, (λ id. refl, (λ id. refl, (λ id. refl, tt)))))

    generate-Total : Total IsWellFormed (generate s)
    unfolding generate
    generate-Total = bind-Total generate_user-Total (λ user age.
        bind-Total (device_info-Total user_rng users) (λ device _.
          bind-Total (pick_ssp-Total user_rng users) (λ ssp _.
            bind-Total (weighted-Total user_rng (λ (t : Slot F). t.weight) ad_slots (omega arith))
              (λ i lt. bind-Total (index-Total {P = FillsOne} ad_slots slots_fill lt) (λ slot fills.
                bind-Total (call-Total {P = λ id. str_eq id "" ≡ false} _ uuid) (λ id identified.
                  skip-Total _ (λ imp_id.
                    let filled = fills imp_id in
                    place-Total device.os _
                      (λ app. record {
                        identified = identified;
                        one_imp = filled;
                        priced = refl;
                        aged = age;
                        placed = refl;
                        known = refl;
                        routed = refl;
                      })
                      (λ site. record {
                        identified = identified;
                        one_imp = filled;
                        priced = refl;
                        aged = age;
                        placed = refl;
                        known = refl;
                        routed = refl;
                      }))))))))

    -- Over random sources and identifiers as documented, Generate never panics. Each request is well formed: it has an identifier, one impression with
    -- exactly one of banner, video and native, a user born from 1960 to 2006, a device and an exchange,
    -- asks for a second-price auction, and is for an app or a site but not both.
    pub generate-IsWellFormed : (w : World) → Returns IsWellFormed (generate s w)
    generate-IsWellFormed w = run_total generate-Total w
