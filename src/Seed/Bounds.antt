-- ===== src/Seed/Bounds.antt =====
-- What scripts/seed.go makes: it does not panic, its objects are few enough, its ages fit.
use bidflock.Prelude.{
  ℕ, zero, suc, ◌+◌, ◌*◌, ◌≤◌, ◌<◌, ◌≡◌, refl, Bool, not, Option, none, some, List, [], ◌∷◌, All,
  String, length, length-append, ltb, is_empty, if-intro, arith, str_eq,
}
use native.Mathlib.Nat.{mod-lt}
use bidflock.Prelude.Int.{pos}
use bidflock.Prelude.Float.{Float64}
use bidflock.Prelude.Partial.{
  Returns, Total, run_total, bind-Total, pure-Total, call-Total, index, index-Total, skip-Total,
  weaken-Total,
}
use bidflock.Models.Campaign.{Advertiser, Campaign, TargetingRules, ad_type_video}
use bidflock.Simulator.Random.{IsRng}
use bidflock.Seed.Data.{Host, industries, geo_targets, interest_targets, ad_types}
use bidflock.Seed.Script.{
  Seeded, keep, counted, capped_age, seed_advertisers, pick_device_types, targeting_of,
  make_campaign, seed_campaigns, video_id, seed_ad, seed_ads_of, seed_ads, seed_for, seed,
}

-- The ages are a range of at least ten years from 18 to 65.
abbrev pub HasRange : TargetingRules → Type 0
HasRange t =
    (low : ℕ) × (high : ℕ) × (t.age_min ≡ pos low)
    × (t.age_max ≡ pos high)
    × (18 ≤ low)
    × (low + 10 ≤ high)
    × (high ≤ 65)

-- At most 50 advertisers, 200 campaigns and 500 ads, and at most three times as many ads as campaigns;
-- success exactly if there is an advertiser.
pub record IsSmall {F : Type 0} (done : Bool) (s : Seeded F) : Type 0 where
  pub advertisers : length s.advertisers ≤ 50
  pub campaigns : length s.campaigns ≤ 200
  pub ads : s.ad_count ≤ 500
  pub threefold : s.ad_count ≤ length s.campaigns * 3
  pub ends : done ≡ not (is_empty s.advertisers)

length-keep : {A : Type 0} (xs : List A) (o : Option A) → length (keep xs o) ≤ length xs + 1
length-keep xs none = omega arith
length-keep xs (some x) = omega (arith, length-append xs (x ∷ []))

keep-grows : {A : Type 0} (xs : List A) (o : Option A) → length xs ≤ length (keep xs o)
keep-grows xs none = omega arith
keep-grows xs (some x) = omega (arith, length-append xs (x ∷ []))

counted_le : {A : Type 0} (n : ℕ) (o : Option A) → (n ≤ counted n o) × (counted n o ≤ n + 1)
counted_le n none = (omega arith, omega arith)
counted_le n (some _) = (omega arith, omega arith)

unconditional : {A : Type 0} (xs : List A) → All (λ _. Unit {0}) xs
unconditional [] = tt
unconditional (x ∷ xs) = (tt, unconditional xs)

at-Total :
    {W A : Type 0} (xs : List A) {i : ℕ}
    → i < length xs
    → Total {W = W} (λ (_ : A). Unit {0}) (index xs i)
at-Total xs h = index-Total xs (unconditional xs) h

module _ {F : Type 0} ⦃f : Float64 F⦄ (host : Host F) (laws : IsRng host.rng) where
  open laws use {intn_lt}

  seed_advertisers-Total :
      (left i : ℕ) (made : List Advertiser)
      → Total (λ advs. length advs ≤ length made + left) (seed_advertisers host left i made)
  unfolding seed_advertisers
  seed_advertisers-Total zero i made = pure-Total _ (omega arith)
  seed_advertisers-Total (suc left) i made =
      bind-Total (at-Total industries (mod-lt i (omega arith))) (λ industry _.
        skip-Total _ (λ created.
          weaken-Total (λ advs h. omega (arith, h, length-keep made created))
            (seed_advertisers-Total left (suc i) (keep made created))))

  pick_device_types-Total : Total (λ _. Unit {0}) (pick_device_types host)
  unfolding pick_device_types
  pick_device_types-Total = skip-Total _ (λ r. pure-Total _ tt)

  capped_range :
      (low span : ℕ)
      → low < 20
      → (18 + low + 10 ≤ capped_age (18 + low + 10 + span))
        × (capped_age (18 + low + 10 + span) ≤ 65)
  capped_range low span h = (ground arith, ground arith)

  targeting_of-Total : Total HasRange (targeting_of host)
  unfolding targeting_of
  targeting_of-Total =
      bind-Total (call-Total {P = λ k. k < length geo_targets} _ (λ w. intn_lt _ w (omega arith)))
        (λ g inside. bind-Total (at-Total geo_targets inside) (λ geos _.
          bind-Total
            (call-Total {P = λ k. k < length interest_targets} _ (λ w. intn_lt _ w (omega arith)))
            (λ n within. bind-Total (at-Total interest_targets within) (λ interests _.
              bind-Total (call-Total {P = λ k. k < 20} _ (λ w. intn_lt 20 w (omega arith)))
                (λ low young. skip-Total _ (λ span. bind-Total pick_device_types-Total (λ devices _.
                  let (ten, cap) = capped_range low span young in
                  pure-Total _ (
                    18 + low,
                    capped_age (18 + low + 10 + span),
                    refl,
                    refl,
                    omega arith,
                    ten,
                    cap,
                  ))))))))

  -- A campaign that the script makes.
  pub make_campaign-Total :
      (i : ℕ) (adv : Advertiser) → Total (λ c. HasRange c.targeting) (make_campaign host i adv)
  unfolding make_campaign
  make_campaign-Total i adv = skip-Total _ (λ x. skip-Total _ (λ y. skip-Total _ (λ z.
      bind-Total targeting_of-Total (λ targeting h. skip-Total _ (λ started.
        skip-Total _ (λ days. skip-Total _ (λ ending. skip-Total _ (λ months. pure-Total _ h))))))))

  seed_campaigns-Total :
      (advs : List Advertiser) (left i : ℕ) (made : List (Campaign F))
      → 0 < length advs
      → Total (λ cs. length cs ≤ length made + left) (seed_campaigns host advs left i made)
  unfolding seed_campaigns
  seed_campaigns-Total advs zero i made nonempty = pure-Total _ (omega arith)
  seed_campaigns-Total advs (suc left) i made nonempty =
      bind-Total (at-Total advs (mod-lt i nonempty)) (λ adv _.
        bind-Total (make_campaign-Total i adv) (λ c _. skip-Total _ (λ created.
          weaken-Total (λ cs h. omega (arith, h, length-keep made created))
            (seed_campaigns-Total advs left (suc i) (keep made created) nonempty))))

  video_id-Total : (t : String) → Total (λ _. Unit {0}) (video_id host t)
  video_id-Total t =
      if-intro (Total (λ _. Unit {0})) (str_eq t ad_type_video) (λ _. call-Total _ (λ w. tt))
        (λ _. pure-Total _ tt)

  seed_ad-Total : (i : ℕ) (c : Campaign F) (j n : ℕ) → Total (λ m. m ≤ n + 1) (seed_ad host i c j n)
  unfolding seed_ad
  seed_ad-Total i c j n =
      bind-Total (call-Total {P = λ k. k < length ad_types} _ (λ w. intn_lt _ w (omega arith)))
        (λ t inside. bind-Total (at-Total ad_types inside) (λ ad_type _.
          bind-Total (video_id-Total ad_type)
            (λ id _. skip-Total _ (λ created. pure-Total _ (counted_le n created).1))))

  -- There are at most 500 ads, and no more than so many turns add.
  abbrev IsWithin : ℕ → ℕ → ℕ → Type 0
  IsWithin n turns m = (m ≤ 500) × (m ≤ n + turns)

  seed_ads_of-Total :
      (i : ℕ) (c : Campaign F) (left j n : ℕ)
      → n ≤ 500
      → Total (IsWithin n left) (seed_ads_of host i c left j n)
  unfolding seed_ads_of
  seed_ads_of-Total i c zero j n h = pure-Total _ (h, omega arith)
  seed_ads_of-Total i c (suc left) j n h =
      if-intro (Total (IsWithin n (suc left))) (ltb n 500)
        (λ few. bind-Total (seed_ad-Total i c j n) (λ more k.
          weaken-Total (λ m g. (g.0, omega (arith, g.1, k)))
            (seed_ads_of-Total i c left (suc j) more (ground arith))))
        (λ _. pure-Total _ (h, omega arith))

  seed_ads-Total :
      (i : ℕ) (cs : List (Campaign F)) (n : ℕ)
      → n ≤ 500
      → Total (IsWithin n (length cs * 3)) (seed_ads host i cs n)
  unfolding seed_ads
  seed_ads-Total i [] n h = pure-Total _ (h, omega arith)
  seed_ads-Total i (c ∷ cs) n h =
      bind-Total (call-Total {P = λ k. k < 2} _ (λ w. intn_lt 2 w (omega arith))) (λ k small.
        bind-Total (seed_ads_of-Total i c (2 + k) 0 n h) (λ more g.
          weaken-Total (λ m e. (e.0, omega (arith, e.1, g.1, small)))
            (seed_ads-Total (suc i) cs more g.0)))

  seed_for-Total :
      (advs : List Advertiser)
      → length advs ≤ 50
      → Total (λ r. IsSmall r.0 r.1) (seed_for host advs)
  unfolding seed_for
  seed_for-Total [] h = pure-Total _ (record {
    advertisers = omega arith;
    campaigns = omega arith;
    ads = omega arith;
    threefold = omega arith;
    ends = refl;
  })
  seed_for-Total (adv ∷ advs) h =
      bind-Total (seed_campaigns-Total (adv ∷ advs) 200 0 [] (omega arith)) (λ cs few.
        bind-Total (seed_ads-Total 0 cs 0 (omega arith)) (λ n within. pure-Total _ (record {
          advertisers = h;
          campaigns = omega (arith, few);
          ads = within.0;
          threefold = omega (arith, within.1);
          ends = refl;
        })))

  seed-Total : Total (λ r. IsSmall r.0 r.1) (seed host)
  unfolding seed
  seed-Total =
      bind-Total (seed_advertisers-Total 50 0 [])
        (λ advs few. seed_for-Total advs (omega (arith, few)))

  -- However the campaign service answers, and over a random source as documented, the seed script
  -- does not panic; a draw below a bound that is not above zero would be a panic. It keeps at most 50
  -- advertisers and 200 campaigns, makes at most 500 ads and at most three times as many as it keeps
  -- campaigns, and succeeds exactly if an advertiser was created.
  pub seed-IsSmall : (w : host.World) → Returns (λ r. IsSmall r.0 r.1) (seed host w)
  seed-IsSmall w = run_total seed-Total w
