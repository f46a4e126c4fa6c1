-- ===== src/Simulator/Users.antt =====
-- internal/simulator/user_gen.go: the tables, the weighted choice, users and devices.
use bidflock.Prelude.{
  ℕ, suc, ◌+◌, ◌-◌, Option, none, some, List, [], ◌∷◌, map, String, length, take, ltb, str_eq,
  if◌then◌else◌,
}
use bidflock.Prelude.Int.{ℤ, pos}
use bidflock.Prelude.Float.{Float64}
use bidflock.Prelude.Text.{concat, show_ℕ}
use bidflock.Prelude.Partial.{Partial, ◌>>=◌, pure, call, index, draw}
use bidflock.Models.OpenRtb.{User, Device}
use bidflock.Simulator.Random.{Rng, Sources}

-- An entry of `ageGroups`: its years of birth, both included, and its weight.
pub record AgeGroup (F : Type 0) : Type 0 where
  pub label : String
  pub yob_min : ℕ
  pub yob_max : ℕ
  pub weight : F

-- An entry of `genders` or of `geoDistribution`.
pub record Share (F : Type 0) : Type 0 where
  pub value : String
  pub weight : F

pub record DeviceKind (F : Type 0) : Type 0 where
  pub os : String
  pub device_type : ℕ
  pub weight : F

abbrev pub interest_pool : List String
interest_pool =
    "sports" ∷ "gaming" ∷ "fashion" ∷ "tech" ∷ "food" ∷ "travel" ∷ "finance" ∷ "education"
    ∷ "health" ∷ "entertainment" ∷ "automotive" ∷ "beauty" ∷ "home" ∷ "parenting" ∷ "music" ∷ []

abbrev pub ssp_partners : List String
ssp_partners =
    "mock-adx" ∷ "mock-tiktok-exchange" ∷ "mock-pangle" ∷ "mock-applovin" ∷ "mock-unity-ads"
    ∷ "mock-ironsource" ∷ "mock-mopub" ∷ "mock-pubmatic" ∷ []

unfoldable pub user_agent : String → String
user_agent os =
    if str_eq os "iOS"
    then "Mozilla/5.0 (iPhone; CPU iPhone OS 17_0 like Mac OS X) AppleWebKit/605.1.15"
    else if str_eq os "Android"
    then "Mozilla/5.0 (Linux; Android 14; Pixel 8) AppleWebKit/537.36"
    else "Mozilla/5.0 (Windows NT 10.0; Win64; x64) AppleWebKit/537.36"

-- `%d.%d.%d.%d`
abbrev show_ip : ℕ → ℕ → ℕ → ℕ → String
show_ip a b c d =
    concat (show_ℕ a)
      (concat "." (concat (show_ℕ b) (concat "." (concat (show_ℕ c) (concat "." (show_ℕ d))))))

module _ {F : Type 0} ⦃f : Float64 F⦄ where
  open f use {lit, add, mul, le}

  abbrev pub age_groups : List (AgeGroup F)
  age_groups =
      record { label = "18-24"; yob_min = 2000; yob_max = 2006; weight = lit 30 2 }
      ∷ record { label = "25-34"; yob_min = 1990; yob_max = 1999; weight = lit 35 2 }
      ∷ record { label = "35-44"; yob_min = 1980; yob_max = 1989; weight = lit 20 2 }
      ∷ record { label = "45+"; yob_min = 1960; yob_max = 1979; weight = lit 15 2 }
      ∷ []

  abbrev pub genders : List (Share F)
  genders =
      record { value = "M"; weight = lit 48 2 }
      ∷ record { value = "F"; weight = lit 50 2 }
      ∷ record { value = "O"; weight = lit 2 2 }
      ∷ []

  abbrev pub geo_distribution : List (Share F)
  geo_distribution =
      record { value = "US"; weight = lit 40 2 }
      ∷ record { value = "JP"; weight = lit 15 2 }
      ∷ record { value = "GB"; weight = lit 10 2 }
      ∷ record { value = "DE"; weight = lit 8 2 }
      ∷ record { value = "BR"; weight = lit 7 2 }
      ∷ record { value = "KR"; weight = lit 4 2 }
      ∷ record { value = "FR"; weight = lit 4 2 }
      ∷ record { value = "IN"; weight = lit 5 2 }
      ∷ record { value = "AU"; weight = lit 4 2 }
      ∷ record { value = "CA"; weight = lit 3 2 }
      ∷ []

  abbrev pub device_distribution : List (DeviceKind F)
  device_distribution =
      record { os = "iOS"; device_type = 4; weight = lit 45 2 }
      ∷ record { os = "Android"; device_type = 4; weight = lit 50 2 }
      ∷ record { os = "Windows"; device_type = 2; weight = lit 4 2 }
      ∷ record { os = "macOS"; device_type = 2; weight = lit 1 2 }
      ∷ []

  -- The first loop of `pickWeightedIndex`.
  abbrev pub total_from : F → List F → F
  total_from total [] = total
  total_from total (w ∷ ws) = total_from (add total w) ws

  -- The second loop, from index `i`; `none` is the end of the list.
  unfoldable pub reach_from : F → F → ℕ → List F → Option ℕ
  reach_from r cumulative i [] = none
  reach_from r cumulative i (w ∷ ws) =
      let next = reach_from r (add cumulative w) (suc i) ws in
      if le r (add cumulative w) then some i else next

  -- `len(weights) - 1`; no list of weights in the code is empty.
  abbrev pub or_last : List F → Option ℕ → ℕ
  or_last weights none = length weights - 1
  or_last weights (some i) = i

  unfoldable pub pick_index : F → List F → ℕ
  unfolding reach_from
  pick_index r weights = or_last weights (reach_from r (lit 0 0) 0 weights)

  module _ {W : Type 0} (g : Rng F W) where
    open g use {float64, intn, shuffle}

    unfoldable pub pick_weighted_index : List F → Partial W ℕ
    unfolding pick_index
    pick_weighted_index weights = do
      u ← call float64
      pure (pick_index (mul u (total_from (lit 0 0) weights)) weights)

    unfoldable pub pick_yob : Partial W ℤ
    unfolding pick_weighted_index
    pick_yob = do
      i ← pick_weighted_index (map (λ a. a.weight) age_groups)
      group ← index age_groups i
      k ← draw intn (group.yob_max + 1 - group.yob_min)
      pure (pos (group.yob_min + k))

    -- `pickWeighted` and `pickWeightedGeo`.
    unfoldable pub pick_weighted : List (Share F) → Partial W String
    unfolding pick_weighted_index
    pick_weighted items = do
      i ← pick_weighted_index (map (λ s. s.weight) items)
      item ← index items i
      pure item.value

    unfoldable pub pick_interests : ℕ → Partial W (List String)
    pick_interests n = do
      pool ← call (shuffle interest_pool)
      pure (take (if ltb (length pool) n then length pool else n) pool)

    unfoldable pub pick_ssp : Partial W String
    pick_ssp = do i ← draw intn (length ssp_partners); index ssp_partners i

    unfoldable pub device_info : Partial W (Device F)
    unfolding pick_weighted_index user_agent
    device_info = do
      i ← pick_weighted_index (map (λ d. d.weight) device_distribution)
      d ← index device_distribution i
      a ← draw intn 256
      b ← draw intn 256
      c ← draw intn 256
      e ← draw intn 256
      pure (record {
        ua = user_agent d.os;
        ip = show_ip a b c e;
        geo = none;
        make = "";
        model = "";
        os = d.os;
        osv = "";
        device_type = pos d.device_type;
        js = pos 0;
        language = "";
        carrier = "";
        ifa = "";
      })

  unfoldable pub generate_user : (s : Sources F) → Partial s.World (User F)
  unfolding pick_yob pick_weighted pick_interests
  generate_user s = do
    id ← call s.new_uuid
    yob ← pick_yob s.user_rng
    gender ← pick_weighted s.user_rng genders
    country ← pick_weighted s.user_rng geo_distribution
    interests ← pick_interests s.user_rng 3
    pure (record {
      id = id;
      yob = yob;
      gender = gender;
      geo = some (record {
        lat = lit 0 0;
        lon = lit 0 0;
        country = country;
        region = "";
        city = "";
        zip = "";
      });
      interests = interests;
    })
