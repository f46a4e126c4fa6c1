-- ===== src/Seed/Tests.antt =====
-- The script against a campaign service that answers with what it is sent.
use mathlib.Core.List.Permᴰ
use bidflock.Prelude.{ℕ, ◌+◌, ◌-◌, refl, some, none}
use bidflock.Prelude.Int.{pos}
use bidflock.Prelude.Fixed.{Fixed, fixed_float}
use bidflock.Prelude.Partial.{Returns}
use bidflock.Models.Campaign.{Advertiser, Campaign, Ad}
use bidflock.Simulator.Random.{Rng, IsRng}
use bidflock.Seed.Data.{Host}
use bidflock.Seed.Script.{seed}
use bidflock.Seed.Bounds.{IsSmall, seed-IsSmall}

data Body : Type 0 where
  advertiser : Advertiser → Body
  campaign : Campaign Fixed → Body
  ad : Ad → Body

abbrev half : Rng Fixed ℕ
half = record {
  float64 = λ w. (pos 500_000, w + 1);
  intn = λ n w. (0, w + 1);
  shuffle = λ xs w. (xs, w + 1);
}

half-IsRng : IsRng half
half-IsRng = record {
  float_range = λ w. (refl, refl);
  intn_lt = λ n w h. h;
  shuffle_perm = λ xs w. Permᴰ.refl xs;
}

abbrev host : Host Fixed
host = record {
  World = ℕ;
  Data = Body;
  rng = half;
  now = λ w. (62_135_596_800_000_000_000, w);
  months_after = λ n t. t + n;
  days_before = λ n t. t - n;
  new_uuid = λ w. ("uuid", w);
  bytes = record { first = λ s. 97; rest = λ s. ""; of_byte = λ n. "A" };
  advertisers = record {
    marshal = λ x. some (advertiser x);
    unmarshal = λ b. elim b [ advertiser x ↦ some x | _ ↦ none ];
  };
  campaigns = record {
    marshal = λ x. some (campaign x);
    unmarshal = λ b. elim b [ campaign x ↦ some x | _ ↦ none ];
  };
  ads = record { marshal = λ x. some (ad x); unmarshal = λ b. elim b [ ad x ↦ some x | _ ↦ none ] };
  http_post = λ path body w. (some (201, body), w + 1);
}

seed-IsSmall_example : Returns (λ r. IsSmall r.0 r.1) (seed host 0)
seed-IsSmall_example = seed-IsSmall host half-IsRng 0
