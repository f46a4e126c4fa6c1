-- ===== src/Simulator/Random.antt =====
-- math/rand, the uuid package and the clock, as internal/simulator uses them.
use mathlib.Core.List.{Permᴰ}
use bidflock.Prelude.{ℕ, ◌<◌, ◌≡◌, false, true, List, String, str_eq}
use bidflock.Prelude.State.{Act}
use bidflock.Prelude.Float.{Float64, ◌≼◌}
use bidflock.Models.Campaign.{Time}

-- A `*rand.Rand`: a number from 0 to 1, a number below the argument, a list in another order.
pub record Rng (F : Type 0) (W : Type 0) : Type 0 where
  pub float64 : Act W F
  pub intn : ℕ → Act W ℕ
  pub shuffle : List String → Act W (List String)

-- The generators have one source each; their state is part of the world.
pub record Sources (F : Type 0) : Type 1 where
  pub World : Type 0
  pub user_rng : Rng F World
  pub rng : Rng F World
  pub new_uuid : Act World String
  pub now : Act World Time

-- What the packages document: `Float64` is in [0, 1), `Intn n` is below a positive n, `Shuffle`
-- permutes, and a uuid is not empty.
pub record IsRng {F W : Type 0} ⦃f : Float64 F⦄ (g : Rng F W) : Type 0 where
  pub float_range :
      (w : W) → (f.lit 0 0 ≼ (g.float64 w).0) × (f.lt (g.float64 w).0 (f.lit 1 0) ≡ true)
  pub intn_lt : (n : ℕ) (w : W) → 0 < n → (g.intn n w).0 < n
  pub shuffle_perm : (xs : List String) (w : W) → Permᴰ xs (g.shuffle xs w).0

pub record IsSources {F : Type 0} ⦃f : Float64 F⦄ (s : Sources F) : Type 1 where
  pub users : IsRng s.user_rng
  pub requests : IsRng s.rng
  pub uuid : (w : s.World) → str_eq (s.new_uuid w).0 "" ≡ false
