-- ===== src/Budget/Pacing.antt =====
-- internal/budget/pacing.go. `GetMultiplier` and `getPacingInfo` call each other, so they take fuel,
-- the number of calls of `GetMultiplier` that may still be made: `none` is out of fuel.
use bidflock.Prelude.{ℕ, zero, suc, ◌+◌, ◌-◌, ◌%◌, Option, none, some, String, if◌then◌else◌}
use bidflock.Prelude.State.{Act, ◌>>=◌, pure}
use bidflock.Prelude.Float.{Float64}
use bidflock.Budget.Keys.{daily_key, hourly_key}
use bidflock.Budget.Redis.{Redis, Stored, absent, number, other, Reading}

-- `Get(key).Float64()`: the number, redis.Nil, or any other error.
pub data GetReply (F : Type 0) : Type 0 where
  found : F → GetReply F
  missing : GetReply F
  failed : GetReply F

abbrev pub to_reply : {F : Type 0} → Option (Stored F) → GetReply F
to_reply none = failed
to_reply (some absent) = missing
to_reply (some (number v)) = found v
to_reply (some other) = failed

pub record PacingInfo (F : Type 0) : Type 0 where
  pub spend_rate : F
  pub target_rate : F
  pub pacing_multiplier : F
  pub daily_spend_so_far : F
  pub daily_budget : F

module _ {F : Type 0} ⦃f : Float64 F⦄ where
  open f use {lit, add, sub, div, lt, le, eq}

  -- `v, _ := ...Float64()`: zero on an error.
  abbrev pub value_or_zero : GetReply F → F
  value_or_zero (found v) = v
  value_or_zero missing = lit 0 0
  value_or_zero failed = lit 0 0

  -- The switch of `GetMultiplier` on the ratio of the actual rate to the target.
  unfoldable pub throttle : F → F
  throttle ratio =
      if lt (lit 12 1) ratio
      then lit 3 1
      else if lt (lit 105 2) ratio
      then lit 7 1
      else if lt ratio (lit 8 1)
      then lit 1 0
      else lit 1 0

  unfoldable pub multiplier_of : F → F → F
  unfolding throttle
  multiplier_of spend target = if eq target (lit 0 0) then lit 1 0 else throttle (div spend target)

  abbrev pub remaining_hours : ℕ → ℕ → F
  remaining_hours hour minute =
      let left = sub (lit (24 - hour) 0) (div (lit minute 0) (lit 60 0)) in
      if le left (lit 0 0) then lit 5 1 else left

  abbrev pub make_info : F → F → F → Reading → Option F → Option (Option (PacingInfo F))
  make_info budget remaining spent now none = none
  make_info budget remaining spent now (some mult) = some (
      some (record {
        spend_rate = div spent (lit 3 0);
        target_rate = div remaining (remaining_hours now.hour now.minute);
        pacing_multiplier = mult;
        daily_spend_so_far = sub budget remaining;
        daily_budget = budget;
      }))

  abbrev pub multiplier_from : Option (Option (PacingInfo F)) → Option F
  multiplier_from none = none
  multiplier_from (some none) = some (lit 1 0)
  multiplier_from (some (some info)) = some (multiplier_of info.spend_rate info.target_rate)

  module _ (redis : Redis F) where
    open redis use {World, holds, clock, send}

    unfoldable pub get_float : String → Act World (GetReply F)
    get_float key w = let (r, w') = send (Stored F) (λ v. (holds v key, v)) w in (to_reply r, w')

    -- The spend of the hour that lies `i` hours back.
    unfoldable pub bucket : String → ℕ → ℕ → Act World F
    unfolding get_float
    bucket id hour i = do
      r ← get_float (hourly_key id ((hour + 24 - i) % 24))
      pure (value_or_zero r)

    unfoldable pub recent_spend : String → ℕ → Act World F
    unfolding bucket
    recent_spend id hour = do
      v0 ← bucket id hour 0
      v1 ← bucket id hour 1
      v2 ← bucket id hour 2
      pure (add (add (add (lit 0 0) v0) v1) v2)

    unfoldable pub with_budget :
        Act World (Option F) → String → F → GetReply F → Act World (Option (Option (PacingInfo F)))
    unfolding recent_spend
    with_budget multiplier id remaining missing = pure (some none)
    with_budget multiplier id remaining failed = pure (some none)
    with_budget multiplier id remaining (found budget) = do
      now ← clock
      spent ← recent_spend id now.hour
      mult ← multiplier
      pure (make_info budget remaining spent now mult)

    -- `getPacingInfo`, with the call of `GetMultiplier` passed in. `some none` is a nil result.
    unfoldable pub get_pacing_info :
        Act World (Option F) → String → F → Act World (Option (Option (PacingInfo F)))
    unfolding get_float with_budget
    get_pacing_info multiplier id remaining = do
      r ← get_float (daily_key id)
      with_budget multiplier id remaining r

    unfoldable pub get_multiplier : ℕ → String → F → Act World (Option F)
    unfolding get_pacing_info
    get_multiplier zero id remaining = pure none
    get_multiplier (suc fuel) id remaining = do
      info ← get_pacing_info (get_multiplier fuel id remaining) id remaining
      pure (multiplier_from info)
