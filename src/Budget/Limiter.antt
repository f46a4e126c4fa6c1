-- ===== src/Budget/Limiter.antt =====
-- internal/budget/limiter.go: the sliding window of impressions of a user, as a sorted set in Redis.
use bidflock.Prelude.{ℕ, ◌+◌, ◌-◌, Bool, Option, none, some, String, length, leb}
use bidflock.Prelude.State.{Act, ◌>>=◌, pure, command}
use bidflock.Budget.Keys.{freq_cap_key}
use bidflock.Budget.Redis.{Redis}

abbrev pub default_freq_cap_limit : ℕ
default_freq_cap_limit = 5

-- 24 hours in milliseconds.
abbrev pub default_freq_cap_window : ℕ
default_freq_cap_window = 86_400_000

-- The start of the window; readings of the clock are after 1 January 1970.
abbrev pub window_start : ℕ → ℕ
window_start now = now - default_freq_cap_window

-- `none` is an error.
abbrev pub over_limit : Option ℕ → Option Bool
over_limit none = none
over_limit (some count) = some (leb default_freq_cap_limit count)

module _ {F : Type 0} (redis : Redis F) where
  open redis use {World, entries, clock, send, z_add, z_rem_range_by_score, expire}

  unfoldable pub count_entries : String → Option (Unit {0}) → Act World (Option Bool)
  count_entries key none = pure none
  count_entries key (some _) = do n ← send ℕ (λ w. (length (entries w key), w)); pure (over_limit n)

  -- `IsCapped`
  unfoldable pub is_capped : String → String → Act World (Option Bool)
  unfolding count_entries
  is_capped id user = do
    now ← clock
    removed ←
        send (Unit {0})
          (command (z_rem_range_by_score (freq_cap_key id user) 0 (window_start now.unix_milli)))
    count_entries (freq_cap_key id user) removed

  unfoldable pub keep_for_cleanup : String → Option (Unit {0}) → Act World (Option (Unit {0}))
  keep_for_cleanup key none = pure none
  keep_for_cleanup key (some _) =
      send (Unit {0}) (command (expire key (default_freq_cap_window + 3_600_000)))

  -- `RecordImpression`; `none` is an error.
  unfoldable pub record_impression : String → String → String → Act World (Option (Unit {0}))
  unfolding keep_for_cleanup
  record_impression id user impression = do
    now ← clock
    added ← send (Unit {0}) (command (z_add (freq_cap_key id user) now.unix_milli impression))
    keep_for_cleanup (freq_cap_key id user) added
