-- ===== src/Simulator/Traffic.antt =====
-- internal/simulator/traffic.go: the load of each second, `Run` and the bursts that it starts.
-- A time or a duration is a number of nanoseconds; `now` is the time that `Run` reads on a tick.
use bidflock.Prelude.{
  ℕ, zero, suc, ◌+◌, ◌*◌, ◌/◌, List, [], ◌∷◌, String, str_eq, ltb, if◌then◌else◌,
}
use bidflock.Prelude.Int.{ℤ, pos, negsuc}
use bidflock.Prelude.Float.{Float64}

abbrev pub Pattern : Type 0
Pattern = String

abbrev pub pattern_steady : Pattern
pattern_steady = "steady"

abbrev pub pattern_spike : Pattern
pattern_spike = "spike"

abbrev pub pattern_ramp : Pattern
pattern_ramp = "ramp"

abbrev pub pattern_diurnal : Pattern
pattern_diurnal = "diurnal"

-- The switch of cmd/simulator/main.go: an unknown pattern is the steady one.
abbrev pub known_pattern : Pattern → Pattern
known_pattern pat =
    if str_eq pat pattern_steady
    then pat
    else if str_eq pat pattern_spike
    then pat
    else if str_eq pat pattern_ramp
    then pat
    else if str_eq pat pattern_diurnal
    then pat
    else pattern_steady

pub record TrafficConfig : Type 0 where
  pub target_qps : ℤ
  pub duration : ℕ
  pub pattern : Pattern

-- Go's conversions between numbers, `Duration.Seconds`, and what the file uses of package math.
pub record Math (F : Type 0) : Type 0 where
  pub of_int : ℤ → F
  pub to_int : F → ℤ
  pub seconds : ℕ → F
  pub sin : F → F
  pub abs : F → F
  pub pi : F

abbrev pub one_second : ℕ
one_second = 1_000_000_000

-- `baseQPS * 3`, where an `int` of 64 bits has the room.
abbrev pub triple : ℤ → ℤ
triple (pos n) = pos (n * 3)
triple (negsuc n) = negsuc (n * 3 + 2)

-- One event of the select in `Run`: the context is done, or the ticker fires.
pub data Wake : Type 0 where
  cancelled : Wake
  tick : ℕ → Wake

pub data Outcome : Type 0 where
  running : Outcome
  stopped : Outcome
  interrupted : Outcome

-- The bursts that `Run` has started, each with its second and its target, and how `Run` stands.
pub record Progress : Type 0 where
  pub bursts : List (ℕ × ℤ)
  pub outcome : Outcome

abbrev pub after_burst : ℕ → ℤ → Progress → Progress
after_burst second qps rest = record rest { bursts = (second, qps) ∷ rest.bursts }

module _ {F : Type 0} ⦃f : Float64 F⦄ (math : Math F) (cfg : TrafficConfig) where
  open f use {lit, add, mul, div, lt}
  open math use {of_int, to_int, seconds, sin, abs, pi}
  open cfg use {target_qps, duration, pattern}

  abbrev pub progress_at : ℕ → F
  progress_at second = div (of_int (pos second)) (of_int (to_int (seconds duration)))

  unfoldable pub qps_for_second : ℕ → ℤ
  qps_for_second second =
      let progress = progress_at second in
      if str_eq pattern pattern_steady
      then target_qps
      else if str_eq pattern pattern_ramp
      then to_int (mul (of_int target_qps) (add (lit 1 1) (mul (lit 9 1) progress)))
      else if str_eq pattern pattern_spike
      then if lt progress (lit 30 2)
        then target_qps
        else if lt progress (lit 50 2)
        then triple target_qps
        else target_qps
      else if str_eq pattern pattern_diurnal
      then (let angle = mul (mul progress (lit 2 0)) pi in
          let multiplier = add (lit 3 1) (mul (lit 7 1) (abs (sin angle))) in
          to_int (mul (of_int target_qps) multiplier))
      else target_qps

  -- The loop of `Run` from a second on, over the events that its select receives.
  unfoldable pub run_from : ℕ → ℕ → List Wake → Progress
  unfolding qps_for_second
  run_from deadline second [] = record { bursts = []; outcome = running }
  run_from deadline second (cancelled ∷ wakes) = record { bursts = []; outcome = interrupted }
  run_from deadline second (tick now ∷ wakes) =
      let rest = run_from deadline (suc second) wakes in
      if ltb deadline now
      then record { bursts = []; outcome = stopped }
      else after_burst second (qps_for_second second) rest

  unfoldable pub run : ℕ → List Wake → Progress
  unfolding run_from
  run start wakes = run_from (start + duration) 0 wakes

-- The times at which the loop of `sendBurst` starts its requests, if `Sleep` takes just its interval.
abbrev pub burst_from : ℕ → ℕ → ℕ → List ℕ
burst_from at interval zero = []
burst_from at interval (suc n) = at ∷ burst_from (at + interval) interval n

unfoldable pub send_burst : ℕ → ℤ → List ℕ
send_burst at (pos zero) = []
send_burst at (pos (suc n)) = burst_from at (one_second / suc n) (suc n)
send_burst at (negsuc _) = []
