-- ===== src/Simulator/Bursts.antt =====
-- When `Run` of traffic.go starts its bursts, when it ends, and when the requests of a burst start.
use bidflock.Prelude.{
  ℕ, zero, suc, ◌+◌, ◌*◌, ◌/◌, ◌≤◌, ◌<◌, ◌≡◌, refl, ap, List, [], ◌∷◌, All, length, map, ltb, true,
  Bool, not, ◌&&◌, ◌||◌, str_eq, if◌then◌else◌, false, if-intro, arith,
}
use bidflock.Prelude.Int.{ℤ, pos}
use bidflock.Prelude.Float.{Float64}
use native.Mathlib.Nat.{div-mul-le_self}
use bidflock.Simulator.Traffic.{
  TrafficConfig, Math, Wake, Outcome, Progress, cancelled, tick, running, stopped, interrupted,
  progress_at, triple, pattern_spike, pattern_ramp, pattern_diurnal, one_second, qps_for_second,
  run_from, run, burst_from, send_burst,
}

-- The ticker fires once a second and never early: tick `k`, from 0, is at least k + 1 seconds after
-- the start.
abbrev pub IsPaced : ℕ → ℕ → List Wake → Type 0
IsPaced start k [] = Unit
IsPaced start k (cancelled ∷ wakes) = Unit
IsPaced start k (tick now ∷ wakes) =
    (start + (k + 1) * one_second ≤ now) × IsPaced start (suc k) wakes

abbrev pub up_from : ℕ → ℕ → List ℕ
up_from k zero = []
up_from k (suc n) = k ∷ up_from (suc k) n

abbrev pub IsEnded : Outcome → Type 0
IsEnded running = true ≡ false
IsEnded stopped = Unit
IsEnded interrupted = Unit

-- How many ticks come before the first that is past the deadline and before any cancellation.
abbrev pub on_time : ℕ → List Wake → ℕ
on_time deadline [] = 0
on_time deadline (cancelled ∷ wakes) = 0
on_time deadline (tick now ∷ wakes) =
    let rest = on_time deadline wakes in if ltb deadline now then 0 else suc rest

module _ {F : Type 0} ⦃f : Float64 F⦄ (math : Math F) (cfg : TrafficConfig) where
  open f use {lit, lt}
  open cfg use {target_qps, duration, pattern}

  -- The second is in the spike: from 30 percent of the duration up to 50.
  abbrev is_spiked : ℕ → Bool
  is_spiked second =
      not (lt (progress_at math cfg second) (lit 30 2))
      && lt (progress_at math cfg second) (lit 50 2)

  -- The target of a second: by formula for a ramp and a diurnal load, else the target of the
  -- configuration, three times in a spike.
  abbrev target_of : ℕ → ℤ
  target_of second =
      if str_eq pattern pattern_ramp || str_eq pattern pattern_diurnal
      then qps_for_second math cfg second
      else if str_eq pattern pattern_spike && is_spiked second
      then triple target_qps
      else target_qps

  -- The bursts are for the seconds from `k` on, inside the duration, each with its target, as many as
  -- there are ticks on time.
  pub record InTime (start k : ℕ) (wakes : List Wake) (bursts : List (ℕ × ℤ)) : Type 0 where
    pub one_each : length bursts ≡ on_time (start + duration) wakes
    pub in_order : map (λ b. b.0) bursts ≡ up_from k (length bursts)
    pub inside : All (λ b. (b.0 + 1) * one_second ≤ duration) bursts
    pub on_target : All (λ b. b.1 ≡ target_of b.0) bursts

  run_from-IsEnded :
      (start k : ℕ) (wakes : List Wake)
      → IsPaced start k wakes
      → 0 < length wakes
      → duration < (k + length wakes) * one_second
      → IsEnded (run_from math cfg (start + duration) k wakes).outcome
  unfolding run_from
  run_from-IsEnded start k [] h some over = absurd (omega arith)
  run_from-IsEnded start k (cancelled ∷ wakes) h some over = tt
  run_from-IsEnded start k (tick now ∷ []) (late, h) some over =
      if-intro (λ (p : Progress). IsEnded p.outcome) (ltb (start + duration) now) (λ _. tt)
        (λ e. absurd (ground arith))
  run_from-IsEnded start k (tick now ∷ w ∷ wakes) (late, h) some over =
      let rest = run_from-IsEnded start (suc k) (w ∷ wakes) h (omega arith) (omega (arith, over)) in
      if-intro (λ (p : Progress). IsEnded p.outcome) (ltb (start + duration) now) (λ _. tt)
        (λ _. rest)

  -- When the ticker never fires early, Run has ended once it has received more events than the
  -- duration has seconds.
  pub run-IsEnded :
      (start : ℕ) (wakes : List Wake)
      → IsPaced start 0 wakes
      → duration < length wakes * one_second
      → IsEnded (run math cfg start wakes).outcome
  unfolding run
  run-IsEnded start wakes h over =
      run_from-IsEnded start 0 wakes h (omega arith) (omega (arith, over))

-- From the first time on, each is the next multiple of the gap.
abbrev pub IsEven : ℕ → ℕ → List ℕ → Type 0
IsEven gap at [] = Unit
IsEven gap at (t ∷ ts) = (t ≡ at) × IsEven gap (at + gap) ts

pub record FitsIn (at gap end : ℕ) (n : ℕ) (ts : List ℕ) : Type 0 where
  pub enough : length ts ≡ n
  pub even : IsEven gap at ts
  pub before_end : All (λ t. t + gap ≤ end) ts

burst_from-FitsIn :
    (at gap n end : ℕ) → at + gap * n ≤ end → FitsIn at gap end n (burst_from at gap n)
burst_from-FitsIn at gap zero end h = record { enough = refl; even = tt; before_end = tt }
burst_from-FitsIn at gap (suc n) end h =
    let rest = burst_from-FitsIn (at + gap) gap n end (grind arith) in
    record {
      enough = ap suc rest.enough;
      even = (refl, rest.even);
      before_end = (grind arith, rest.before_end);
    }

-- A burst of n requests, n above 0, starts n requests, the first at once and the others one even gap
-- after the other, and has slept for its last gap before the second is over.
pub send_burst-FitsIn :
    (at n : ℕ)
    → FitsIn at (one_second / suc n) (at + one_second) (suc n) (send_burst at (pos (suc n)))
unfolding send_burst
send_burst-FitsIn at n =
    let fits = div-mul-le_self one_second (suc n) in
    burst_from-FitsIn at (one_second / suc n) (suc n) (at + one_second) (omega (arith, fits))
