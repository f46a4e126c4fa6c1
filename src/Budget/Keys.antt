-- ===== src/Budget/Keys.antt =====
-- The Redis keys of internal/budget: `fmt.Sprintf` of the formats in service.go and limiter.go.
use text.Mathlib.TextLemmas.{append_assoc, append_inj}
use bidflock.Prelude.Text.{concat, digit}
use bidflock.Prelude.{
  ℕ, ◌/◌, ◌%◌, ◌≡◌, ◌≢◌, refl, sym, ◌∙◌, String, ltb, if◌then◌else◌, false, arith, eq_iff, str_eq,
  Bool-cases, inl, inr,
}

-- `%d` of an hour, which is below 24.
abbrev pub show_hour : ℕ → String
show_hour h = if ltb h 10 then digit h else concat (digit (h / 10)) (digit (h % 10))

-- keyDailyBudget
abbrev pub daily_key : String → String
daily_key id = concat "budget:daily:" id

-- keyHourlyBucket
abbrev pub hourly_key : String → ℕ → String
hourly_key id hour = concat "budget:hourly:" (concat id (concat ":" (show_hour hour)))

-- keyFreqCap
abbrev pub freq_cap_key : String → String → String
freq_cap_key id user = concat "freqcap:" (concat id (concat ":" user))

daily-ne-hourly : (a b : String) (h : ℕ) → daily_key a ≢ hourly_key b h
daily-ne-hourly a b h e =
    let rest : String = concat b (concat ":" (show_hour h)) in
    let split : concat "budget:d" (concat "aily:" a) ≡ concat "budget:h" (concat "ourly:" rest) =
      sym (append_assoc "budget:d" "aily:" a) ∙ e ∙ append_assoc "budget:h" "ourly:" rest in
    let heads : ◌≡◌ {A = String} "budget:d" "budget:h" = (append_inj split refl).0 in
    ground (arith, eq_iff "budget:d" "budget:h")

-- An hourly bucket is never the daily budget.
pub daily_not_hourly : (a b : String) (h : ℕ) → str_eq (hourly_key b h) (daily_key a) ≡ false
daily_not_hourly a b h = elim (Bool-cases (str_eq (hourly_key b h) (daily_key a))) [
  | inl e ↦ absurd (daily-ne-hourly a b h (sym ((eq_iff _ _).0 e)))
  | inr e ↦ e
]
