-- ===== src/Budget/Window.antt =====
-- `IsCapped` counts the impressions inside the window.
use bidflock.Prelude.{
  ℕ, suc, ◌≤◌, ◌≡◌, refl, sym, ap, subst, ◌∙◌, inl, inr, Bool, Option, none, some, List, [], ◌∷◌,
  String, eq_refl, leb, ltb, arith, length, if◌then◌else◌,
}
use bidflock.Prelude.State.{Act, command}
use bidflock.Prelude.Float.{Float64}
use bidflock.Budget.Keys.{freq_cap_key}
use bidflock.Budget.Redis.{Redis, IsRedis, without_range}
use bidflock.Budget.Limiter.{default_freq_cap_limit, window_start, count_entries, is_capped}

-- The impressions later than the start of the window, counted without removing any.
abbrev pub count_after {ℓ} : {A : Type ℓ} → ℕ → List (ℕ × A) → ℕ
count_after start [] = 0
count_after start ((t, _) ∷ es) =
    if ltb start t then suc (count_after start es) else count_after start es

length-without_range {ℓ} :
    {A : Type ℓ} (start : ℕ) (es : List (ℕ × A))
    → length (without_range 0 start es) ≡ count_after start es
length-without_range start [] = refl
length-without_range start ((t, m) ∷ es) = ground (arith, length-without_range start es)

pub count_after-le {ℓ} :
    {A : Type ℓ} (start : ℕ) (es : List (ℕ × A)) → count_after start es ≤ length es
count_after-le start [] = omega arith
count_after-le start ((t, m) ∷ es) = ground (arith, count_after-le start es)

module _ {F : Type 0} ⦃f : Float64 F⦄ (redis : Redis F) (laws : IsRedis redis)
    (id user : String) where
  open redis use {World, holds, entries, clock, send, z_rem_range_by_score}
  open laws use {sent, clock_holds, clock_entries, z_rem_holds, z_rem_entries}

  count_keeps :
      (o : Option (Unit {0})) (w : World) → (count_entries redis (freq_cap_key id user) o w).1 ≡ w
  unfolding count_entries
  count_keeps none w = refl
  count_keeps (some _) w = elim (sent ℕ (λ v. (length (entries v (freq_cap_key id user)), v)) w) [
    | inl e ↦ ap (λ p. p.1) e
    | inr (inl e) ↦ ap (λ p. p.1) e
    | inr (inr e) ↦ ap (λ p. p.1) e
  ]

  -- The check changes no key but the window's own.
  pub is_capped_holds : (w : World) → holds (is_capped redis id user w).1 ≡ holds w
  unfolding is_capped
  is_capped_holds w =
      let key = freq_cap_key id user in
      let w1 = (clock w).1 in
      let start = window_start (clock w).0.unix_milli in
      let cmd : Act World (Unit {0}) = command (z_rem_range_by_score key 0 start) in
      let removed = send (Unit {0}) cmd w1 in
      ap holds (count_keeps removed.0 removed.1) ∙ elim (sent (Unit {0}) cmd w1) [
        | inl e ↦ ap (λ p. holds p.1) e ∙ z_rem_holds key 0 start w1 ∙ clock_holds w
        | inr (inl e) ↦ ap (λ p. holds p.1) e ∙ clock_holds w
        | inr (inr e) ↦ ap (λ p. holds p.1) e ∙ z_rem_holds key 0 start w1 ∙ clock_holds w
      ]

  counted :
      (w : World) {b : Bool}
      → (count_entries redis (freq_cap_key id user) (some tt) w).0 ≡ some b
      → b ≡ leb default_freq_cap_limit (length (entries w (freq_cap_key id user)))
  unfolding count_entries
  counted w h = elim (sent ℕ (λ v. (length (entries v (freq_cap_key id user)), v)) w) [
    | inl e ↦ ground arith
    | inr (inl e) ↦ ground arith
    | inr (inr e) ↦ ground arith
  ]

  abbrev Answers : ℕ → World → Bool → Option (Unit {0}) × World → Type 0
  Answers start w b (o, v) =
      let out = count_entries redis (freq_cap_key id user) o v in
      let seen = entries w (freq_cap_key id user) in
      out.0 ≡ some b
      → (b ≡ leb default_freq_cap_limit (count_after start seen))
        × (entries out.1 (freq_cap_key id user) ≡ without_range 0 start seen)

  removed_Answers :
      (start : ℕ) (w v : World) (b : Bool)
      → entries v (freq_cap_key id user) ≡ without_range 0 start (entries w (freq_cap_key id user))
      → Answers start w b (some tt, v)
  removed_Answers start w v b e h = (
    counted v h
        ∙ ap (λ es. leb default_freq_cap_limit (length es)) e
        ∙ ap (leb default_freq_cap_limit) (length-without_range start _),
    ap (λ u. entries u (freq_cap_key id user)) (count_keeps (some tt) v) ∙ e,
  )

  lost_Answers : (start : ℕ) (w v : World) (b : Bool) → Answers start w b (none, v)
  unfolding count_entries
  lost_Answers start w v b h = absurd (cc)

  -- When `IsCapped` answers, the user is capped exactly if at least five impressions of the campaign
  -- are later than 24 hours ago, and the older ones are gone from the set.
  pub is_capped_lem :
      (w : World) {b : Bool}
      → (is_capped redis id user w).0 ≡ some b
      → let key = freq_cap_key id user in
        let start = window_start (clock w).0.unix_milli in
        (b ≡ leb default_freq_cap_limit (count_after start (entries w key)))
        × (entries (is_capped redis id user w).1 key ≡ without_range 0 start (entries w key))
  unfolding is_capped
  is_capped_lem w {b} =
      let key = freq_cap_key id user in
      let w1 = (clock w).1 in
      let start = window_start (clock w).0.unix_milli in
      let cmd : Act World (Unit {0}) = command (z_rem_range_by_score key 0 start) in
      elim (sent (Unit {0}) cmd w1) [
        | inl e ↦ subst (Answers start w b) (sym e) (
            removed_Answers start w _ b
              (trimmed start w1 ∙ ap (λ g. without_range 0 start (g key)) (clock_entries w)))
        | inr (inl e) ↦ subst (Answers start w b) (sym e) (lost_Answers start w _ b)
        | inr (inr e) ↦ subst (Answers start w b) (sym e) (lost_Answers start w _ b)
      ]
    where
      trimmed :
          (start : ℕ) (v : World)
          → entries (z_rem_range_by_score (freq_cap_key id user) 0 start v) (freq_cap_key id user)
            ≡ without_range 0 start (entries v (freq_cap_key id user))
      trimmed start v = rw (z_rem_entries, eq_refl (freq_cap_key id user))
