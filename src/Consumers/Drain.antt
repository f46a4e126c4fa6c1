-- ===== src/Consumers/Drain.antt =====
-- `Close` of internal/consumer/writer.go when every insertion succeeds.
use bidflock.Prelude.{
  ℕ, zero, suc, ◌+◌, ◌*◌, ◌≤◌, ◌≡◌, refl, ap, subst, ◌∙◌, Bool, true, false, some, List, [], ◌∷◌,
  map, All, String, str_eq, eq_refl, length, is_empty, if◌then◌else◌, if-intro, arith,
}
use bidflock.Consumers.Writer.{
  Writer, Event, step, close, rows_of, clear_rows, resume, take_rows, settle, run_thread,
  run_pulled, flush_all, tables, run_event, run_events,
}
use bidflock.Consumers.Conserve.{
  weigh_events, weigh_batches, weigh_tagged, weigh_threads, rows_conserved,
}

module _ {R : Type 0} where
  -- The keys of the map of batches differ.
  abbrev pub IsMap : List (String × List R) → Type 0
  IsMap [] = Unit
  IsMap ((t, _) ∷ bs) = All (λ u. str_eq t u ≡ false) (tables bs) × IsMap bs

  abbrev pub emptied : List (String × List R) → List (String × List R)
  emptied bs = map (λ b. (b.0, [])) bs

  abbrev clear_all : List String → List (String × List R) → List (String × List R)
  clear_all [] bs = bs
  clear_all (t ∷ ts) bs = clear_all ts (clear_rows t bs)

  clear_all-cons :
      (ts : List String) (t : String) (rows : List R) (bs : List (String × List R))
      → All (λ u. str_eq t u ≡ false) ts
      → clear_all ts ((t, rows) ∷ bs) ≡ (t, rows) ∷ clear_all ts bs
  clear_all-cons [] t rows bs _ = refl
  clear_all-cons (u ∷ us) t rows bs (e, h) =
      ap (λ b. clear_all us (if b then (t, []) ∷ bs else (t, rows) ∷ clear_rows u bs)) e
      ∙ clear_all-cons us t rows (clear_rows u bs) h

  clear_all-tables :
      (bs : List (String × List R)) → IsMap bs → clear_all (tables bs) bs ≡ emptied bs
  clear_all-tables [] _ = refl
  clear_all-tables ((t, rows) ∷ bs) (h, k) =
      ap (λ b. clear_all (tables bs) (if b then (t, []) ∷ bs else (t, rows) ∷ clear_rows t bs))
        (eq_refl t)
      ∙ clear_all-cons (tables bs) t [] bs h
      ∙ ap (λ l. (t, []) ∷ l) (clear_all-tables bs k)

  -- So many steps of the first goroutine, whose insertions succeed.
  abbrev pub works : ℕ → List (Event R)
  works zero = []
  works (suc m) = step 0 true ∷ works m

  abbrev pub at_rest :
      List (String × List R) → List (String × R) → List (String × R) → Bool → Writer R
  at_rest bs stored failed timer = record {
    batches = bs;
    threads = [];
    stored = stored;
    failed = failed;
    timer = timer;
  }

  -- No goroutine is left, and the batches and the failed rows are these.
  pub record IsDone (bs : List (String × List R)) (failed : List (String × R)) (s : Writer R)
      : Type 0 where
    pub no_threads : s.threads ≡ []
    pub batches_are : s.batches ≡ bs
    pub failed_are : s.failed ≡ failed

  module _ (n : ℕ) where
    idle :
        (m : ℕ) (bs : List (String × List R)) (stored failed : List (String × R)) (timer : Bool)
        → IsDone bs failed (run_events n (works m) (at_rest bs stored failed timer))
    unfolding run_event run_pulled
    idle zero bs stored failed timer = record {
      no_threads = refl;
      batches_are = refl;
      failed_are = refl;
    }
    idle (suc m) bs stored failed timer = idle m bs stored failed timer

    drains :
        (m : ℕ) (ts : List String) (bs : List (String × List R)) (stored failed : List (String × R))
        (timer : Bool)
        → 2 * length ts ≤ m
        → IsDone
            (clear_all ts bs)
            failed
            (run_events n (works m) (resume (some ts) (at_rest bs stored failed timer)))
    unfolding resume run_event run_pulled run_thread take_rows settle
    drains m [] bs stored failed timer h = idle m bs stored failed true
    drains zero (t ∷ ts) bs stored failed timer h = absurd (omega arith)
    drains (suc zero) (t ∷ ts) bs stored failed timer h = absurd (omega arith)
    drains (suc (suc m)) (t ∷ ts) bs stored failed timer h =
        if-intro
          (λ s. IsDone (clear_all ts (clear_rows t bs)) failed (run_events n (works (suc m)) s))
          (is_empty (rows_of t bs))
          (λ _. drains (suc m) ts (clear_rows t bs) stored failed timer (omega (arith, h)))
          (λ _. drains m ts (clear_rows t bs) _ failed timer (omega (arith, h)))

    weigh_batches-emptied :
        (weight : String → R → ℕ) (bs : List (String × List R))
        → weigh_batches weight (emptied bs) ≡ 0
    weigh_batches-emptied weight [] = refl
    weigh_batches-emptied weight (b ∷ bs) = omega (arith, weigh_batches-emptied weight bs)

    weigh_events-works : (weight : String → R → ℕ) (m : ℕ) → weigh_events weight (works m) ≡ 0
    weigh_events-works weight zero = refl
    weigh_events-works weight (suc m) = omega (arith, weigh_events-works weight m)

    -- Close drains the writer: if no goroutine is at work, and every insertion from then on succeeds,
    -- two steps for each table are enough to empty every batch. No goroutine is left then, no insertion
    -- has failed, and the rows of the batches are all stored, whatever weight counts them.
    pub close_drains :
        (weight : String → R → ℕ) (bs : List (String × List R)) (stored failed : List (String × R))
        (timer : Bool) (m : ℕ)
        → IsMap bs
        → 2 * length (tables bs) ≤ m
        → let end = run_events n (close ∷ works m) (at_rest bs stored failed timer) in
          IsDone (emptied bs) failed end
          × (weigh_tagged weight end.stored ≡ weigh_tagged weight stored + weigh_batches weight bs)
    unfolding run_event flush_all
    close_drains weight bs stored failed timer m distinct enough =
        let end = run_events n (close ∷ works m) (at_rest bs stored failed timer) in
        let over : IsDone (emptied bs) failed end =
          subst (λ l. IsDone l failed end) (clear_all-tables bs distinct)
            (drains m (tables bs) bs stored failed false enough) in
        let all = rows_conserved weight n (close ∷ works m) (at_rest bs stored failed timer) in
        (
          over,
          omega (
            arith,
            all,
            weigh_events-works weight m,
            weigh_batches-emptied weight bs,
            ap (weigh_batches weight) over.batches_are,
            ap (weigh_threads weight) over.no_threads,
            ap (weigh_tagged weight) over.failed_are,
          ),
        )
