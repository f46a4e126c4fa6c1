-- ===== src/Consumers/Conserve.antt =====
-- Where the rows are that have been written.
use bidflock.Prelude.{
  ℕ, zero, suc, ◌+◌, ◌≡◌, refl, sym, ap, ◌∙◌, Bool, true, false, Option, none, some, List, [], ◌∷◌,
  ◌++◌, String, str_eq, length, is_empty, leb, eq_iff, if◌then◌else◌, if-intro, arith,
}
use bidflock.Consumers.Writer.{
  Thread, starting, inserting, Writer, Event, write, step, fire, close, rows_of, append_row,
  clear_rows, spawn, append, resume, take_rows, tagged, settle, run_thread, pull, run_pulled,
  flush_all, tables, run_event, run_events,
}

-- A weight of the rows by table. The indicator of one row makes the sums below its counts.
module _ {R : Type 0} (weight : String → R → ℕ) where
  abbrev pub weigh_rows : String → List R → ℕ
  weigh_rows t [] = 0
  weigh_rows t (row ∷ rows) = weight t row + weigh_rows t rows

  abbrev pub weigh_tagged : List (String × R) → ℕ
  weigh_tagged [] = 0
  weigh_tagged ((t, row) ∷ rows) = weight t row + weigh_tagged rows

  abbrev pub weigh_batches : List (String × List R) → ℕ
  weigh_batches [] = 0
  weigh_batches ((t, rows) ∷ bs) = weigh_rows t rows + weigh_batches bs

  abbrev pub weigh_thread : Thread R → ℕ
  weigh_thread (starting t rest) = 0
  weigh_thread (inserting t rows rest) = weigh_rows t rows

  abbrev pub weigh_threads : List (Thread R) → ℕ
  weigh_threads [] = 0
  weigh_threads (th ∷ ths) = weigh_thread th + weigh_threads ths

  -- The rows in the buffer, in the hands of a goroutine, in the database, and lost.
  abbrev pub weigh : Writer R → ℕ
  weigh s =
      weigh_batches s.batches
      + weigh_threads s.threads
      + (weigh_tagged s.stored + weigh_tagged s.failed)

  abbrev pub weigh_event : Event R → ℕ
  weigh_event (write t row) = weight t row
  weigh_event (step _ _) = 0
  weigh_event fire = 0
  weigh_event close = 0

  abbrev pub weigh_events : List (Event R) → ℕ
  weigh_events [] = 0
  weigh_events (e ∷ es) = weigh_event e + weigh_events es

  weigh_rows-append :
      (t : String) (xs ys : List R) → weigh_rows t (xs ++ ys) ≡ weigh_rows t xs + weigh_rows t ys
  weigh_rows-append t [] ys = omega arith
  weigh_rows-append t (x ∷ xs) ys = omega (arith, weigh_rows-append t xs ys)

  weigh_tagged-append :
      (xs ys : List (String × R)) → weigh_tagged (xs ++ ys) ≡ weigh_tagged xs + weigh_tagged ys
  weigh_tagged-append [] ys = omega arith
  weigh_tagged-append ((t, x) ∷ xs) ys = omega (arith, weigh_tagged-append xs ys)

  weigh_threads-append :
      (xs ys : List (Thread R)) → weigh_threads (xs ++ ys) ≡ weigh_threads xs + weigh_threads ys
  weigh_threads-append [] ys = omega arith
  weigh_threads-append (x ∷ xs) ys = omega (arith, weigh_threads-append xs ys)

  weigh_tagged-tagged :
      (t : String) (rows : List R) → weigh_tagged (tagged t rows) ≡ weigh_rows t rows
  weigh_tagged-tagged t [] = refl
  weigh_tagged-tagged t (row ∷ rows) = omega (arith, weigh_tagged-tagged t rows)

  weigh_batches-append_row :
      (t : String) (row : R) (bs : List (String × List R))
      → weigh_batches (append_row t row bs) ≡ weight t row + weigh_batches bs
  weigh_batches-append_row t row [] = omega arith
  weigh_batches-append_row t row ((u, rows) ∷ bs) =
      if-intro (λ l. weigh_batches l ≡ weight t row + (weigh_rows u rows + weigh_batches bs))
        (str_eq u t)
        (λ e.
          let same : weight u row ≡ weight t row = ap (λ k. weight k row) ((eq_iff u t).0 e) in
          omega (arith, weigh_rows-append u rows (row ∷ []), same))
        (λ _. omega (arith, weigh_batches-append_row t row bs))

  weigh_batches-clear_rows :
      (t : String) (bs : List (String × List R))
      → weigh_rows t (rows_of t bs) + weigh_batches (clear_rows t bs) ≡ weigh_batches bs
  weigh_batches-clear_rows t [] = omega arith
  weigh_batches-clear_rows t ((u, rows) ∷ bs) =
      by_key (str_eq u t) refl (weigh_batches-clear_rows t bs)
    where
      by_key :
          (b : Bool)
          → str_eq u t ≡ b
          → weigh_rows t (rows_of t bs) + weigh_batches (clear_rows t bs) ≡ weigh_batches bs
          → weigh_rows t (if b then rows else rows_of t bs)
              + weigh_batches (if b then (u, []) ∷ bs else (u, rows) ∷ clear_rows t bs)
            ≡ weigh_rows u rows + weigh_batches bs
      by_key true e h =
          let same : weigh_rows t rows ≡ weigh_rows u rows =
            ap (λ k. weigh_rows k rows) (sym ((eq_iff u t).0 e)) in
          omega (arith, same)
      by_key false e h = omega (arith, h)

  weigh-spawn : (th : Thread R) (s : Writer R) → weigh (spawn th s) ≡ weigh_thread th + weigh s
  weigh-spawn th s = omega (arith, weigh_threads-append s.threads (th ∷ []))

  weigh-append :
      (n : ℕ) (t : String) (row : R) (s : Writer R)
      → weigh (append n t row s) ≡ weight t row + weigh s
  unfolding append
  weigh-append n t row s =
      let after = record s { batches = append_row t row s.batches } in
      if-intro (λ v. weigh v ≡ weight t row + weigh s) (leb n (length (rows_of t after.batches)))
        (λ _.
          omega
            (arith, weigh-spawn (starting t none) after, weigh_batches-append_row t row s.batches))
        (λ _. omega (arith, weigh_batches-append_row t row s.batches))

  weigh-resume : (rest : Option (List String)) (s : Writer R) → weigh (resume rest s) ≡ weigh s
  unfolding resume
  weigh-resume none s = refl
  weigh-resume (some []) s = refl
  weigh-resume (some (t ∷ ts)) s = omega (arith, weigh-spawn (starting t (some ts)) s)

  weigh-empty : (t : String) (rows : List R) → is_empty rows ≡ true → weigh_rows t rows ≡ 0
  weigh-empty t [] e = refl
  weigh-empty t (row ∷ rows) e = absurd (cc)

  weigh-take_rows :
      (t : String) (rest : Option (List String)) (s : Writer R)
      → weigh (take_rows t rest s) ≡ weigh s
  unfolding take_rows
  weigh-take_rows t rest s =
      let rows = rows_of t s.batches in
      let after = record s { batches = clear_rows t s.batches } in
      if-intro (λ v. weigh v ≡ weigh s) (is_empty rows)
        (λ e. omega (
          arith,
          weigh-resume rest after,
          weigh_batches-clear_rows t s.batches,
          weigh-empty t rows e,
        ))
        (λ _.
          omega (
            arith,
            weigh-spawn (inserting t rows rest) after,
            weigh_batches-clear_rows t s.batches,
          ))

  weigh-settle :
      (t : String) (rows : List R) (inserted : Bool) (s : Writer R)
      → weigh (settle t rows inserted s) ≡ weigh_rows t rows + weigh s
  unfolding settle
  weigh-settle t rows true s =
      omega (arith, weigh_tagged-append s.stored (tagged t rows), weigh_tagged-tagged t rows)
  weigh-settle t rows false s =
      omega (arith, weigh_tagged-append s.failed (tagged t rows), weigh_tagged-tagged t rows)

  weigh-run_thread :
      (inserted : Bool) (th : Thread R) (s : Writer R)
      → weigh (run_thread inserted th s) ≡ weigh_thread th + weigh s
  unfolding run_thread
  weigh-run_thread inserted (starting t rest) s = omega (arith, weigh-take_rows t rest s)
  weigh-run_thread inserted (inserting t rows rest) s =
      weigh-resume rest (settle t rows inserted s) ∙ weigh-settle t rows inserted s

  -- A goroutine that has been pulled out carries its rows away from the others.
  abbrev IsPulled : List (Thread R) → Option (Thread R × List (Thread R)) → Type 0
  IsPulled ths none = Unit
  IsPulled ths (some (th, rest)) = weigh_thread th + weigh_threads rest ≡ weigh_threads ths

  pull-IsPulled : (n : ℕ) (ths : List (Thread R)) → IsPulled ths (pull n ths)
  pull-IsPulled n [] = tt
  pull-IsPulled zero (th ∷ ths) = refl
  pull-IsPulled (suc n) (th ∷ ths) = beyond (pull n ths) (pull-IsPulled n ths)
    where
      beyond :
          (o : Option (Thread R × List (Thread R)))
          → IsPulled ths o
          → IsPulled
              (th ∷ ths)
              (elim o [ none ↦ none | some (found, rest) ↦ some (found, th ∷ rest) ])
      beyond none h = tt
      beyond (some (found, rest)) h = omega (arith, h)

  weigh-run_pulled :
      (inserted : Bool) (o : Option (Thread R × List (Thread R))) (s : Writer R)
      → IsPulled s.threads o
      → weigh (run_pulled inserted o s) ≡ weigh s
  unfolding run_pulled
  weigh-run_pulled inserted none s h = refl
  weigh-run_pulled inserted (some (th, rest)) s h =
      omega (arith, weigh-run_thread inserted th (record s { threads = rest }), h)

  weigh-run_event :
      (n : ℕ) (e : Event R) (s : Writer R) → weigh (run_event n e s) ≡ weigh_event e + weigh s
  unfolding run_event flush_all
  weigh-run_event n (write t row) s = weigh-append n t row s
  weigh-run_event n (step i inserted) s =
      omega (arith, weigh-run_pulled inserted (pull i s.threads) s (pull-IsPulled i s.threads))
  weigh-run_event n fire s =
      if-intro (λ v. weigh v ≡ 0 + weigh s) s.timer
        (λ _. omega (arith, weigh-resume (some (tables s.batches)) (record s { timer = false })))
        (λ _. omega arith)
  weigh-run_event n close s =
      omega (arith, weigh-resume (some (tables s.batches)) (record s { timer = false }))

  -- No row is lost or doubled, however the appends, the flushes, the insertions, the timer and Close
  -- interleave: under every weight of the rows, the rows in the buffer, taken by a goroutine, stored
  -- or failed in an insertion weigh as much as those at the start and those written since.
  pub rows_conserved :
      (batch_size : ℕ) (es : List (Event R)) (s : Writer R)
      → weigh (run_events batch_size es s) ≡ weigh_events es + weigh s
  rows_conserved n [] s = omega arith
  rows_conserved n (e ∷ es) s =
      omega (arith, rows_conserved n es (run_event n e s), weigh-run_event n e s)
