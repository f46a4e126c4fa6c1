-- ===== src/Consumers/Writer.antt =====
-- `BatchWriter` of internal/consumer/writer.go. Each part of a method that holds the mutex, and each
-- insertion, is one step, and the steps of the goroutines interleave in any order.
use bidflock.Prelude.{
  ℕ, zero, suc, Bool, true, false, Option, none, some, List, [], ◌∷◌, ◌++◌, map, String, str_eq,
  length, is_empty, leb, if◌then◌else◌,
}

-- A goroutine that flushes: about to take the rows of a table, or inserting those that it took. The
-- last argument is `none` for a lone `flush`, and otherwise the tables that `flushAll` has left.
pub data Thread (R : Type 0) : Type 0 where
  starting : String → Option (List String) → Thread R
  inserting : String → List R → Option (List String) → Thread R

-- The map of batches is an association list with the tables in any order. `stored` are the rows of
-- the insertions that succeeded, `failed` those of the others, which the code logs and forgets.
pub record Writer (R : Type 0) : Type 0 where
  pub batches : List (String × List R)
  pub threads : List (Thread R)
  pub stored : List (String × R)
  pub failed : List (String × R)
  pub timer : Bool

-- What happens: a row is appended, the goroutine at a place in the list takes its next step (its
-- insertion succeeds or not), the timer fires, or `Close` is called.
pub data Event (R : Type 0) : Type 0 where
  write : String → R → Event R
  step : ℕ → Bool → Event R
  fire : Event R
  close : Event R

module _ {R : Type 0} where
  abbrev pub rows_of : String → List (String × List R) → List R
  rows_of t [] = []
  rows_of t ((u, rows) ∷ bs) = if str_eq u t then rows else rows_of t bs

  -- `batches[table] = append(batches[table], row)`
  abbrev pub append_row : String → R → List (String × List R) → List (String × List R)
  append_row t row [] = (t, row ∷ []) ∷ []
  append_row t row ((u, rows) ∷ bs) =
      if str_eq u t then (u, rows ++ (row ∷ [])) ∷ bs else (u, rows) ∷ append_row t row bs

  -- `batches[table] = nil`
  abbrev pub clear_rows : String → List (String × List R) → List (String × List R)
  clear_rows t [] = []
  clear_rows t ((u, rows) ∷ bs) = if str_eq u t then (u, []) ∷ bs else (u, rows) ∷ clear_rows t bs

  abbrev pub spawn : Thread R → Writer R → Writer R
  spawn th s = record s { threads = s.threads ++ (th ∷ []) }

  -- `append`: a full batch starts a goroutine that flushes the table.
  unfoldable pub append : ℕ → String → R → Writer R → Writer R
  append batch_size t row s =
      let after = record s { batches = append_row t row s.batches } in
      if leb batch_size (length (rows_of t after.batches))
      then spawn (starting t none) after
      else after

  -- The goroutine goes on after one flush; the end of `flushAll` resets the timer.
  unfoldable pub resume : Option (List String) → Writer R → Writer R
  resume none s = s
  resume (some []) s = record s { timer = true }
  resume (some (t ∷ ts)) s = spawn (starting t (some ts)) s

  -- `flush` up to its insertion: it ends if there are no rows.
  unfoldable pub take_rows : String → Option (List String) → Writer R → Writer R
  unfolding resume
  take_rows t rest s =
      let rows = rows_of t s.batches in
      let after = record s { batches = clear_rows t s.batches } in
      if is_empty rows then resume rest after else spawn (inserting t rows rest) after

  -- The rows with their table.
  abbrev pub tagged : String → List R → List (String × R)
  tagged t rows = map (λ row. (t, row)) rows

  -- The end of `flush`, with the answer of `insertBatch`.
  unfoldable pub settle : String → List R → Bool → Writer R → Writer R
  settle t rows true s = record s { stored = s.stored ++ tagged t rows }
  settle t rows false s = record s { failed = s.failed ++ tagged t rows }

  unfoldable pub run_thread : Bool → Thread R → Writer R → Writer R
  unfolding take_rows settle resume
  run_thread inserted (starting t rest) s = take_rows t rest s
  run_thread inserted (inserting t rows rest) s = resume rest (settle t rows inserted s)

  -- The goroutine at a place, taken out of the list.
  abbrev pub pull : ℕ → List (Thread R) → Option (Thread R × List (Thread R))
  pull n [] = none
  pull zero (th ∷ ths) = some (th, ths)
  pull (suc n) (th ∷ ths) = elim (pull n ths) [
    | none ↦ none
    | some (found, rest) ↦ some (found, th ∷ rest)
  ]

  unfoldable pub run_pulled : Bool → Option (Thread R × List (Thread R)) → Writer R → Writer R
  unfolding run_thread
  run_pulled inserted none s = s
  run_pulled inserted (some (th, rest)) s = run_thread inserted th (record s { threads = rest })

  abbrev pub tables : List (String × List R) → List String
  tables bs = map (λ b. b.0) bs

  -- `flushAll` up to its first flush.
  unfoldable pub flush_all : Writer R → Writer R
  unfolding resume
  flush_all s = resume (some (tables s.batches)) s

  -- A timer that is not armed does not fire. `Close` stops it and runs `flushAll`.
  unfoldable pub run_event : ℕ → Event R → Writer R → Writer R
  unfolding append run_pulled flush_all
  run_event batch_size (write t row) s = append batch_size t row s
  run_event batch_size (step n inserted) s = run_pulled inserted (pull n s.threads) s
  run_event batch_size fire s = if s.timer then flush_all (record s { timer = false }) else s
  run_event batch_size close s = flush_all (record s { timer = false })

  abbrev pub run_events : ℕ → List (Event R) → Writer R → Writer R
  run_events batch_size [] s = s
  run_events batch_size (e ∷ es) s = run_events batch_size es (run_event batch_size e s)
