-- ===== src/Consumers/Tests.antt =====
-- A writer with batches of two rows.
use bidflock.Prelude.{arith, ℕ, ◌+◌, ◌≡◌, refl, true, false, List, [], ◌∷◌, String}
use bidflock.Consumers.Writer.{
  Writer, Event, write, step, close, run_event, run_events, append, run_pulled, flush_all,
}
use bidflock.Consumers.Conserve.{weigh, weigh_events, weigh_tagged, weigh_batches, rows_conserved}
use bidflock.Consumers.Drain.{IsDone, works, at_rest, emptied, close_drains}

abbrev start : Writer String
start = record { batches = []; threads = []; stored = []; failed = []; timer = true }

-- Three clicks; the flush that the second starts takes all three and fails, and `Close` follows.
abbrev events : List (Event String)
events =
    write "clicks" "c1"
    ∷ write "clicks" "c2"
    ∷ write "clicks" "c3"
    ∷ step 0 true
    ∷ close
    ∷ step 0 true
    ∷ step 0 false
    ∷ step 0 true
    ∷ []

abbrev each : String → String → ℕ
each _ _ = 1

rows_conserved_example :
    weigh each (run_events 2 events start) ≡ weigh_events each events + weigh each start
rows_conserved_example = rows_conserved each 2 events start

-- `Close` stops the timer, but the flushes that it waits for arm it again.
armed_again : (run_events 2 events start).timer ≡ true
unfolding run_event append run_pulled flush_all
armed_again = refl

abbrev waiting : List (String × List String)
waiting = ("clicks", "c1" ∷ "c2" ∷ []) ∷ ("impressions", []) ∷ ("conversions", "v1" ∷ []) ∷ []

close_drains_example :
    let end = run_events 2 (close ∷ works 6) (at_rest waiting [] [] true) in
    IsDone (emptied waiting) [] end
    × (weigh_tagged each end.stored ≡ weigh_tagged each [] + weigh_batches each waiting)
close_drains_example =
    close_drains 2 each waiting [] [] true 6 ((refl, (refl, tt)), ((refl, tt), (tt, tt)))
      (omega arith)
