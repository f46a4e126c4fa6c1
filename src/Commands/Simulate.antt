-- ===== src/Commands/Simulate.antt =====
-- cmd/simulator/main.go.
use bidflock.Prelude.{Bool, true, false, some, [], ◌∷◌, String}
use bidflock.Simulator.Traffic.{TrafficConfig, known_pattern}
use bidflock.Commands.Process.{
  Call, new_producer, run_traffic, save_json, save_csv, summarised, started, await_interrupt,
  cancelled, closed, producer, Proc, ◌>>=◌, ◌>>◌, does, attempt, must,
}

-- The flags. The paths of the results are made from the output directory and the time.
pub record Flags : Type 0 where
  pub traffic : TrafficConfig
  pub bid_url : String
  pub kafka_brokers : String
  pub json_path : String
  pub csv_path : String

abbrev pub configured : TrafficConfig → TrafficConfig
configured cfg = record cfg { pattern = known_pattern cfg.pattern }

-- The deferred `Close` of a producer that there is.
abbrev close_producer : Bool → Proc (Unit {0})
close_producer true t = does (closed producer) t
close_producer false t = (some tt, t)

-- Without a producer the simulation goes on. A cancelled run is no error.
unfoldable pub simulator_main : (Call → Bool) → Flags → Proc (Unit {0})
simulator_main answer flags = do
  has_producer ← attempt answer (new_producer (flags.kafka_brokers ∷ []))
  does (started await_interrupt)
  must answer (run_traffic (configured flags.traffic) flags.bid_url)
  does summarised
  attempt answer (save_json flags.json_path)
  attempt answer (save_csv flags.csv_path)
  does cancelled
  close_producer has_producer
