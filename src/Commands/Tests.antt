-- ===== src/Commands/Tests.antt =====
-- Commands whose calls all succeed, with nothing set in the environment.
use bidflock.Prelude.{◌≡◌, refl, Bool, true, false, none, [], ◌∷◌}
use bidflock.Prelude.Int.{pos}
use bidflock.Simulator.Traffic.{pattern_steady}
use bidflock.Commands.Process.{Call, ping_redis, called, signal, Env, env_or}
use bidflock.Commands.Services.{budget_main}
use bidflock.Commands.Simulate.{Flags}

abbrev healthy : Call → Bool
healthy _ = true

abbrev unset : Env
unset _ = ""

abbrev flags : Flags
flags = record {
  traffic = record { target_qps = pos 100; duration = 60_000_000_000; pattern = pattern_steady };
  bid_url = "http://localhost:8081/bid";
  kafka_brokers = "localhost:9092";
  json_path = "./benchmark.json";
  csv_path = "./benchmark.csv";
}

abbrev no_redis : Call → Bool
no_redis (ping_redis _ _) = false
no_redis _ = true

-- Without Redis the budget service tries nothing else.
stops_without_redis :
    budget_main no_redis unset signal [] ≡ (none, called (ping_redis "localhost:6379" 1) false ∷ [])
unfolding budget_main env_or
stops_without_redis = refl
