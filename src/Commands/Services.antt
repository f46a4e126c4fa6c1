-- ===== src/Commands/Services.antt =====
-- The main functions of the five services.
use bidflock.Prelude.{ℕ, Bool, List, [], ◌∷◌, String}
use bidflock.Campaigns.Service.{campaign_topic}
use bidflock.Commands.Process.{
  Call, ping_redis, dial_scoring, dial_budget, connect_mongo, ping_mongo, create_indexes,
  new_writer, new_producer, new_consumer, run_consumer, serve_http, serve_grpc, cancelled,
  shut_down, paused, disconnected, closed, producer, consumer, writer, Proc, ◌>>◌, does, started,
  Ending, signal, wait, Env, env_or, attempt, must,
}

-- The databases of Redis, from pkg/redis.
abbrev pub db_budget : ℕ
db_budget = 1

abbrev pub db_feature_store : ℕ
db_feature_store = 3

abbrev pub db_auction : ℕ
db_auction = 4

abbrev kafka_brokers : Env → List String
kafka_brokers env = env_or env "KAFKA_BROKERS" "localhost:9092" ∷ []

abbrev redis_addr : Env → String
redis_addr env = env_or env "REDIS_ADDR" "localhost:6379"

module _ (answer : Call → Bool) (env : Env) (ending : Ending) where
  unfoldable pub bidding_main : Proc (Unit {0})
  bidding_main = do
    must answer (ping_redis (redis_addr env) db_auction)
    must answer (dial_scoring (env_or env "SCORING_ADDR" "localhost:8084"))
    must answer (dial_budget (env_or env "BUDGET_ADDR" "localhost:8083"))
    must answer (new_producer (kafka_brokers env))
    must answer (new_consumer (kafka_brokers env) "bidding-service" (campaign_topic ∷ []))
    does (started run_consumer)
    does (started (serve_http (env_or env "LISTEN_ADDR" ":8081") 100 200 200))
    wait ending
    does cancelled
    does (shut_down 5)
    does (closed consumer)
    does (closed producer)

  unfoldable pub campaign_main : Proc (Unit {0})
  campaign_main = do
    must answer (connect_mongo (env_or env "MONGO_URI" "mongodb://localhost:27017"))
    must answer ping_mongo
    must answer (new_producer (kafka_brokers env))
    attempt answer create_indexes
    does (started (serve_http (env_or env "LISTEN_ADDR" ":8082") 30_000 10_000 10_000))
    wait ending
    does (shut_down 15)
    does disconnected
    does (closed producer)

  -- A service that answers gRPC calls and follows the campaigns.
  abbrev follower_main : ℕ → String → String → Proc (Unit {0})
  follower_main db group addr = do
    must answer (ping_redis (redis_addr env) db)
    must answer (new_consumer (kafka_brokers env) group (campaign_topic ∷ []))
    does (started run_consumer)
    does (started (serve_grpc (env_or env "GRPC_ADDR" addr)))
    wait ending
    does cancelled
    does (closed consumer)

  unfoldable pub budget_main : Proc (Unit {0})
  budget_main = follower_main db_budget "budget-service" ":8083"

  unfoldable pub scoring_main : Proc (Unit {0})
  scoring_main = follower_main db_feature_store "scoring-service" ":8084"

module _ (answer : Call → Bool) (env : Env) where
  -- It serves nothing, so that only a signal ends its wait.
  unfoldable pub consumer_main : Proc (Unit {0})
  consumer_main = do
    must answer (new_writer (env_or env "CLICKHOUSE_ADDR" "localhost:9000") 500 5)
    must answer (
        new_consumer (kafka_brokers env) "ad-event-consumer"
          ("impressions" ∷ "clicks" ∷ "conversions" ∷ []))
    does (started run_consumer)
    wait signal
    does cancelled
    does (paused 2)
    does (closed consumer)
    does (closed writer)
