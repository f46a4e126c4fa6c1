-- ===== src/Commands/Process.antt =====
-- A process of cmd/*/main.go as the list of what it does, over what its calls answer.
use bidflock.Prelude.{
  ℕ, Bool, true, false, Option, none, some, List, [], ◌∷◌, ◌++◌, String, str_eq, if◌then◌else◌,
}
use bidflock.Simulator.Traffic.{TrafficConfig}

-- The calls that may return an error.
pub data Call : Type 0 where
  ping_redis : String → ℕ → Call
  dial_scoring : String → Call
  dial_budget : String → Call
  connect_mongo : String → Call
  ping_mongo : Call
  create_indexes : Call
  new_writer : String → ℕ → ℕ → Call
  new_producer : List String → Call
  new_consumer : List String → String → List String → Call
  run_traffic : TrafficConfig → String → Call
  save_json : String → Call
  save_csv : String → Call

-- What runs in a goroutine of its own. The times of an HTTP server are in milliseconds: of a
-- request, of reading and of writing.
pub data Task : Type 0 where
  run_consumer : Task
  serve_http : String → ℕ → ℕ → ℕ → Task
  serve_grpc : String → Task
  await_interrupt : Task

-- What is closed by a deferred call.
pub data Resource : Type 0 where
  producer : Resource
  consumer : Resource
  writer : Resource

-- `called` has the answer, `false` for an error. `shut_down` and `paused` have seconds.
pub data Step : Type 0 where
  called : Call → Bool → Step
  started : Task → Step
  signalled : Step
  serving_failed : Step
  cancelled : Step
  shut_down : ℕ → Step
  paused : ℕ → Step
  disconnected : Step
  summarised : Step
  closed : Resource → Step

-- A part of `main` on the steps so far; `none` is `os.Exit(1)`, which runs no deferred call.
abbrev pub Proc : Type 0 → Type 0
Proc A = List Step → Option A × List Step

abbrev pub resume : {A B : Type 0} → (A → Proc B) → Option A × List Step → Option B × List Step
resume k (none, t) = (none, t)
resume k (some a, t) = k a t

infixl 5 ◌>>=◌ ◌>>◌
abbrev pub ◌>>=◌ : {A B : Type 0} → Proc A → (A → Proc B) → Proc B
◌>>=◌ m k t = resume k (m t)

abbrev pub ◌>>◌ : {A B : Type 0} → Proc A → Proc B → Proc B
◌>>◌ m k t = resume (λ _. k) (m t)

abbrev pub does : Step → Proc (Unit {0})
does s t = (some tt, t ++ (s ∷ []))

abbrev pub exit : {A : Type 0} → Proc A
exit t = (none, t)

-- How the wait for a signal ends: by one, or by a server that fails in its goroutine.
pub data Ending : Type 0 where
  signal : Ending
  failed_server : Ending

abbrev pub wait : Ending → Proc (Unit {0})
wait signal = does signalled
wait failed_server = does serving_failed >> exit

-- `os.Getenv`, which answers the empty text for an unset variable.
abbrev pub Env : Type 0
Env = String → String

unfoldable pub env_or : Env → String → String → String
env_or env key fallback = if str_eq (env key) "" then fallback else env key

module _ (answer : Call → Bool) where
  -- A call whose error is only logged as a warning.
  abbrev pub attempt : Call → Proc Bool
  attempt c t = (some (answer c), t ++ (called c (answer c) ∷ []))

  -- A call whose error ends the process.
  abbrev pub must : Call → Proc (Unit {0})
  must c t =
      if answer c then (some tt, t ++ (called c true ∷ [])) else (none, t ++ (called c false ∷ []))
