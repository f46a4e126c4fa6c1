-- ===== src/Commands/Orderly.antt =====
-- In which order a command sets up, runs and closes.
use mathlib.Core.List.{reverse}
use bidflock.Prelude.{
  ◌≡◌, Bool, true, false, ◌&&◌, not, Option, none, some, List, [], ◌∷◌, ◌++◌, if◌then◌else◌,
}
use bidflock.Commands.Process.{
  Call, ping_redis, dial_scoring, dial_budget, connect_mongo, create_indexes, new_writer,
  new_producer, new_consumer, run_traffic, Resource, producer, consumer, writer, Step, called,
  started, serving_failed, closed, disconnected,
}

-- What a successful call opens: a connection to a database or a gRPC service, or one of the
-- resources that are closed by a deferred call.
pub data Opened : Type 0 where
  redis_client : Opened
  grpc_conn : Opened
  mongo_client : Opened
  deferred : Resource → Opened

abbrev opened_by : Call → List Opened
opened_by (ping_redis _ _) = redis_client ∷ []
opened_by (dial_scoring _) = grpc_conn ∷ []
opened_by (dial_budget _) = grpc_conn ∷ []
opened_by (connect_mongo _) = mongo_client ∷ []
opened_by (new_writer _ _ _) = deferred writer ∷ []
opened_by (new_producer _) = deferred producer ∷ []
opened_by (new_consumer _ _ _) = deferred consumer ∷ []
opened_by _ = []

abbrev opens : List Step → List Opened
opens [] = []
opens (called c true ∷ t) = opened_by c ++ opens t
opens (_ ∷ t) = opens t

abbrev closes : List Step → List Opened
closes [] = []
closes (closed r ∷ t) = deferred r ∷ closes t
closes (disconnected ∷ t) = mongo_client ∷ closes t
closes (_ ∷ t) = closes t

-- The deferred resources, the connections to MongoDB, and those to Redis and over gRPC.
abbrev deferred_of : List Opened → List Resource
deferred_of [] = []
deferred_of (deferred r ∷ os) = r ∷ deferred_of os
deferred_of (_ ∷ os) = deferred_of os

abbrev mongo_of : List Opened → List Opened
mongo_of [] = []
mongo_of (mongo_client ∷ os) = mongo_client ∷ mongo_of os
mongo_of (_ ∷ os) = mongo_of os

abbrev left_open : List Opened → List Opened
left_open [] = []
left_open (redis_client ∷ os) = redis_client ∷ left_open os
left_open (grpc_conn ∷ os) = grpc_conn ∷ left_open os
left_open (_ ∷ os) = left_open os

-- The run of the traffic is the work of the process, no part of its set-up.
abbrev is_work : Call → Bool
is_work (run_traffic _ _) = true
is_work _ = false

-- The deferred resources are closed, the last opened first, and MongoDB is left. The connections to
-- Redis and over gRPC are never closed.
abbrev IsClosed : List Step → Type 0
IsClosed t =
    (deferred_of (closes t) ≡ reverse (deferred_of (opens t)))
    × (mongo_of (closes t) ≡ mongo_of (opens t))
    × (left_open (closes t) ≡ [])

module _ (needs : Call → Bool) where
  -- Nothing that the process needs is still to be set up.
  abbrev IsSetUp : List Step → Type 0
  IsSetUp [] = Unit
  IsSetUp (called c _ ∷ t) = ((needs c && not (is_work c)) ≡ false) × IsSetUp t
  IsSetUp (_ ∷ t) = IsSetUp t

  -- A failure of what the process needs is its last step and its exit, and there is no other exit.
  abbrev Halts : Option (Unit {0}) → List Step → Type 0
  Halts o [] = o ≡ some tt
  Halts o (called c false ∷ t) = if needs c then (o ≡ none) × (t ≡ []) else Halts o t
  Halts o (serving_failed ∷ t) = (o ≡ none) × (t ≡ [])
  Halts o (started _ ∷ t) = IsSetUp t × Halts o t
  Halts o (_ ∷ t) = Halts o t

  abbrev pub IsOrderly : Option (Unit {0}) × List Step → Type 0
  IsOrderly (o, t) = Halts o t × (o ≡ some tt → IsClosed t)

-- The failure to make the indexes is only logged.
abbrev pub service_needs : Call → Bool
service_needs create_indexes = false
service_needs _ = true

abbrev pub simulator_needs : Call → Bool
simulator_needs (run_traffic _ _) = true
simulator_needs _ = false
