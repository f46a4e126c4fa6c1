-- ===== src/Clients/Consumer.antt =====
-- pkg/kafka: the loop of `Run` and `Publish`. The logs are left out.
use bidflock.Prelude.{
  ℕ, zero, suc, Bool, true, false, Option, none, some, List, [], ◌∷◌, String, str_eq, is_empty,
  if◌then◌else◌,
}
use bidflock.Prelude.State.{Act, pure}
use bidflock.Rpc.Wire.{Codec}

-- The answer of `PollFetches`: the partitions that failed, and the records of the others.
pub record Fetches (R : Type 0) : Type 0 where
  pub errors : List String
  pub records : List R

-- A franz-go client of a group with its context. `commit` is `CommitUncommittedOffsets`; it and a
-- handler answer whether they returned no error.
pub record Client (R W : Type 0) : Type 0 where
  pub poll : Act W (Fetches R)
  pub is_done : W → Bool
  pub commit : Act W Bool

module _ {R W : Type 0} (client : Client R W) (handler : R → Act W Bool) where
  -- `EachRecord`: the error of a record does not stop the others.
  unfoldable pub each_record : List R → W → W
  each_record [] w = w
  each_record (r ∷ rs) w = each_record rs (handler r w).1

  -- The rest of a turn of the loop after the check of the context.
  unfoldable pub handle_fetches : Fetches R → W → W
  unfolding each_record
  handle_fetches fetches w =
      if is_empty fetches.errors then (client.commit (each_record fetches.records w)).1 else w

  -- `Run` for at most so many turns: whether its context has ended it, and the world.
  unfoldable pub run : ℕ → Act W Bool
  unfolding handle_fetches
  run zero w = (false, w)
  run (suc turns) w =
      let polled = client.poll w in
      let rest = run turns (handle_fetches polled.0 polled.1) in
      if client.is_done polled.1 then (true, polled.1) else rest

-- A `kgo.Record` as `Publish` makes it.
pub record ProducedRecord (Data : Type 0) : Type 0 where
  pub topic : String
  pub key : Option String
  pub value : Data

abbrev pub record_key : String → Option String
record_key key = if str_eq key "" then none else some key

abbrev produce_encoded :
    {Data W : Type 0}
    → (ProducedRecord Data → Act W Bool)
    → String
    → String
    → Option Data
    → Act W Bool
produce_encoded produce topic key none = pure false
produce_encoded produce topic key (some bytes) =
    produce (record { topic = topic; key = record_key key; value = bytes })

-- `Publish`, with `ProduceSync` as an argument: whether there is no error.
unfoldable pub publish :
    {Data A W : Type 0}
    → Codec Data A
    → (ProducedRecord Data → Act W Bool)
    → String
    → String
    → A
    → Act W Bool
publish codec produce topic key value = produce_encoded produce topic key (codec.marshal value)
