-- ===== src/Clients/Tests.antt =====
-- A group with a script of fetches, and a store of texts.
use bidflock.Prelude.{
  ℕ, ◌≡◌, refl, inl, Bool, true, false, none, some, Option, List, [], ◌∷◌, ◌++◌, String, length,
  str_eq, eq_refl, ◌⊎◌, if◌then◌else◌, arith,
}
use bidflock.Prelude.Int.{pos}
use bidflock.Prelude.State.{Act}
use bidflock.Rpc.Wire.{Codec}
use bidflock.Clients.Consumer.{Client, Fetches, run, handle_fetches, each_record}
use bidflock.Clients.Delivered.{IsGroup, HasRun, run-IsBehind, HasLost, failed_fetch_loses}
use bidflock.Clients.Store.{
  Rdb, IsKeyed, Use, set_use, get_use, del_use, perform_all, set, get, get-set,
}

record Group : Type 0 where
  pub script : List (Fetches String)
  pub given : List String
  pub seen : List String
  pub through : ℕ

abbrev nothing : Fetches String
nothing = record { errors = []; records = [] }

abbrev next : List (Fetches String) → Fetches String
next [] = nothing
next (f ∷ fs) = f

abbrev later : List (Fetches String) → List (Fetches String)
later [] = []
later (f ∷ fs) = fs

-- The client answers what the script says, changed by a function.
abbrev client : (Fetches String → Fetches String) → Client String Group
client g = record {
  poll = λ w.
      let f = g (next w.script) in
      (f, record w { script = later w.script; given = w.given ++ f.records });
  is_done = λ w. false;
  commit = λ w. (true, record w { through = length w.given });
}

abbrev handler : String → Act Group Bool
handler r w = (true, record w { seen = w.seen ++ (r ∷ []) })

abbrev group : (g : Fetches String → Fetches String) → IsGroup (client g) handler
group g = record {
  delivered = λ w. w.given;
  handled = λ w. w.seen;
  committed = λ w. w.through;
  poll_delivered = λ w. refl;
  poll_handled = λ w. refl;
  poll_committed = λ w. refl;
  handler_delivered = λ r w. refl;
  handler_handled = λ r w. refl;
  handler_committed = λ r w. refl;
  commit_delivered = λ w. refl;
  commit_handled = λ w. refl;
  commit_committed = λ w. inl (refl, refl);
}

abbrev healthy : Fetches String → Fetches String
healthy f = record f { errors = [] }

abbrev scripted : Fetches String → Group
scripted f = record {
  script = f ∷ record { errors = []; records = "c" ∷ [] } ∷ [];
  given = [];
  seen = [];
  through = 0;
}

abbrev two_records : Group
two_records = scripted (record { errors = []; records = "a" ∷ "b" ∷ [] })

run-IsBehind_example :
    HasRun
      (client healthy)
      handler
      (group healthy)
      true
      ("a" ∷ "b" ∷ "c" ∷ [])
      []
      two_records
      (run (client healthy) handler 3 two_records).1
unfolding handle_fetches each_record
run-IsBehind_example =
    run-IsBehind (client healthy) handler (group healthy) (λ w. refl) true 3 two_records refl refl

abbrev as_is : Fetches String → Fetches String
as_is f = f

abbrev one_failure : Group
one_failure = scripted (record { errors = "partition 1" ∷ []; records = "a" ∷ "b" ∷ [] })

failed_fetch_loses_example :
    let first = (client as_is).poll one_failure in
    let kept = handle_fetches (client as_is) handler first.0 first.1 in
    let second = (client as_is).poll kept in
    HasLost
      (client as_is)
      handler
      (group as_is)
      (handle_fetches (client as_is) handler second.0 second.1)
unfolding handle_fetches each_record
failed_fetch_loses_example =
    failed_fetch_loses (client as_is) handler (group as_is) one_failure "partition 1" [] "a"
      ("b" ∷ []) (refl, omega arith) refl refl refl refl

abbrev Texts : Type 0
Texts = String → Option String

abbrev rdb : Rdb ℕ String Texts
rdb = record {
  set = λ k d _ w. (true, λ j. if str_eq k j then some d else w j);
  get = λ k w. (w k, w);
  del = λ ks w. (true, w);
  exists = λ ks w. ((0, true), w);
  incr_by = λ k n w. (some n, w);
  expire = λ k ttl w. (true, w);
  eval = λ script ks args w. (none, w);
  z_add = λ k x m w. (true, w);
  z_count = λ k low high w. (some (pos 0), w);
  z_rem_range_by_score = λ k low high w. (true, w);
}

rdb-IsKeyed : IsKeyed rdb
rdb-IsKeyed = record {
  holds = λ w. w;
  set_holds = λ k d ttl w ok. inl (rw (eq_refl k) refl);
  set_others = λ k d ttl w j other. inl (rw other refl);
  del_others = λ ks w j others. inl refl;
  get_keeps = λ k w j. inl refl;
  got = λ k w. inl refl;
}

abbrev quoted : Codec String String
quoted = record { marshal = λ s. some s; unmarshal = λ s. some s }

abbrev empty : Texts
empty k = none

set_ok : (set rdb quoted "k" "v" 60 empty).0 ≡ true
unfolding set
set_ok = refl

abbrev other_uses : List (Use String)
other_uses = set_use "l" "w" 60 ∷ get_use "k" ∷ del_use ("l" ∷ []) ∷ []

get-set_example :
    let v = perform_all rdb rdb-IsKeyed quoted other_uses (set rdb quoted "k" "v" 60 empty).1 in
    ((get rdb quoted "k" v).0 ≡ some "v")
    ⊎ (((rdb.get "k" v).0 ≡ none) × ((get rdb quoted "k" v).0 ≡ none))
get-set_example =
    get-set rdb rdb-IsKeyed quoted "k" "v" 60 other_uses empty refl set_ok
      (refl, (tt, ((refl, tt), tt)))
