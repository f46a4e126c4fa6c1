-- ===== src/Budget/Tests.antt =====
-- The budget service on a concrete server: two tables that answer every call.
use bidflock.Prelude.{
  ℕ, String, ◌&&◌, ◌≡◌, refl, Bool, inr, ◌⊎◌, inl, true, false, none, some, List, [], ◌∷◌,
  if◌then◌else◌,
}
use bidflock.Prelude.Int.{pos}
use bidflock.Prelude.Fixed.{Fixed, fixed_float, Fixed-IsOrdered, dollars}
use bidflock.Models.Campaign.{campaign_deleted}
use bidflock.Budget.Keys.{freq_cap_key}
use bidflock.Budget.Redis.{Redis, IsRedis}
use bidflock.Budget.Service.{Check, check_budget, deduct_budget}
use bidflock.Budget.Limiter.{is_capped}
use bidflock.Budget.Divergence.{get_multiplier_diverges}
use bidflock.Budget.Pacing.{get_multiplier, get_float}
use bidflock.Budget.Spend.{Deducts, deduct_budget-Deducts}
use bidflock.Budget.Grant.{IsFunded, check_budget-IsFunded}
use bidflock.Budget.Window.{is_capped_lem}
use bidflock.Budget.History.{
  Call, check, deduct, record_event, impression, perform_calls, perform_calls-IsSolvent,
}
use bidflock.Budget.Solvent.{IsSolvent}
use bidflock.Budget.Gone.{IsGone}
use bidflock.Budget.Expired.{IsRefused, expired_stays-IsRefused}
use bidflock.Budget.Example.{
  start-IsSolvent, Tables, plus, server, decrease, server-IsRedis, answers, start,
}

get_multiplier_diverges_example : (get_multiplier server 3 "a" (dollars 1_000) start).0 ≡ none
get_multiplier_diverges_example =
    get_multiplier_diverges server server-IsRedis answers "a" (dollars 1_000) (dollars 1_000) 3
      start refl

deduct_budget-Deducts_example :
    Deducts server server-IsRedis "a"
      (dollars 300)
      start
      (deduct_budget server "a" (dollars 300) start)
deduct_budget-Deducts_example = deduct_budget-Deducts server server-IsRedis "a" (dollars 300) start

-- Seven of the ten dollars are left.
seven_left : (deduct_budget server "a" (dollars 300) start).0 ≡ (true, dollars 700)
unfolding deduct_budget get_float
seven_left = refl

is_capped_lem_example :
    (false ≡ false)
    × ((is_capped server "a" "u" start).1.sets (freq_cap_key "a" "u")
        ≡ (1_699_999_999_999, "i2") ∷ [])
unfolding is_capped
is_capped_lem_example = is_capped_lem server server-IsRedis "a" "u" start refl

abbrev calls : List (Call Fixed)
calls =
    deduct "a" (dollars 300)
    ∷ deduct "a" (dollars 800)
    ∷ record_event (
        some (record {
          event_type = campaign_deleted;
          campaign_id = "b";
          campaign = none;
          timestamp = pos 0;
        }))
    ∷ impression "a" "u" "i3"
    ∷ check 2 "a" "u" (dollars 2_000)
    ∷ []

perform_calls-IsSolvent_example : IsSolvent server (perform_calls server calls start)
perform_calls-IsSolvent_example =
    perform_calls-IsSolvent server server-IsRedis Fixed-IsOrdered calls start
      (refl, (refl, (tt, (tt, (tt, tt))))) start-IsSolvent

-- A server that is lost as soon as the clock has been read.
abbrev flaky : Redis Fixed
flaky = record {
  World = Tables × Bool;
  holds = λ w. w.0.cells;
  entries = λ w. w.0.sets;
  clock = λ w. ((server.clock w.0).0, (w.0, true));
  send = λ A cmd w. if w.1 then (none, w) else (some (cmd w).0, (cmd w).1);
  set_nx = λ k v ttl w. (server.set_nx k v ttl w.0, w.1);
  del = λ k w. (server.del k w.0, w.1);
  incr_by_float = λ k x w. (server.incr_by_float k x w.0, w.1);
  expire = λ _ _ w. w;
  z_add = λ k t m w. (server.z_add k t m w.0, w.1);
  z_rem_range_by_score = λ k low high w. (server.z_rem_range_by_score k low high w.0, w.1);
  incremented = plus;
}

flaky_sent :
    (A : Type 0) (cmd : Tables × Bool → A × (Tables × Bool)) (w : Tables × Bool)
    → (flaky.send A cmd w ≡ (some (cmd w).0, (cmd w).1))
      ⊎ ((flaky.send A cmd w ≡ (none, w)) ⊎ (flaky.send A cmd w ≡ (none, (cmd w).1)))
flaky_sent A cmd (tables, true) = inr (inl refl)
flaky_sent A cmd (tables, false) = inl refl

flaky-IsRedis : IsRedis flaky
flaky-IsRedis = record {
  sent = flaky_sent;
  clock_holds = λ w. refl;
  clock_entries = λ w. refl;
  set_nx_holds = λ k v ttl w j. refl;
  del_holds = λ k w j. refl;
  incr_holds = λ k x w j. refl;
  expire_holds = λ k ttl w. refl;
  z_add_holds = λ k t m w. refl;
  z_rem_holds = λ k low high w. refl;
  z_rem_entries = λ k low high w j. refl;
  decremented = decrease;
}

abbrev granted : Check Fixed
granted = record {
  allowed = true;
  reason = "";
  remaining = dollars 1_000;
  multiplier = dollars 100;
}

grants : (check_budget flaky 3 "a" "u" (dollars 500) (start, false)).0 ≡ some granted
unfolding check_budget is_capped get_multiplier get_float
grants = refl

check_budget-IsFunded_example :
    IsFunded flaky flaky-IsRedis "a" "u"
      (dollars 500)
      (start, false)
      (check_budget flaky 3 "a" "u" (dollars 500) (start, false)).0
check_budget-IsFunded_example =
    check_budget-IsFunded flaky flaky-IsRedis "a" "u" (dollars 500) 3 (start, false)

-- Campaign b has no key: it is refused, whatever is spent for a.
abbrev calls_without_b : List (Call Fixed)
calls_without_b =
    check 3 "b" "u" (dollars 50)
    ∷ deduct "b" (dollars 300)
    ∷ deduct "a" (dollars 300)
    ∷ record_event none
    ∷ impression "b" "u" "i3"
    ∷ []

expired_stays-IsRefused_example :
    let w' = perform_calls server calls_without_b start in
    IsGone server "b" w'
    × ((fuel : ℕ) (user : String) (bid : Fixed)
        → IsRefused server "b" (check_budget server fuel "b" user bid w').0)
    × ((amount : Fixed)
        → (fixed_float.lt (dollars 0) amount && (deduct_budget server "b" amount w').0.0) ≡ false)
expired_stays-IsRefused_example =
    expired_stays-IsRefused server "b" server-IsRedis calls_without_b start
      (tt, (refl, (refl, (tt, (tt, tt))))) refl
