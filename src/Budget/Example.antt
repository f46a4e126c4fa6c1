-- ===== src/Budget/Example.antt =====
-- A concrete Redis server: two tables that answer every call.
use bidflock.Prelude.{
  ℕ, refl, inl, if-intro, ◌&&◌, some, List, [], ◌∷◌, ◌++◌, String, arith, str_eq, if◌then◌else◌,
}
use bidflock.Prelude.Int.{pos, negsuc}
use bidflock.Prelude.Float.{◌≼◌}
use bidflock.Prelude.Fixed.{Fixed, fixed_float, dollars}
use bidflock.Budget.Redis.{
  Redis, IsRedis, Stored, absent, number, is_absent, after_incr, without_range,
}
use bidflock.Budget.Divergence.{IsReliable}
use bidflock.Budget.Keys.{daily_key}
use bidflock.Budget.Solvent.{IsSolvent, IsCovered}

pub record Tables : Type 0 where
  pub cells : String → Stored Fixed
  pub sets : String → List (ℕ × String)

abbrev pub plus : Fixed → Fixed → Fixed
plus = fixed_float.add

abbrev pub server : Redis Fixed
server = record {
  World = Tables;
  holds = λ w. w.cells;
  entries = λ w. w.sets;
  clock = λ w. (record { unix_milli = 1_700_000_000_000; hour = 13; minute = 30 }, w);
  send = λ A cmd w. (some (cmd w).0, (cmd w).1);
  set_nx = λ k v _ w. record w {
    cells = λ j. if str_eq k j && is_absent (w.cells j) then number v else w.cells j;
  };
  del = λ k w. record w { cells = λ j. if str_eq k j then absent else w.cells j };
  incr_by_float = λ k x w. record w {
    cells = λ j. if str_eq k j then after_incr plus x (w.cells j) else w.cells j;
  };
  expire = λ _ _ w. w;
  z_add = λ k t m w. record w {
    sets = λ j. if str_eq k j then w.sets j ++ ((t, m) ∷ []) else w.sets j;
  };
  z_rem_range_by_score = λ k low high w. record w {
    sets = λ j. if str_eq k j then without_range low high (w.sets j) else w.sets j;
  };
  incremented = plus;
}

pub decrease :
    (v a : Fixed)
    → fixed_float.lit 0 0 ≼ a
    → a ≼ v
    → (fixed_float.lit 0 0 ≼ plus v (fixed_float.neg a)) × (plus v (fixed_float.neg a) ≼ v)
decrease (pos v) (pos a) h k = (ground arith, ground arith)
decrease (pos v) (negsuc a) h k = (ground arith, ground arith)
decrease (negsuc v) (pos a) h k = (ground arith, ground arith)
decrease (negsuc v) (negsuc a) h k = (ground arith, ground arith)

pub server-IsRedis : IsRedis server
server-IsRedis = record {
  sent = λ A cmd w. inl refl;
  clock_holds = λ w. refl;
  clock_entries = λ w. refl;
  set_nx_holds = λ k v ttl w j. refl;
  del_holds = λ k w j. refl;
  incr_holds = λ k x w j. refl;
  expire_holds = λ k ttl w. refl;
  z_add_holds = λ k t m w. refl;
  z_rem_holds = λ k low high w. refl;
  z_rem_entries = λ k low high w j. refl;
  decremented = decrease;
}

pub answers : IsReliable server server-IsRedis
answers = λ A cmd w. refl

-- Ten dollars for campaign a, and one old and one new impression for its user u.
abbrev pub start : Tables
start = record {
  cells = λ k. if str_eq k "budget:daily:a" then number (dollars 1_000) else absent;
  sets = λ k. if str_eq k "freqcap:a:u" then (1, "i1") ∷ (1_699_999_999_999, "i2") ∷ [] else [];
}

pub start-IsSolvent : IsSolvent server start
start-IsSolvent id =
    if-intro (IsCovered server) (str_eq (daily_key id) "budget:daily:a") (λ _. refl) (λ _. tt)
