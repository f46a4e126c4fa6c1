-- ===== src/Budget/Redis.antt =====
-- The Redis server and the clock, as internal/budget uses them. A command is a step of the server;
-- `send` is a call of the client, which may lose the answer.
use bidflock.Prelude.{
  ℕ, ◌≡◌, ◌⊎◌, Bool, true, false, ◌&&◌, Option, none, some, List, [], ◌∷◌, String, str_eq, leb,
  if◌then◌else◌,
}
use bidflock.Prelude.Float.{Float64, ◌≼◌}

-- What a key holds: nothing, the decimal text of a number, or any other value.
pub data Stored (F : Type 0) : Type 0 where
  absent : Stored F
  number : F → Stored F
  other : Stored F

-- One reading of the clock, in local time: milliseconds since 1970, hour and minute of the day.
pub record Reading : Type 0 where
  pub unix_milli : ℕ
  pub hour : ℕ
  pub minute : ℕ

-- `entries` is a sorted set: scores, which are times in milliseconds, with their members.
pub record Redis (F : Type 0) : Type 1 where
  pub World : Type 0
  pub holds : World → String → Stored F
  pub entries : World → String → List (ℕ × String)
  pub clock : World → Reading × World
  pub send : (A : Type 0) → (World → A × World) → World → Option A × World
  pub set_nx : String → F → ℕ → World → World
  pub del : String → World → World
  pub incr_by_float : String → F → World → World
  pub expire : String → ℕ → World → World
  pub z_add : String → ℕ → String → World → World
  pub z_rem_range_by_score : String → ℕ → ℕ → World → World
  -- The number that INCRBYFLOAT stores.
  pub incremented : F → F → F

abbrev pub is_absent : {F : Type 0} → Stored F → Bool
is_absent absent = true
is_absent (number _) = false
is_absent other = false

-- INCRBYFLOAT: a missing key counts as 0, and a value that is no number stays.
abbrev pub after_incr : {F : Type 0} ⦃f : Float64 F⦄ → (F → F → F) → F → Stored F → Stored F
after_incr ⦃f⦄ plus x absent = number (plus (f.lit 0 0) x)
after_incr plus x (number v) = number (plus v x)
after_incr plus x other = other

-- ZREMRANGEBYSCORE removes the scores from `low` to `high`, both included.
abbrev pub without_range {ℓ} : {A : Type ℓ} → ℕ → ℕ → List (ℕ × A) → List (ℕ × A)
without_range low high [] = []
without_range low high ((t, m) ∷ es) =
    if leb low t && leb t high
    then without_range low high es
    else (t, m) ∷ without_range low high es

-- The documented effect of each command on what the keys hold, and on the sorted sets. Keys expire
-- between calls only.
pub record IsRedis {F : Type 0} ⦃f : Float64 F⦄ (r : Redis F) : Type 1 where
  -- A call is answered, or its answer is lost, before or after the server has run the command.
  pub sent :
      (A : Type 0) (cmd : r.World → A × r.World) (w : r.World)
      → (r.send A cmd w ≡ (some (cmd w).0, (cmd w).1))
        ⊎ ((r.send A cmd w ≡ (none, w)) ⊎ (r.send A cmd w ≡ (none, (cmd w).1)))
  pub clock_holds : (w : r.World) → r.holds (r.clock w).1 ≡ r.holds w
  pub clock_entries : (w : r.World) → r.entries (r.clock w).1 ≡ r.entries w
  pub set_nx_holds :
      (k : String) (v : F) (ttl : ℕ) (w : r.World) (j : String)
      → r.holds (r.set_nx k v ttl w) j
        ≡ (if str_eq k j && is_absent (r.holds w j) then number v else r.holds w j)
  pub del_holds :
      (k : String) (w : r.World) (j : String)
      → r.holds (r.del k w) j ≡ (if str_eq k j then absent else r.holds w j)
  pub incr_holds :
      (k : String) (x : F) (w : r.World) (j : String)
      → r.holds (r.incr_by_float k x w) j
        ≡ (if str_eq k j then after_incr r.incremented x (r.holds w j) else r.holds w j)
  pub expire_holds : (k : String) (ttl : ℕ) (w : r.World) → r.holds (r.expire k ttl w) ≡ r.holds w
  pub z_add_holds :
      (k : String) (t : ℕ) (m : String) (w : r.World) → r.holds (r.z_add k t m w) ≡ r.holds w
  pub z_rem_holds :
      (k : String) (low high : ℕ) (w : r.World)
      → r.holds (r.z_rem_range_by_score k low high w) ≡ r.holds w
  pub z_rem_entries :
      (k : String) (low high : ℕ) (w : r.World) (j : String)
      → r.entries (r.z_rem_range_by_score k low high w) j
        ≡ (if str_eq k j then without_range low high (r.entries w j) else r.entries w j)
  -- Subtracting an amount from a number that is at least as large gives a number between zero and it.
  pub decremented :
      (v a : F)
      → f.lit 0 0 ≼ a
      → a ≼ v
      → (f.lit 0 0 ≼ r.incremented v (f.neg a)) × (r.incremented v (f.neg a) ≼ v)
