-- ===== src/Clients/Store.antt =====
-- pkg/redis/client.go over go-redis, with JSON as a codec.
use bidflock.Prelude.{
  ℕ, ◌≡◌, ap, ◌∙◌, Bool, true, false, ltb, Option, none, some, List, [], ◌∷◌, String, str_eq, All,
  ◌⊎◌, inl, inr,
}
use bidflock.Prelude.Int.{ℤ}
use bidflock.Prelude.State.{Act, ◌>>=◌, pure}
use bidflock.Rpc.Wire.{Codec}
use bidflock.Rpc.Calls.{Carries, and_then}

-- The commands of a `redis.Client` that the wrapper sends. `none` and `false` are errors; a missing
-- key is one for `get`.
pub record Rdb (F Data W : Type 0) : Type 0 where
  pub set : String → Data → ℕ → Act W Bool
  pub get : String → Act W (Option Data)
  pub del : List String → Act W Bool
  pub exists : List String → Act W (ℕ × Bool)
  pub incr_by : String → ℤ → Act W (Option ℤ)
  pub expire : String → ℕ → Act W Bool
  pub eval : String → List String → List String → Act W (Option Data)
  pub z_add : String → F → String → Act W Bool
  pub z_count : String → String → String → Act W (Option ℤ)
  pub z_rem_range_by_score : String → String → String → Act W Bool

module _ {F Data W : Type 0} (rdb : Rdb F Data W) where
  module _ {A : Type 0} (codec : Codec Data A) where
    abbrev set_encoded : String → ℕ → Option Data → Act W Bool
    set_encoded key ttl none = pure false
    set_encoded key ttl (some bytes) = rdb.set key bytes ttl

    unfoldable pub set : String → A → ℕ → Act W Bool
    set key value ttl = set_encoded key ttl (codec.marshal value)

    abbrev decoded : Option Data → Option A
    decoded none = none
    decoded (some bytes) = codec.unmarshal bytes

    unfoldable pub get : String → Act W (Option A)
    get key = do r ← rdb.get key; pure (decoded r)

  abbrev pub del : List String → Act W Bool
  del keys = rdb.del keys

  -- The count and the error are handed on together.
  abbrev pub exists : String → Act W (Bool × Bool)
  exists key w = let r = rdb.exists (key ∷ []) w in ((ltb 0 r.0.0, r.0.1), r.1)

  abbrev pub incr_by : String → ℤ → Act W (Option ℤ)
  incr_by key value = rdb.incr_by key value

  abbrev pub expire : String → ℕ → Act W Bool
  expire key ttl = rdb.expire key ttl

  abbrev pub run_script : String → List String → List String → Act W (Option Data)
  run_script script keys args = rdb.eval script keys args

  abbrev pub z_add : String → F → String → Act W Bool
  z_add key score member = rdb.z_add key score member

  abbrev pub z_count : String → String → String → Act W (Option ℤ)
  z_count key min max = rdb.z_count key min max

  abbrev pub z_rem_range_by_score : String → String → String → Act W Bool
  z_rem_range_by_score key min max = rdb.z_rem_range_by_score key min max

-- What SET, DEL and GET document, when keys expire by themselves and any command may fail: `holds` is
-- what a key holds that has not expired, and a command that is not about a key leaves it or finds it
-- expired. A GET that does not fail answers what the key holds.
pub record IsKeyed {F Data W : Type 0} (rdb : Rdb F Data W) : Type 0 where
  pub holds : W → String → Option Data
  pub set_holds :
      (k : String) (d : Data) (ttl : ℕ) (w : W)
      → (rdb.set k d ttl w).0 ≡ true
      → (holds (rdb.set k d ttl w).1 k ≡ some d) ⊎ (holds (rdb.set k d ttl w).1 k ≡ none)
  pub set_others :
      (k : String) (d : Data) (ttl : ℕ) (w : W) (j : String)
      → str_eq k j ≡ false
      → (holds (rdb.set k d ttl w).1 j ≡ holds w j) ⊎ (holds (rdb.set k d ttl w).1 j ≡ none)
  pub del_others :
      (ks : List String) (w : W) (j : String)
      → All (λ k. str_eq k j ≡ false) ks
      → (holds (rdb.del ks w).1 j ≡ holds w j) ⊎ (holds (rdb.del ks w).1 j ≡ none)
  pub get_keeps :
      (k : String) (w : W) (j : String)
      → (holds (rdb.get k w).1 j ≡ holds w j) ⊎ (holds (rdb.get k w).1 j ≡ none)
  pub got : (k : String) (w : W) → ((rdb.get k w).0 ≡ holds w k) ⊎ ((rdb.get k w).0 ≡ none)

-- A call of the wrapper.
pub data Use (A : Type 0) : Type 0 where
  set_use : String → A → ℕ → Use A
  get_use : String → Use A
  del_use : List String → Use A

-- The call writes no key `j`.
abbrev pub IsElsewhere : {A : Type 0} → String → Use A → Type 0
IsElsewhere j (set_use k _ _) = str_eq k j ≡ false
IsElsewhere j (get_use _) = Unit
IsElsewhere j (del_use ks) = All (λ k. str_eq k j ≡ false) ks

module _ {F Data W A : Type 0} (rdb : Rdb F Data W) (laws : IsKeyed rdb)
    (codec : Codec Data A) where
  open laws use {holds, set_holds, set_others, del_others, get_keeps, got}

  pub perform : Use A → W → W
  unfolding set get
  perform (set_use k a ttl) w = (set rdb codec k a ttl w).1
  perform (get_use k) w = (get rdb codec k w).1
  perform (del_use ks) w = (del rdb ks w).1

  abbrev pub perform_all : List (Use A) → W → W
  perform_all [] w = w
  perform_all (u ∷ us) w = perform_all us (perform u w)

  -- The key holds the value as it is encoded, or has expired.
  abbrev IsStored : String → A → W → Type 0
  IsStored key value w = (holds w key ≡ codec.marshal value) ⊎ (holds w key ≡ none)

  kept :
      (key : String) (value : A) (w v : W)
      → (holds v key ≡ holds w key) ⊎ (holds v key ≡ none)
      → IsStored key value w
      → IsStored key value v
  kept key value w v (inl same) (inl e) = inl (same ∙ e)
  kept key value w v (inl same) (inr gone) = inr (same ∙ gone)
  kept key value w v (inr gone) h = inr gone

  set-IsStored :
      (key : String) (value : A) (ttl : ℕ) (w : W)
      → (set rdb codec key value ttl w).0 ≡ true
      → IsStored key value (set rdb codec key value ttl w).1
  unfolding set
  set-IsStored key value ttl w ok = encoded (codec.marshal value) ok
    where
      encoded :
          (o : Option Data)
          → (set_encoded rdb codec key ttl o w).0 ≡ true
          → (holds (set_encoded rdb codec key ttl o w).1 key ≡ o)
            ⊎ (holds (set_encoded rdb codec key ttl o w).1 key ≡ none)
      encoded none failed = absurd (cc)
      encoded (some bytes) done = set_holds key bytes ttl w done

  perform-IsStored :
      (key : String) (value : A) (u : Use A) (w : W)
      → IsElsewhere key u
      → IsStored key value w
      → IsStored key value (perform u w)
  unfolding perform set get
  perform-IsStored key value (set_use k a ttl) w other h = encoded (codec.marshal a)
    where
      encoded : (o : Option Data) → IsStored key value (set_encoded rdb codec k ttl o w).1
      encoded none = h
      encoded (some bytes) = kept key value w _ (set_others k bytes ttl w key other) h
  perform-IsStored key value (get_use k) w _ h = kept key value w _ (get_keeps k w key) h
  perform-IsStored key value (del_use ks) w others h =
      kept key value w _ (del_others ks w key others) h

  perform_all-IsStored :
      (key : String) (value : A) (us : List (Use A)) (w : W)
      → All (IsElsewhere key) us
      → IsStored key value w
      → IsStored key value (perform_all us w)
  perform_all-IsStored key value [] w _ h = h
  perform_all-IsStored key value (u ∷ us) w (other, others) h =
      perform_all-IsStored key value us (perform u w) others
        (perform-IsStored key value u w other h)

  decoded-Carries :
      (value : A) (o : Option Data)
      → and_then codec.unmarshal o ≡ some value
      → decoded rdb codec o ≡ some value
  decoded-Carries value none e = e
  decoded-Carries value (some bytes) e = e

  -- After a Set that succeeds, and any calls that set, get and delete other keys or read this one, a
  -- Get of the key answers the value that was set, for a value that survives its encoding, or its GET
  -- has found no key or failed, and then the Get answers an error. Keys expire at any time, and every
  -- command but the Set may fail.
  pub get-set :
      (key : String) (value : A) (ttl : ℕ) (us : List (Use A)) (w : W)
      → Carries codec value
      → (set rdb codec key value ttl w).0 ≡ true
      → All (IsElsewhere key) us
      → let v = perform_all us (set rdb codec key value ttl w).1 in
        ((get rdb codec key v).0 ≡ some value)
        ⊎ (((rdb.get key v).0 ≡ none) × ((get rdb codec key v).0 ≡ none))
  unfolding get
  get-set key value ttl us w carried ok others =
      let v = perform_all us (set rdb codec key value ttl w).1 in
      let missed : (rdb.get key v).0 ≡ none
          → ((rdb.get key v).0 ≡ none) × ((get rdb codec key v).0 ≡ none) =
        λ e. (e, ap (decoded rdb codec) e) in
      elim (got key v) [
        | inr failed ↦ inr (missed failed)
        | inl answered ↦
            elim (perform_all-IsStored key value us _ others (set-IsStored key value ttl w ok)) [
              | inr gone ↦ inr (missed (answered ∙ gone))
              | inl held ↦ inl (
                  ap (decoded rdb codec) (answered ∙ held)
                  ∙ decoded-Carries value (codec.marshal value) carried)
            ]
      ]
