-- ===== src/Prelude/State.antt =====
-- A method on a world that it may change: its result, with the world afterwards.
abbrev pub Act : Type 0 → Type 0 → Type 0
Act W A = W → A × W

module _ {W : Type 0} where
  infixl 5 ◌>>=◌ ◌>>◌
  abbrev pub ◌>>=◌ : {A B : Type 0} → Act W A → (A → Act W B) → Act W B
  ◌>>=◌ m k w = k (m w).0 (m w).1

  abbrev pub ◌>>◌ : {A B : Type 0} → Act W A → Act W B → Act W B
  ◌>>◌ m k w = k (m w).1

  abbrev pub pure : {A : Type 0} → A → Act W A
  pure a w = (a, w)

  -- A command that has no result of its own.
  abbrev pub command : (W → W) → Act W (Unit {0})
  command step w = (tt, step w)
