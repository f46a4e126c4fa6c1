-- ===== src/Prelude/Partial.antt =====
-- A method that may panic: `none` is a panic, and otherwise it is a result with the world.
use bidflock.Prelude.Basic.{All, get_elem?, length}
use bidflock.Prelude.State.{Act}
use Prim.Native.Nat.{ℕ, zero, suc, ◌<◌}
use native.Mathlib.Omega.{arith}
use mathlib.Core.Path.{◌≡◌, refl}
use mathlib.Core.Option.{Option, none, some}
use mathlib.Core.List.{List, [], ◌∷◌}

abbrev pub Partial : Type 0 → Type 0 → Type 0
Partial W A = W → Option (A × W)

-- The outcome is a return, with a good result.
pub data Returns {W A : Type 0} (P : A → Type 0) : Option (A × W) → Type 0 where
  returns : {a : A} {w : W} → P a → Returns P (some (a, w))

-- The method returns from every world, with a good result.
pub data Total {W A : Type 0} (P : A → Type 0) (m : Partial W A) : Type 0 where
  total : ((w : W) → Returns P (m w)) → Total P m

abbrev then_run : {W A B : Type 0} → (A → Partial W B) → Option (A × W) → Option (B × W)
then_run k none = none
then_run k (some (a, w)) = k a w

module _ {W : Type 0} where
  infixl 5 ◌>>=◌
  unfoldable pub ◌>>=◌ : {A B : Type 0} → Partial W A → (A → Partial W B) → Partial W B
  ◌>>=◌ m k w = then_run k (m w)

  unfoldable pub pure : {A : Type 0} → A → Partial W A
  pure a w = some (a, w)

  -- A call that does not panic.
  unfoldable pub call : {A : Type 0} → Act W A → Partial W A
  call m w = some ((m w).0, (m w).1)

  abbrev found_at : {A : Type 0} → W → Option A → Option (A × W)
  found_at w none = none
  found_at w (some a) = some (a, w)

  -- `xs[i]`, which panics out of range.
  -- `Intn` of math/rand: it panics for a bound that is not above zero.
  abbrev pub draw : (ℕ → Act W ℕ) → ℕ → Partial W ℕ
  draw intn zero = λ w. none
  draw intn (suc n) = call (intn (suc n))

  unfoldable pub index : {A : Type 0} → List A → ℕ → Partial W A
  index xs i w = found_at w (get_elem? xs i)

  abbrev pub run_total :
      {A : Type 0} {P : A → Type 0} {m : Partial W A} → Total P m → (w : W) → Returns P (m w)
  run_total (total h) w = h w

  Returns-then :
      {A B : Type 0} {P : A → Type 0} {Q : B → Type 0} (o : Option (A × W)) (k : A → Partial W B)
      → Returns P o
      → ((a : A) → P a → Total Q (k a))
      → Returns Q (then_run k o)
  Returns-then _ k (returns {a} {w} p) next = run_total (next a p) w

  -- A `do` block returns if each step returns.
  pub bind-Total :
      {A B : Type 0} {P : A → Type 0} {Q : B → Type 0} {m : Partial W A} {k : A → Partial W B}
      → Total P m
      → ((a : A) → P a → Total Q (k a))
      → Total Q (m >>= k)
  unfolding ◌>>=◌
  bind-Total {m} {k} h next = total (λ w. Returns-then (m w) k (run_total h w) next)

  pub pure-Total : {A : Type 0} {P : A → Type 0} (a : A) → P a → Total P (pure a)
  unfolding pure
  pure-Total a p = total (λ w. returns p)

  pub call-Total :
      {A : Type 0} {P : A → Type 0} (m : Act W A) → ((w : W) → P (m w).0) → Total P (call m)
  unfolding call
  call-Total m h = total (λ w. returns (h w))

  pub draw-Total :
      (intn : ℕ → Act W ℕ) (n : ℕ)
      → 0 < n
      → ((w : W) → (intn n w).0 < n)
      → Total (λ k. k < n) (draw intn n)
  draw-Total intn zero h k = absurd (omega arith)
  draw-Total intn (suc n) h k = call-Total (intn (suc n)) k

  index-Returns :
      {A : Type 0} {P : A → Type 0} (xs : List A) {i : ℕ} (w : W)
      → All P xs
      → i < length xs
      → Returns P (index xs i w)
  unfolding index
  index-Returns [] w h k = absurd (omega arith)
  index-Returns (x ∷ xs) {i = zero} w (p, _) k = returns p
  index-Returns (x ∷ xs) {i = suc i} w (_, ps) k = index-Returns xs {i = i} w ps (omega arith)

  pub index-Total :
      {A : Type 0} {P : A → Type 0} (xs : List A) {i : ℕ}
      → All P xs
      → i < length xs
      → Total P (index xs i)
  index-Total xs h k = total (λ w. index-Returns xs w h k)

  -- A step whose result the rest does not need.
  pub skip-Total :
      {A B : Type 0} {Q : B → Type 0} (m : Act W A) {k : A → Partial W B}
      → ((a : A) → Total Q (k a))
      → Total Q (call m >>= k)
  skip-Total m next = bind-Total (call-Total {P = λ _. Unit} m (λ _. tt)) (λ a _. next a)

  Returns-weaken :
      {A : Type 0} {P Q : A → Type 0} {o : Option (A × W)}
      → ((a : A) → P a → Q a)
      → Returns P o
      → Returns Q o
  Returns-weaken h (returns {a} p) = returns (h a p)

  pub weaken-Total :
      {A : Type 0} {P Q : A → Type 0} {m : Partial W A}
      → ((a : A) → P a → Q a)
      → Total P m
      → Total Q m
  weaken-Total h (total k) = total (λ w. Returns-weaken h (k w))

  pub Returns-some :
      {A : Type 0} {P : A → Type 0} {o : Option (A × W)}
      → Returns P o
      → (a : A) × (w : W) × (o ≡ some (a, w)) × P a
  Returns-some (returns {a} {w} p) = (a, w, refl, p)
