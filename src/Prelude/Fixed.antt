-- ===== src/Prelude/Fixed.antt =====
-- A concrete number type that meets the laws of the `Float64` interface: fixed-point numbers in
-- millionths, signed, with no NaN. The examples run on it.
use bidflock.Prelude.Basic.{leb, ltb, ◌==◌}
use bidflock.Prelude.Float.{Float64, IsOrdered}
use bidflock.Prelude.Int.{ℤ, pos, negsuc, pos_part, neg_part, sub_ℕ}
use Prim.Native.Nat.{ℕ, suc, ◌+◌, ◌*◌, ◌/◌, ◌^◌}
use mathlib.Core.Bool.{Bool}
use native.Mathlib.Omega.{arith}

abbrev pub Fixed : Type 0
Fixed = ℤ

abbrev scale : ℕ
scale = 1_000_000

abbrev leb_ℤ : ℤ → ℤ → Bool
leb_ℤ a b = leb (pos_part a + neg_part b) (pos_part b + neg_part a)

abbrev ltb_ℤ : ℤ → ℤ → Bool
ltb_ℤ a b = ltb (pos_part a + neg_part b) (pos_part b + neg_part a)

abbrev eqb_ℤ : ℤ → ℤ → Bool
eqb_ℤ a b = pos_part a + neg_part b == pos_part b + neg_part a

abbrev add_ℤ : ℤ → ℤ → ℤ
add_ℤ a b = sub_ℕ (pos_part a + pos_part b) (neg_part a + neg_part b)

abbrev neg_ℤ : ℤ → ℤ
neg_ℤ a = sub_ℕ (neg_part a) (pos_part a)

abbrev scaled_mul : ℤ → ℤ → ℤ
scaled_mul a b =
    sub_ℕ ((pos_part a * pos_part b + neg_part a * neg_part b) / scale)
      ((pos_part a * neg_part b + neg_part a * pos_part b) / scale)

abbrev scaled_div : ℤ → ℤ → ℤ
scaled_div a b =
    let size = pos_part b + neg_part b in
    let up = scale * pos_part a / size in
    let down = scale * neg_part a / size in
    elim b [ pos _ ↦ sub_ℕ up down | negsuc _ ↦ sub_ℕ down up ]

-- Not the exponential, but positive and increasing as it is.
abbrev scaled_exp : ℤ → ℤ
scaled_exp (pos n) = pos (scale + n)
scaled_exp (negsuc n) = pos (scale * scale / (scale + suc n))

instance abbrev pub fixed_float : Float64 Fixed
fixed_float = record {
  lit = λ n d. pos (n * scale / 10 ^ d);
  neg = neg_ℤ;
  add = add_ℤ;
  sub = λ a b. add_ℤ a (neg_ℤ b);
  mul = scaled_mul;
  div = scaled_div;
  exp = scaled_exp;
  lt = ltb_ℤ;
  le = leb_ℤ;
  eq = eqb_ℤ;
}

-- An amount in cents.
abbrev pub dollars : ℕ → Fixed
dollars cents = pos (cents * 10_000)

pub Fixed-IsOrdered : IsOrdered Fixed
Fixed-IsOrdered = record {
  numbers_of_le = λ x y h. (ground arith, ground arith);
  le_trans = λ x y z h k. ground arith;
  le_total = λ x y h k. ground arith;
  lt-eq-not-le = λ x y h k. ground arith;
  lt-le = λ x y h. ground arith;
}
