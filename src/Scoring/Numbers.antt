-- ===== src/Scoring/Numbers.antt =====
-- The fixed-point numbers of the examples against the laws that the predictors rest on.
use native.Mathlib.Nat.{
  div-le_of_le-mul, zero-div, mul-le-mul_left, div-mul-le_self, le-div_iff_mul-le,
}
use bidflock.Prelude.{ℕ, zero, suc, ◌<◌, ◌≡◌, refl, ◌≤◌, ◌*◌, ◌+◌, ◌/◌, arith}
use bidflock.Prelude.Int.{pos, negsuc, pos_part, neg_part}
use bidflock.Prelude.Float.{IsNumber, ◌≼◌}
use bidflock.Prelude.Fixed.{Fixed, fixed_float}
use bidflock.Scoring.Probability.{IsExponential, IsMonotone}

one_over :
    (x : Fixed)
    → fixed_float.lit 1 0 ≼ x
    → (fixed_float.lit 0 0 ≼ fixed_float.div (fixed_float.lit 1 0) x)
      × (fixed_float.div (fixed_float.lit 1 0) x ≼ fixed_float.lit 1 0)
one_over (pos n) h =
    let large : 1_000_000_000_000 ≤ (n + 0) * 1_000_000 = ground arith in
    let bounded : 1_000_000_000_000 / (n + 0) ≤ 1_000_000 = div-le_of_le-mul (n + 0) large in
    let none_left : 0 / (n + 0) ≡ 0 = zero-div (n + 0) in (ground arith, ground arith)
one_over (negsuc n) h = (ground arith, ground arith)

pub Fixed-IsExponential : IsExponential Fixed
Fixed-IsExponential = record {
  neg_number = λ x n. ground arith;
  exp_sign = sign;
  one_plus = λ x h. ground arith;
  one_over = one_over;
}
  where
    sign : (x : Fixed) → IsNumber x → fixed_float.lit 0 0 ≼ fixed_float.exp x
    sign (pos n) h = ground arith
    sign (negsuc n) h = ground arith

div-le-div_left : (n x y : ℕ) → 0 < x → x ≤ y → n / y ≤ n / x
div-le-div_left n x y large le =
    let below : n / y * x ≤ n / y * y = mul-le-mul_left (n / y) le in
    let within : n / y * y ≤ n = div-mul-le_self n y in (le-div_iff_mul-le large).1 (omega arith)

exp_le : (x y : Fixed) → x ≼ y → fixed_float.exp x ≼ fixed_float.exp y
exp_le (pos m) (pos n) h = ground arith
exp_le (pos m) (negsuc n) h = absurd (ground arith)
exp_le (negsuc m) (pos n) h =
    let top : 1_000_000_000_000 / (1_000_000 + suc m) ≤ 1_000_000 =
      div-le_of_le-mul (1_000_000 + suc m) (omega arith) in
    ground arith
exp_le (negsuc m) (negsuc n) h =
    let less : n ≤ m = ground arith in
    let falling =
      div-le-div_left 1_000_000_000_000 (1_000_000 + suc n) (1_000_000 + suc m) (omega arith)
        (omega arith) in
    ground arith

one_over_le :
    (x y : Fixed)
    → fixed_float.lit 1 0 ≼ x
    → x ≼ y
    → fixed_float.div (fixed_float.lit 1 0) y ≼ fixed_float.div (fixed_float.lit 1 0) x
one_over_le (pos m) (pos n) h k =
    let falling = div-le-div_left 1_000_000_000_000 (m + 0) (n + 0) (ground arith) (ground arith) in
    let none_left : (0 / (n + 0) ≡ 0) × (0 / (m + 0) ≡ 0) = (zero-div (n + 0), zero-div (m + 0)) in
    ground arith
one_over_le (pos m) (negsuc n) h k = absurd (ground arith)
one_over_le (negsuc m) y h k = absurd (ground arith)

mul_sign :
    (w x : Fixed)
    → fixed_float.lit 0 0 ≼ w
    → fixed_float.lit 0 0 ≼ x
    → fixed_float.lit 0 0 ≼ fixed_float.mul w x
mul_sign (pos w) (pos x) h k = grind arith
mul_sign (pos w) (negsuc x) h k = absurd (ground arith)
mul_sign (negsuc w) x h k = absurd (ground arith)

mul_le :
    (w x y : Fixed)
    → fixed_float.lit 0 0 ≼ w
    → fixed_float.lit 0 0 ≼ x
    → x ≼ y
    → fixed_float.mul w x ≼ fixed_float.mul w y
mul_le (pos w) (pos x) (pos y) h k l =
    let more : w * x ≤ w * y = mul-le-mul_left w (ground arith) in grind arith
mul_le (pos w) (pos x) (negsuc y) h k l = absurd (ground arith)
mul_le (pos w) (negsuc x) y h k l = absurd (ground arith)
mul_le (negsuc w) x y h k l = absurd (ground arith)

mul_comm : (x y : Fixed) → fixed_float.mul x y ≡ fixed_float.mul y x
mul_comm x y =
    let like : pos_part x * pos_part y + neg_part x * neg_part y
        ≡ pos_part y * pos_part x + neg_part y * neg_part x =
      grind arith in
    let unlike : pos_part x * neg_part y + neg_part x * pos_part y
        ≡ pos_part y * neg_part x + neg_part y * pos_part x =
      grind arith in
    rw (like, unlike) refl

neg_mul_le :
    (w x y : Fixed)
    → fixed_float.lit 0 0 ≼ w
    → fixed_float.lit 0 0 ≼ x
    → x ≼ y
    → fixed_float.mul (fixed_float.neg w) y ≼ fixed_float.mul (fixed_float.neg w) x
neg_mul_le (pos zero) (pos x) (pos y) h k l = grind arith
neg_mul_le (pos (suc w)) (pos x) (pos y) h k l =
    let more : suc w * x ≤ suc w * y = mul-le-mul_left (suc w) (ground arith) in grind arith
neg_mul_le (pos w) (pos x) (negsuc y) h k l = absurd (ground arith)
neg_mul_le (pos w) (negsuc x) y h k l = absurd (ground arith)
neg_mul_le (negsuc w) x y h k l = absurd (ground arith)

pub Fixed-IsMonotone : IsMonotone Fixed
Fixed-IsMonotone = record {
  lit_sign = λ n d. ground arith;
  neg_le = λ x y h. ground arith;
  exp_le = exp_le;
  one_plus_le = λ x y h. ground arith;
  one_over_le = one_over_le;
  add_le = λ x y u v h k _ _. ground arith;
  add_left = λ x u n. ground arith;
  add_right = λ x u n. ground arith;
  mul_comm = mul_comm;
  mul_right = λ w x n. ground arith;
  mul_sign = λ w x h k _. mul_sign w x h k;
  mul_le = λ w x y h k l _ _. mul_le w x y h k l;
  neg_mul_le = λ w x y h k l _ _. neg_mul_le w x y h k l;
}
