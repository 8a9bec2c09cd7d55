-- ===== src/Double.antt =====
-- The double arithmetic of the code. The language has no floating-point numbers: a type of doubles
-- and its operations are an argument of the model, with the documented laws of IEEE 754 on whole
-- numbers below 2^53 that the proofs need.
use treadmill.Prelude.{ℕ, ◌≤◌, ◌^◌, ◌≡◌, Bool}
use treadmill.Prelude.Int.{ℤ, pos_part, neg_part, ◌+ℤ◌, ◌-ℤ◌, ◌*ℤ◌, ltb_ℤ, ◌≤ℤ◌, pos, int_laws}
use treadmill.Prelude.{refl}

-- A whole number that a double holds exactly.
abbrev pub IsSmall : ℤ → Type 0
IsSmall z = pos_part z ≤ 2 ^ 53 × (neg_part z ≤ 2 ^ 53)

-- Far below that limit.
abbrev pub IsModest : ℤ → Type 0
IsModest z = pos_part z ≤ 2 ^ 51 × (neg_part z ≤ 2 ^ 51)

-- At most `n` apart.
abbrev pub IsNear : ℕ → ℤ → ℤ → Type 0
IsNear n x y = x ≤ℤ y +ℤ pos n × (y ≤ℤ x +ℤ pos n)

pub record Double (F : Type 0) : Type 0 where
  pub of_int : ℤ → F
  -- The conversion to int64_t, toward zero.
  pub to_int : F → ℤ
  -- The literal m * 10^-e.
  pub decimal : ℕ → ℕ → F
  pub add : F → F → F
  pub sub : F → F → F
  pub mul : F → F → F
  pub div : F → F → F
  pub log : F → F
  -- <
  pub less : F → F → Bool
  pub add_exact :
      (x y : ℤ)
      → IsSmall x
      → IsSmall y
      → IsSmall (x +ℤ y)
      → add (of_int x) (of_int y) ≡ of_int (x +ℤ y)
  pub sub_exact :
      (x y : ℤ)
      → IsSmall x
      → IsSmall y
      → IsSmall (x -ℤ y)
      → sub (of_int x) (of_int y) ≡ of_int (x -ℤ y)
  pub mul_exact :
      (x y : ℤ)
      → IsSmall x
      → IsSmall y
      → IsSmall (x *ℤ y)
      → mul (of_int x) (of_int y) ≡ of_int (x *ℤ y)
  -- Each of the two operations rounds a value below 2^53 by at most 1/2, and each conversion cuts off
  -- less than 1.
  pub sum_near :
      (x y : ℤ) (g : F)
      → IsModest x
      → IsModest y
      → IsModest (to_int g)
      → IsNear 2 (to_int (add (of_int x) (sub g (of_int y)))) (x +ℤ (to_int g -ℤ y))
  pub to_int-of_int : (x : ℤ) → IsSmall x → to_int (of_int x) ≡ x

pub IsNear-self : (n : ℕ) (x : ℤ) → IsNear n x x
IsNear-self n x = omega int_laws

-- Whole numbers in place of doubles, which meet the laws.
instance abbrev pub whole : Double ℤ
whole = record {
  of_int = λ z. z;
  to_int = λ z. z;
  decimal = λ m e. ℤ.pos m;
  add = ◌+ℤ◌;
  sub = ◌-ℤ◌;
  mul = ◌*ℤ◌;
  div = λ x y. x;
  log = λ x. x;
  less = ltb_ℤ;
  add_exact = λ x y hx hy h. refl;
  sub_exact = λ x y hx hy h. refl;
  mul_exact = λ x y hx hy h. refl;
  sum_near = λ x y g hx hy hg. IsNear-self 2 (x +ℤ (g -ℤ y));
  to_int-of_int = λ x h. refl;
}
