-- ===== src/Mtbdd/Int64/Number.antt =====
-- `Int64` of crates/oxidd-rules-mtbdd/src/terminal/int64.rs as a number type of the diagrams.
use oxidd.Prelude.{◌≡◌, refl, ap, Bool, true, false, arith, ◌==◌}
use oxidd.Mtbdd.Integer.{ℤ, pos, negsuc, ◌-ℤ◌, ◌*ℤ◌, neg_of}
use oxidd.Mtbdd.Int64.{
  Int64, nan, minus_inf, plus_inf, num, partial_cmp, same_sign, add, sub, mul, div,
}
use oxidd.Mtbdd.Int64.Laws.{IsI64, add_comm, zero-add, div-one}
use oxidd.Mtbdd.Number.{NumberBase, IsNumber}

abbrev pub eq_ℤ : ℤ → ℤ → Bool
eq_ℤ (pos m) (pos n) = m == n
eq_ℤ (negsuc m) (negsuc n) = m == n
eq_ℤ _ _ = false

abbrev pub eq : Int64 → Int64 → Bool
eq (num a) (num b) = eq_ℤ a b
eq nan nan = true
eq minus_inf minus_inf = true
eq plus_inf plus_inf = true
eq _ _ = false

unfoldable pub int64_number : NumberBase Int64
int64_number = record {
  zero = num (pos 0);
  one = num (pos 1);
  nan = nan;
  eq = eq;
  partial_cmp = partial_cmp;
  add = add;
  sub = sub;
  mul = mul;
  div = div;
}

eq_sound : (a b : Int64) → eq a b ≡ true → a ≡ b
eq_sound a b h = ground arith

sub-zero : (x : Int64) → IsI64 x → sub x (num (pos 0)) ≡ x
unfolding sub ◌-ℤ◌
sub-zero x h = ground arith

one-mul : (x : Int64) → IsI64 x → mul (num (pos 1)) x ≡ x
unfolding mul ◌*ℤ◌
one-mul x h = ground arith

*ℤ_comm : (a b : ℤ) → a *ℤ b ≡ b *ℤ a
unfolding ◌*ℤ◌
*ℤ_comm (pos m) (pos n) = ap pos (grind arith)
*ℤ_comm (pos m) (negsuc n) = ap neg_of (grind arith)
*ℤ_comm (negsuc m) (pos n) = ap neg_of (grind arith)
*ℤ_comm (negsuc m) (negsuc n) = ap pos (grind arith)

same_sign_comm : (a b : ℤ) → same_sign a b ≡ same_sign b a
same_sign_comm a b = ground arith

mul_comm : (x y : Int64) → mul x y ≡ mul y x
unfolding mul
mul_comm (num a) (num b) = rw (*ℤ_comm a b, same_sign_comm a b) refl
mul_comm (num a) nan = refl
mul_comm (num a) minus_inf = refl
mul_comm (num a) plus_inf = refl
mul_comm nan (num b) = refl
mul_comm nan nan = refl
mul_comm nan minus_inf = refl
mul_comm nan plus_inf = refl
mul_comm minus_inf (num b) = refl
mul_comm minus_inf nan = refl
mul_comm minus_inf minus_inf = refl
mul_comm minus_inf plus_inf = refl
mul_comm plus_inf (num b) = refl
mul_comm plus_inf nan = refl
mul_comm plus_inf minus_inf = refl
mul_comm plus_inf plus_inf = refl

-- `Int64` has the laws that the terminal cases rely on, on the numbers of the range.
pub int64_number-IsNumber : IsNumber int64_number IsI64
unfolding int64_number add mul sub div
int64_number-IsNumber = record {
  eq_sound = eq_sound;
  zero_add = zero-add;
  add_comm = add_comm;
  sub_zero = sub-zero;
  one_mul = one-mul;
  mul_comm = mul_comm;
  div_one = div-one;
  nan_add = λ a. ground arith;
  nan_mul = λ a. ground arith;
  nan_sub = λ a. (ground arith, ground arith);
  nan_div = λ a. (ground arith, ground arith);
}
