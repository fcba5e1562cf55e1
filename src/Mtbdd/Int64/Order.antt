-- ===== src/Mtbdd/Int64/Order.antt =====
-- `partial_cmp` of crates/oxidd-rules-mtbdd/src/terminal/int64.rs has the laws of a comparison.
use mathlib.Core.Option
use oxidd.Prelude.{◌≡◌, ◌⊎◌, ap, refl, inl, inr, some, none, arith}
use oxidd.Mtbdd.Integer.{ℤ, pos, negsuc}
use oxidd.Mtbdd.Int64.{Int64, nan, minus_inf, plus_inf, num, cmp_ℤ, partial_cmp}
use oxidd.Mtbdd.Int64.Laws.{partial_cmp-equal}
use oxidd.Mtbdd.Int64.Number.{int64_number}
use oxidd.Mtbdd.Terminal.Extremum.{IsCompared, reversed}

reversed-cmp_ℤ : (a b : ℤ) → cmp_ℤ b a ≡ reversed (cmp_ℤ a b)
reversed-cmp_ℤ (pos m) (pos n) = ground arith
reversed-cmp_ℤ (pos m) (negsuc n) = refl
reversed-cmp_ℤ (negsuc m) (pos n) = refl
reversed-cmp_ℤ (negsuc m) (negsuc n) = ground arith

reversed-partial_cmp : (x y : Int64) → partial_cmp y x ≡ Option.map reversed (partial_cmp x y)
unfolding partial_cmp
reversed-partial_cmp (num a) (num b) = ap some (reversed-cmp_ℤ a b)
reversed-partial_cmp (num a) nan = refl
reversed-partial_cmp (num a) minus_inf = refl
reversed-partial_cmp (num a) plus_inf = refl
reversed-partial_cmp nan (num b) = refl
reversed-partial_cmp nan nan = refl
reversed-partial_cmp nan minus_inf = refl
reversed-partial_cmp nan plus_inf = refl
reversed-partial_cmp minus_inf (num b) = refl
reversed-partial_cmp minus_inf nan = refl
reversed-partial_cmp minus_inf minus_inf = refl
reversed-partial_cmp minus_inf plus_inf = refl
reversed-partial_cmp plus_inf (num b) = refl
reversed-partial_cmp plus_inf nan = refl
reversed-partial_cmp plus_inf minus_inf = refl
reversed-partial_cmp plus_inf plus_inf = refl

-- NaN compares with nothing but itself.
unordered : (x : Int64) → (partial_cmp nan x ≡ none) ⊎ (x ≡ nan)
unfolding partial_cmp
unordered (num a) = inl refl
unordered nan = inr refl
unordered minus_inf = inl refl
unordered plus_inf = inl refl

pub int64_number-IsCompared : IsCompared int64_number
unfolding int64_number
int64_number-IsCompared = record {
  self = λ a. (partial_cmp-equal a a).1 refl;
  sound = λ a b. (partial_cmp-equal a b).0;
  flip = reversed-partial_cmp;
  nan = unordered;
}
