-- ===== src/Mtbdd/Int64.antt =====
-- crates/oxidd-rules-mtbdd/src/terminal/int64.rs: 64 bit integers with two infinities and NaN.
-- `i64` is the integers of its range; a checked operation is the exact one with a test.
pub mod Laws
pub mod Number
pub mod Order
use oxidd.Prelude.{
  ℕ, zero, ◌+◌, ◌-◌, ◌^◌, Bool, true, false, not, ◌&&◌, ◌||◌, Option, none, some, ltb, ◌==◌,
  if◌then◌else◌,
}
use oxidd.Mtbdd.Integer.{ℤ, pos, negsuc, ◌+ℤ◌, ◌-ℤ◌, ◌*ℤ◌, ◌/ℤ◌, is_positive, is_negative, in_range}

pub data Int64 : Type 0 where
  nan minus_inf plus_inf : Int64
  num : ℤ → Int64

pub data Ordering : Type 0 where
  less equal greater : Ordering

abbrev pub cmp : ℕ → ℕ → Ordering
cmp m n = if ltb m n then less else if m == n then equal else greater

abbrev pub cmp_ℤ : ℤ → ℤ → Ordering
cmp_ℤ (pos m) (pos n) = cmp m n
cmp_ℤ (pos m) (negsuc n) = greater
cmp_ℤ (negsuc m) (pos n) = less
cmp_ℤ (negsuc m) (negsuc n) = cmp n m

unfoldable pub partial_cmp : Int64 → Int64 → Option Ordering
partial_cmp (num lhs) (num rhs) = some (cmp_ℤ lhs rhs)
partial_cmp nan nan = some equal
partial_cmp minus_inf minus_inf = some equal
partial_cmp plus_inf plus_inf = some equal
partial_cmp nan _ = none
partial_cmp _ nan = none
partial_cmp minus_inf _ = some less
partial_cmp _ plus_inf = some less
partial_cmp _ minus_inf = some greater
partial_cmp plus_inf _ = some greater

abbrev pub checked : ℤ → Option ℤ
checked z = if in_range z then some z else none

abbrev pub same_sign : ℤ → ℤ → Bool
same_sign lhs rhs = is_positive lhs && is_positive rhs || is_negative lhs && is_negative rhs

abbrev pub other_sign : ℤ → ℤ → Bool
other_sign lhs rhs = is_positive lhs && is_negative rhs || is_negative lhs && is_positive rhs

-- The result of a checked operation, or the infinity that the signs select.
abbrev pub saturated : Option ℤ → Bool → Int64
saturated (some n) upwards = num n
saturated none upwards = if upwards then plus_inf else minus_inf

unfoldable pub add : Int64 → Int64 → Int64
add (num lhs) (num rhs) = saturated (checked (lhs +ℤ rhs)) (same_sign lhs rhs)
add nan _ = nan
add _ nan = nan
add minus_inf plus_inf = nan
add plus_inf minus_inf = nan
add minus_inf _ = minus_inf
add _ minus_inf = minus_inf
add plus_inf _ = plus_inf
add _ plus_inf = plus_inf

unfoldable pub sub : Int64 → Int64 → Int64
sub (num lhs) (num rhs) = saturated (checked (lhs -ℤ rhs)) (other_sign lhs rhs)
sub nan _ = nan
sub _ nan = nan
sub minus_inf minus_inf = nan
sub plus_inf plus_inf = nan
sub minus_inf _ = minus_inf
sub _ plus_inf = minus_inf
sub plus_inf _ = plus_inf
sub _ minus_inf = plus_inf

unfoldable pub mul : Int64 → Int64 → Int64
mul (num lhs) (num rhs) = saturated (checked (lhs *ℤ rhs)) (same_sign lhs rhs)
mul nan _ = nan
mul _ nan = nan
mul minus_inf plus_inf = nan
mul plus_inf minus_inf = nan
mul minus_inf _ = minus_inf
mul _ minus_inf = minus_inf
mul plus_inf _ = plus_inf
mul _ plus_inf = plus_inf

abbrev pub divided_by_zero : ℤ → Int64
divided_by_zero (negsuc n) = minus_inf
divided_by_zero (pos zero) = nan
divided_by_zero (pos n) = plus_inf

abbrev pub is_zero : ℤ → Bool
is_zero (pos n) = n == 0
is_zero (negsuc n) = false

abbrev pub is_min : ℤ → Bool
is_min (pos n) = false
is_min (negsuc n) = n == 2 ^ 63 - 1

abbrev pub is_minus_one : ℤ → Bool
is_minus_one (pos n) = false
is_minus_one (negsuc n) = n == 0

unfoldable pub div : Int64 → Int64 → Int64
div (num lhs) (num rhs) =
    if is_zero rhs
    then divided_by_zero lhs
    else if is_min lhs && is_minus_one rhs
    then plus_inf
    else num (lhs /ℤ rhs)
div (num _) minus_inf = num (pos 0)
div (num _) plus_inf = num (pos 0)
div plus_inf (num _) = plus_inf
div minus_inf (num _) = minus_inf
div _ _ = nan
