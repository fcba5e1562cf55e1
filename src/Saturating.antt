-- ===== src/Saturating.antt =====
-- `Saturating<u64>` and `Saturating<u128>` of crates/oxidd-core/src/util/num.rs, for a width of
-- `w` bits: the greatest number of the type stands for every number that is out of bounds.
use oxidd.Prelude.{
  ℕ, suc, ◌+◌, ◌-◌, ◌*◌, ◌/◌, ◌%◌, ◌≤◌, ◌≡◌, ap, ◌∙◌, Option, some, none, min, arith, ltb, ◌==◌,
  if◌then◌else◌, Bool-cases, inl, inr,
}
use native.Mathlib.Nat.{mod-eq_of_lt}
use oxidd.Table.Mask.{double, double_pos, double_mono}

-- `T::MAX`
abbrev pub max_value : ℕ → ℕ
max_value w = double w - 1

unfoldable pub saturating_add : ℕ → ℕ → ℕ → ℕ
saturating_add w a b = if ltb (max_value w) (a + b) then max_value w else a + b

-- The overflow check of the subtraction is `none`.
unfoldable pub saturating_sub : ℕ → ℕ → ℕ → Option ℕ
saturating_sub w a b = if a == max_value w then some a else if ltb a b then none else some (a - b)

-- The overflow check of the shift, which is on the distance, is `none`.
unfoldable pub saturating_shr : ℕ → ℕ → ℕ → Option ℕ
saturating_shr w a k =
    if a == max_value w then some a else if ltb k w then some (a / double k) else none

-- The check of `checked_shl` is on the distance: bits that leave the number are lost.
unfoldable pub saturating_shl : ℕ → ℕ → ℕ → ℕ
saturating_shl w a k = if ltb k w then (a * double k) % double w else max_value w

-- A number without a bound, as the saturating type stores it.
abbrev pub clamp : ℕ → ℕ → ℕ
clamp w x = min x (max_value w)

clamp-saturating_add : (w x y : ℕ) → saturating_add w (clamp w x) (clamp w y) ≡ clamp w (x + y)
unfolding saturating_add
clamp-saturating_add w x y = ground arith

-- What was added is subtracted again, unless the sum was out of bounds.
saturating_sub-clamp :
    (w x y : ℕ)
    → saturating_sub w (clamp w (x + y)) (clamp w y)
      ≡ some (if ltb (x + y) (max_value w) then x else max_value w)
unfolding saturating_sub
saturating_sub-clamp w x y = ground arith

-- What a right shift gives for a stored `x`.
abbrev pub shifted : ℕ → ℕ → ℕ → Option ℕ
shifted w x k =
    if ltb x (max_value w)
    then (if ltb k w then some (x / double k) else none)
    else some (max_value w)

saturating_shr-clamp : (w x k : ℕ) → saturating_shr w (clamp w x) k ≡ shifted w x k
unfolding saturating_shr
saturating_shr-clamp w x k = ground arith

saturating_shl-clamp : (w k : ℕ) → saturating_shl w 1 k ≡ clamp w (double k)
unfolding saturating_shl
saturating_shl-clamp w k = elim (Bool-cases (ltb k w)) [
  | inl below ↦
      let larger : double (suc k) ≤ double w = double_mono (suc k) w (ground arith) in
      let kept : 1 * double k % double w ≡ double k =
        ap (λ n. n % double w) (omega arith) ∙ mod-eq_of_lt (omega (arith, larger, double_pos k)) in
      rw (below, kept) (omega (arith, larger, double_pos k))
  | inr above ↦
      let larger : double w ≤ double k = double_mono w k (ground arith) in
      rw above (omega (arith, larger, double_pos w))
]

abbrev pub Clamps : ℕ → ℕ → ℕ → ℕ → Type 0
Clamps w x y k =
    (saturating_add w (clamp w x) (clamp w y) ≡ clamp w (x + y))
    × (saturating_sub w (clamp w (x + y)) (clamp w y)
        ≡ some (if ltb (x + y) (max_value w) then x else max_value w))
    × (saturating_shr w (clamp w x) k ≡ shifted w x k)
    × (saturating_shl w 1 k ≡ clamp w (double k))

-- For a width `w` and numbers `x` and `y` without a bound, stored as the greatest value where they
-- are out of bounds: the stored numbers have the sum that `x + y` is stored as; `y` subtracted
-- from `x + y` gives `x`, and `x` shifted right by `k` gives `x / 2^k` for `k` below `w` and fails
-- the overflow check for a greater `k`, unless the first operand is out of bounds, which it
-- stays; 1 shifted left by `k` gives what `2^k` is stored as.
pub saturating_operations-Clamps : (w x y k : ℕ) → Clamps w x y k
saturating_operations-Clamps w x y k = (
  clamp-saturating_add w x y,
  saturating_sub-clamp w x y,
  saturating_shr-clamp w x k,
  saturating_shl-clamp w k,
)
