-- ===== src/Mtbdd/Int64/Laws.antt =====
-- The arithmetic of crates/oxidd-rules-mtbdd/src/terminal/int64.rs: ranges, overflow, and the laws
-- that the terminal cases rely on.
use mathlib.Core.Option.{some-injective}
use native.Mathlib.Nat.{div-le_self, mul-div-le}
use oxidd.Prelude.{
  ℕ, zero, suc, ◌*◌, ◌/◌, ◌^◌, ◌≤◌, ◌≡◌, ◌↔◌, refl, ap, subst, Bool, true, false, none, some, arith,
  ◌==◌, ◌&&◌, if◌then◌else◌, inl, inr, Bool-cases,
}
use oxidd.Mtbdd.Integer.{ℤ, pos, negsuc, neg_of, ◌+ℤ◌, ◌-ℤ◌, ◌*ℤ◌, ◌/ℤ◌, is_negative, in_range}
use oxidd.Mtbdd.Int64.{
  Int64, nan, minus_inf, plus_inf, num, equal, cmp_ℤ, partial_cmp, checked, saturated, same_sign,
  other_sign, add, sub, mul, div, is_min, is_minus_one,
}

-- A number is one that `i64` has.
abbrev pub IsI64 : Int64 → Type 0
IsI64 (num z) = in_range z ≡ true
IsI64 nan = Unit
IsI64 minus_inf = Unit
IsI64 plus_inf = Unit

saturated-IsI64 : (z : ℤ) (b : Bool) → IsI64 (saturated (checked z) b)
saturated-IsI64 z b = elim (Bool-cases (in_range z)) [ inl h ↦ rw h h | inr h ↦ rw h (infinite b) ]
  where
    infinite : (b : Bool) → IsI64 (saturated none b)
    infinite true = tt
    infinite false = tt

neg_of-IsI64 : (m : ℕ) → m ≤ 2 ^ 63 → in_range (neg_of m) ≡ true
neg_of-IsI64 zero h = ground arith
neg_of-IsI64 (suc m) h = ground arith

guarded : (b : Bool) (z : ℤ) → in_range z ≡ true → IsI64 (if b then plus_inf else num z)
guarded true z h = tt
guarded false z h = h

halved : (m n : ℕ) → m / suc (suc n) * 2 ≤ m
halved m n = grind (arith, mul-div-le m (suc (suc n)))

div-IsI64 : (a b : ℤ) → IsI64 (num a) → IsI64 (num b) → IsI64 (div (num a) (num b))
unfolding div ◌/ℤ◌
div-IsI64 (pos zero) (pos zero) h k = tt
div-IsI64 (pos (suc m)) (pos zero) h k = tt
div-IsI64 (pos m) (pos (suc n)) h k = ground (arith, div-le_self m (suc n))
div-IsI64 (pos m) (negsuc n) h k = neg_of-IsI64 (m / suc n) (ground (arith, div-le_self m (suc n)))
div-IsI64 (negsuc m) (pos zero) h k = tt
div-IsI64 (negsuc m) (pos (suc n)) h k =
    let nonzero : (suc n == 0) ≡ false = ground arith in
    rw nonzero (
      guarded (is_min (negsuc m) && is_minus_one (pos (suc n))) (neg_of (suc m / suc n))
        (neg_of-IsI64 (suc m / suc n) (ground (arith, div-le_self (suc m) (suc n)))))
div-IsI64 (negsuc m) (negsuc zero) h k = ground arith
div-IsI64 (negsuc m) (negsuc (suc n)) h k =
    guarded (is_min (negsuc m) && is_minus_one (negsuc (suc n))) (pos (suc m / suc (suc n)))
      (ground (arith, halved (suc m) n))

-- Sums, differences, products and quotients of values of the range are of the range.
pub operations-IsI64 :
    (x y : Int64)
    → IsI64 x
    → IsI64 y
    → IsI64 (add x y) × IsI64 (sub x y) × IsI64 (mul x y) × IsI64 (div x y)
unfolding add sub mul div
operations-IsI64 (num a) (num b) h k = (
  saturated-IsI64 (a +ℤ b) (same_sign a b),
  saturated-IsI64 (a -ℤ b) (other_sign a b),
  saturated-IsI64 (a *ℤ b) (same_sign a b),
  div-IsI64 a b h k,
)
operations-IsI64 (num a) nan h k = (tt, tt, tt, tt)
operations-IsI64 (num a) minus_inf h k = (tt, tt, tt, refl)
operations-IsI64 (num a) plus_inf h k = (tt, tt, tt, refl)
operations-IsI64 nan (num b) h k = (tt, tt, tt, tt)
operations-IsI64 minus_inf (num b) h k = (tt, tt, tt, tt)
operations-IsI64 plus_inf (num b) h k = (tt, tt, tt, tt)
operations-IsI64 nan nan h k = (tt, tt, tt, tt)
operations-IsI64 nan minus_inf h k = (tt, tt, tt, tt)
operations-IsI64 nan plus_inf h k = (tt, tt, tt, tt)
operations-IsI64 minus_inf nan h k = (tt, tt, tt, tt)
operations-IsI64 minus_inf minus_inf h k = (tt, tt, tt, tt)
operations-IsI64 minus_inf plus_inf h k = (tt, tt, tt, tt)
operations-IsI64 plus_inf nan h k = (tt, tt, tt, tt)
operations-IsI64 plus_inf minus_inf h k = (tt, tt, tt, tt)
operations-IsI64 plus_inf plus_inf h k = (tt, tt, tt, tt)

-- A sum of two numbers of the range is exact if it is in the range, and else +∞, whatever the signs.
pub add-num :
    (a b : ℤ)
    → IsI64 (num a)
    → IsI64 (num b)
    → add (num a) (num b) ≡ (if in_range (a +ℤ b) then num (a +ℤ b) else plus_inf)
unfolding add ◌+ℤ◌
add-num a b h k = ground arith

-- A product of two numbers is exact if it is in the range, and else the infinity of its sign.
pub mul-num :
    (a b : ℤ)
    → mul (num a) (num b) ≡ (
        if in_range (a *ℤ b)
        then num (a *ℤ b)
        else if is_negative (a *ℤ b)
        then minus_inf
        else plus_inf)
unfolding mul ◌*ℤ◌
mul-num a b = ground arith

pub add_comm : (x y : Int64) → add x y ≡ add y x
unfolding add ◌+ℤ◌
add_comm x y = ground arith

cmp_ℤ-equal : (a b : ℤ) → cmp_ℤ a b ≡ equal → a ≡ b
cmp_ℤ-equal a b h = ground arith

equal-cmp_ℤ : (a : ℤ) → cmp_ℤ a a ≡ equal
equal-cmp_ℤ a = ground arith

partial_cmp_sound : (x y : Int64) → partial_cmp x y ≡ some equal → x ≡ y
unfolding partial_cmp
partial_cmp_sound (num a) (num b) h = ap num (cmp_ℤ-equal a b (some-injective _ _ h))
partial_cmp_sound nan nan h = refl
partial_cmp_sound minus_inf minus_inf h = refl
partial_cmp_sound plus_inf plus_inf h = refl
partial_cmp_sound (num a) nan h = absurd (cc)
partial_cmp_sound (num a) minus_inf h = absurd (cc)
partial_cmp_sound (num a) plus_inf h = absurd (cc)
partial_cmp_sound nan (num b) h = absurd (cc)
partial_cmp_sound nan minus_inf h = absurd (cc)
partial_cmp_sound nan plus_inf h = absurd (cc)
partial_cmp_sound minus_inf (num b) h = absurd (cc)
partial_cmp_sound minus_inf nan h = absurd (cc)
partial_cmp_sound minus_inf plus_inf h = absurd (cc)
partial_cmp_sound plus_inf (num b) h = absurd (cc)
partial_cmp_sound plus_inf nan h = absurd (cc)
partial_cmp_sound plus_inf minus_inf h = absurd (cc)

partial_cmp_refl : (x : Int64) → partial_cmp x x ≡ some equal
unfolding partial_cmp
partial_cmp_refl (num a) = ap some (equal-cmp_ℤ a)
partial_cmp_refl nan = refl
partial_cmp_refl minus_inf = refl
partial_cmp_refl plus_inf = refl

-- `partial_cmp` answers `Equal` exactly for equal values.
pub partial_cmp-equal : (x y : Int64) → (partial_cmp x y ≡ some equal) ↔ (x ≡ y)
partial_cmp-equal x y =
    (partial_cmp_sound x y, λ e. subst (λ z. partial_cmp x z ≡ some equal) e (partial_cmp_refl x))

pub zero-add : (x : Int64) → IsI64 x → add (num (pos 0)) x ≡ x
unfolding add ◌+ℤ◌
zero-add x h = ground arith

pub div-one : (x : Int64) → div x (num (pos 1)) ≡ x
unfolding div ◌/ℤ◌
div-one x = ground arith
