-- ===== src/Table/Mask.antt =====
-- `index & mask` with a mask of ones, as the hash table of crates/linear-hashtbl/src/raw.rs
-- uses it: the remainder by a power of two.
use Prim.Native.Nat.{◌∣◌, bit_and, digits, bit_and-bitwise}
use native.Mathlib.Nat.{
  zero-mod, mod-lt, mod-eq_of_lt, div-add-mod', add-mul-mod_self_right, mod-mod_of_dvd,
  dvd-mul_left,
}
use oxidd.Prelude.{
  ℕ, zero, suc, ◌+◌, ◌-◌, ◌*◌, ◌/◌, ◌%◌, ◌≤◌, ◌<◌, ◌≡◌, sym, ap, ◌∙◌, subst, min, arith, leb,
  leb→le, Bool-cases, inl, inr,
}

-- Powers of two, doubled step by step.
abbrev pub double : ℕ → ℕ
double zero = 1
double (suc k) = double k * 2

pub double_pos : (k : ℕ) → 1 ≤ double k
double_pos zero = omega arith
double_pos (suc k) = omega (arith, double_pos k)

double-add : (k l : ℕ) → double (k + l) ≡ double l * double k
double-add zero l = grind arith
double-add (suc k) l = grind (arith, double-add k l)

mod-double : (a k : ℕ) → a / 2 % double k * 2 + a % 2 ≡ a % double (suc k)
mod-double a k =
    let quotient = a / 2 / double k in
    let rest = a / 2 % double k * 2 + a % 2 in
    let split : a ≡ rest + quotient * double (suc k) =
      grind (arith, div-add-mod' (a / 2) (double k)) in
    let small : rest < double (suc k) =
      omega (arith, mod-lt (a / 2) {m = double k} (double_pos k)) in
    sym (
      ap (λ x. x % double (suc k)) split
      ∙ (add-mul-mod_self_right rest quotient (double (suc k)) ∙ mod-eq_of_lt small))

half : (k : ℕ) → (double k * 2 - 1) / 2 ≡ double k - 1
half k = omega (arith, double_pos k)

-- The digits of a conjunction with `k` ones, for any supply of digits that covers the number.
low_digits :
    (supply a k : ℕ) → a ≤ supply → digits (λ b. zero) min supply a (double k - 1) ≡ a % double k
low_digits zero zero k h = sym (zero-mod (double k))
low_digits (suc supply) zero k h = sym (zero-mod (double k))
low_digits zero (suc a) k h = absurd (omega arith)
low_digits (suc supply) (suc a) zero h =
    omega (arith, low_digits supply (suc a / 2) 0 (omega arith))
low_digits (suc supply) (suc a) (suc k) h =
    let rest : digits (λ b. zero) min supply (suc a / 2) ((double k * 2 - 1) / 2)
        ≡ suc a / 2 % double k =
      rw (half k) (low_digits supply (suc a / 2) k (omega arith)) in
    omega (arith, double_pos k, mod-double (suc a) k, rest)

pub bit_and_ones : (a k : ℕ) → bit_and a (double k - 1) ≡ a % double k
bit_and_ones a k = bit_and-bitwise a (double k - 1) ∙ low_digits a a k (omega arith)

-- The low digits of a number, taken from more of its low digits.
mod-mod_double : (a k l : ℕ) → k ≤ l → a % double l % double k ≡ a % double k
mod-mod_double a k l h =
    mod-mod_of_dvd (double k) a (subst (λ m. double k ∣ double m) (omega arith) (divides k (l - k)))
  where
    divides : (a b : ℕ) → double a ∣ double (a + b)
    divides a b = rw (double-add a b) (dvd-mul_left (double a) (double b))

pub double_mono : (k l : ℕ) → k ≤ l → double k ≤ double l
double_mono zero l h = double_pos l
double_mono (suc k) zero h = absurd (omega arith)
double_mono (suc k) (suc l) h = omega (arith, double_mono k l (omega arith))

-- The digits that a smaller remainder, and a smaller mask, keep.
pub mod_kept : (a k l : ℕ) → double k ≤ double l → a % double l % double k ≡ a % double k
mod_kept a k l h = elim (Bool-cases (leb k l)) [
  | inl p ↦ mod-mod_double a k l (leb→le k l p)
  | inr p ↦ absurd (omega (arith, double_mono (suc l) k (ground arith), double_pos l))
]

pub bit_and_ones_twice :
    (a k l : ℕ)
    → double k ≤ double l
    → bit_and (bit_and a (double l - 1)) (double k - 1) ≡ bit_and a (double k - 1)
bit_and_ones_twice a k l h =
    rw (bit_and_ones a l, bit_and_ones (a % double l) k, bit_and_ones a k) (mod_kept a k l h)
