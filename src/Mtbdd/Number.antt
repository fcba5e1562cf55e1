-- ===== src/Mtbdd/Number.antt =====
-- The trait `NumberBase` of crates/oxidd-core/src/function.rs as a record of operations, with the laws
-- that the terminal cases of crates/oxidd-rules-mtbdd/src/lib.rs rely on.
use oxidd.Prelude.{◌≡◌, Bool, true, Option}
use oxidd.Mtbdd.Int64.{Ordering}

pub record NumberBase (T : Type 0) : Type 0 where
  pub zero : T
  pub one : T
  pub nan : T
  pub eq : T → T → Bool
  pub partial_cmp : T → T → Option Ordering
  pub add : T → T → T
  pub sub : T → T → T
  pub mul : T → T → T
  pub div : T → T → T

-- `Valid` are the values that the type has.
pub record IsNumber {T : Type 0} (N : NumberBase T) (Valid : T → Type 0) : Type 0 where
  pub eq_sound : (a b : T) → (N.eq a b ≡ true) → a ≡ b
  pub zero_add : (a : T) → Valid a → N.add N.zero a ≡ a
  pub add_comm : (a b : T) → N.add a b ≡ N.add b a
  pub sub_zero : (a : T) → Valid a → N.sub a N.zero ≡ a
  pub one_mul : (a : T) → Valid a → N.mul N.one a ≡ a
  pub mul_comm : (a b : T) → N.mul a b ≡ N.mul b a
  pub div_one : (a : T) → N.div a N.one ≡ a
  pub nan_add : (a : T) → N.add N.nan a ≡ N.nan
  pub nan_mul : (a : T) → N.mul N.nan a ≡ N.nan
  pub nan_sub : (a : T) → (N.sub N.nan a ≡ N.nan) × (N.sub a N.nan ≡ N.nan)
  pub nan_div : (a : T) → (N.div N.nan a ≡ N.nan) × (N.div a N.nan ≡ N.nan)
