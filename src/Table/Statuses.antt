-- ===== src/Table/Statuses.antt =====
-- crates/linear-hashtbl/src/raw.rs: the trait `Status` as a record of operations and laws, and its
-- implementations for `usize` (of 64 bits) and `u32`. A status is a number.
use Prim.Native.Nat.{bit_and}
use oxidd.Prelude.{
  ℕ, ◌-◌, ◌%◌, ◌^◌, ◌≡◌, ◌∙◌, sym, refl, Bool, true, false, arith, leb, leb→le, ◌==◌,
}
use oxidd.Table.Mask.{double, mod_kept, bit_and_ones, bit_and_ones_twice}

pub record Status : Type 0 where
  pub free : ℕ
  pub tombstone : ℕ
  pub from_hash : ℕ → ℕ
  pub check_capacity : ℕ → Bool
  pub is_hash : ℕ → Bool
  pub hash_as_usize : ℕ → ℕ

-- The safety contract of the trait, and what the callers rely on beyond it: the low digits of a
-- hash value survive its conversion, as far as a table of a checked capacity reads them.
pub record IsLawful (S : Status) : Type 0 where
  pub free_unhashed : S.is_hash S.free ≡ false
  pub tombstone_unhashed : S.is_hash S.tombstone ≡ false
  pub distinct : (S.tombstone == S.free) ≡ false
  pub hashed : (h : ℕ) → S.is_hash (S.from_hash h) ≡ true
  pub masked :
      (h k : ℕ)
      → S.check_capacity (double k) ≡ true
      → bit_and (S.hash_as_usize (S.from_hash h)) (double k - 1) ≡ bit_and h (double k - 1)

unfoldable pub usize_status : Status
usize_status = record {
  free = 2 ^ 64 - 1;
  tombstone = 2 ^ 64 - 1 - 1;
  from_hash = λ hash. bit_and hash (2 ^ 63 - 1);
  check_capacity = λ capacity. leb capacity (2 ^ 63);
  is_hash = λ s. leb s (2 ^ 63 - 1);
  hash_as_usize = λ s. s;
}

unfoldable pub u32_status : Status
u32_status = record {
  free = 2 ^ 32 - 1;
  tombstone = 2 ^ 32 - 1 - 1;
  from_hash = λ hash. bit_and (hash % 2 ^ 32) (2 ^ 31 - 1);
  check_capacity = λ capacity. leb capacity (2 ^ 31);
  is_hash = λ s. leb s (2 ^ 31 - 1);
  hash_as_usize = λ s. s;
}

pub usize_status-IsLawful : IsLawful usize_status
unfolding usize_status
usize_status-IsLawful = record {
  free_unhashed = refl;
  tombstone_unhashed = refl;
  distinct = refl;
  hashed = λ h. ground (arith, bit_and_ones h 63);
  masked = λ h k c. bit_and_ones_twice h k 63 (leb→le (double k) (2 ^ 63) c);
}

pub u32_status-IsLawful : IsLawful u32_status
unfolding u32_status
u32_status-IsLawful = record {
  free_unhashed = refl;
  tombstone_unhashed = refl;
  distinct = refl;
  hashed = λ h. ground (arith, bit_and_ones (h % 2 ^ 32) 31);
  masked = λ h k c.
      let small = leb→le (double k) (2 ^ 31) c in
      bit_and_ones_twice (h % 2 ^ 32) k 31 small
      ∙ (bit_and_ones (h % 2 ^ 32) k ∙ (mod_kept h k 32 (omega arith) ∙ sym (bit_and_ones h k)));
}
