-- ===== src/Table/Valid.antt =====
-- The invariant of `RawTable` in crates/linear-hashtbl/src/raw.rs, of new tables, of `find` and of
-- `reserve`.
use Prim.Native.Nat.{bit_and}
use native.Mathlib.Nat.{mod_self}
use oxidd.Prelude.{
  ℕ, ◌-◌, ◌/◌, ◌≤◌, ◌<◌, ◌≡◌, ◌∙◌, sym, refl, subst, arith, Bool, true, false, ◌==◌, Bool-cases,
  ◌⊎◌, inl, inr, length, count, count_found, count_le, count_pos,
}
use oxidd.Outcome.{err, panic}
use oxidd.Table.{RawTable, is_power_of_two}
use oxidd.Table.Search.{find, find_loop}
use oxidd.Table.Statuses.{Status, IsLawful}
use oxidd.Table.Mask.{double, double_pos, bit_and_ones}
use oxidd.Table.Probe.{IsSize, origin, masked_lt}
use oxidd.Table.Placed.{is_free, is_entry, passes, home, IsPlaced}
use oxidd.Table.Find.{Finds, Lacks, find_loop-Finds}
use oxidd.Table.Rehash.{OnEntries}
use oxidd.Table.Capacity.{IsCapacity}

module _ (S : Status) where
  -- The home of a hash value, as `find` computes it.
  pub home_of_hash :
      {n : ℕ}
      → IsLawful S
      → IsCapacity S n
      → (hash : ℕ) → home S n (S.from_hash hash) ≡ bit_and hash (n - 1)
  home_of_hash {n} law c hash =
      let (k, e) = c.size in
      subst (λ m. home S m (S.from_hash hash) ≡ bit_and hash (m - 1)) (sym e)
        (law.masked hash k (subst (λ m. S.check_capacity m ≡ true) e c.checked))

module _ (S : Status) {T : Type 0} where
  -- A table without slots, or one with entries in their places and spare free slots.
  pub record IsValid (t : RawTable T) : Type 0 where
    pub shape : (length t.slots ≡ 0) ⊎ IsCapacity S (length t.slots)
    pub placed : IsPlaced S t.slots
    pub counted : t.len ≡ count (is_entry S) t.slots
    pub free_slots : t.free ≤ count (is_free S) t.slots
    pub spare : length t.slots / 4 ≤ t.free

  pub passes-OnEntries : (p : ℕ → T → Bool) → OnEntries S (passes S p)
  passes-OnEntries p slot h = rw h refl

  pub capacity_of_slots :
      {t : RawTable T} → IsValid t → 0 < length t.slots → IsCapacity S (length t.slots)
  capacity_of_slots v h = elim v.shape [ inl e ↦ absurd (omega arith) | inr c ↦ c ]

  pub has_free : {t : RawTable T} → IsValid t → 0 < length t.slots → 1 ≤ t.free
  has_free v h = let c = capacity_of_slots v h in omega (arith, c.least, v.spare)

pub size-is_power_of_two : {n : ℕ} → IsSize n → is_power_of_two n ≡ true
size-is_power_of_two {n} (k, e) =
    rw (e, bit_and_ones (double k) k) (ground (arith, double_pos k, mod_self (double k)))

module _ (S : Status) {T : Type 0} where
  -- With no entries, nothing matches.
  no_entries-Lacks :
      {t : RawTable T} (hash : ℕ) (eq : T → Bool)
      → IsLawful S
      → IsValid S t
      → t.len ≡ 0
      → Lacks t.slots (S.from_hash hash) eq
  no_entries-Lacks {t} hash eq law v h i x at =
      absurd (omega (arith, v.counted, count_pos (is_entry S) t.slots i at (law.hashed hash)))

  search_from_home :
      {t : RawTable T} (hash : ℕ) (eq : T → Bool)
      → IsLawful S
      → IsValid S t
      → IsCapacity S (length t.slots)
      → Finds t.slots (S.from_hash hash) eq (
          find_loop S
            (length t.slots)
            t.slots
            (length t.slots - 1)
            (S.from_hash hash)
            eq
            (bit_and hash (length t.slots - 1)))
  search_from_home {t} hash eq law v c =
      let n = length t.slots in
      let (j, open_slot, at, free) =
        count_found (is_free S) t.slots (omega (arith, c.least, v.spare, v.free_slots)) in
      subst
        (λ i.
          Finds t.slots (S.from_hash hash) eq
            (find_loop S n t.slots (n - 1) (S.from_hash hash) eq i))
        (origin (masked_lt c.size _) ∙ home_of_hash S law c hash)
        (find_loop-Finds S eq (S.from_hash hash) law (law.hashed hash) t.slots v.placed c.size n 0 j
          open_slot at free (omega arith) (λ e h. absurd (omega arith)))

  -- On a valid table `find` ends without an error: with the slot of an entry that has the hash status
  -- and passes the test, or with none, and then no entry of the table does. It panics on a table
  -- without slots.
  pub find-Finds :
      (t : RawTable T) (hash : ℕ) (eq : T → Bool)
      → IsLawful S
      → IsValid S t
      → ((length t.slots ≡ 0) × (find S t hash eq ≡ err panic))
        ⊎ Finds t.slots (S.from_hash hash) eq (find S t hash eq)
  unfolding find
  find-Finds t hash eq law v = elim v.shape [
    | inl e ↦
        let none_free : t.free ≡ 0 = omega (arith, v.free_slots, count_le (is_free S) t.slots) in
        inl (e, rw none_free refl)
    | inr c ↦
        let some_free : (t.free == 0) ≡ false = ground (arith, c.least, v.spare) in
        elim (Bool-cases (t.len == 0)) [
          | inl z ↦ inr (rw (some_free, z) (no_entries-Lacks hash eq law v (ground arith)))
          | inr z ↦
              inr
                (rw (some_free, z, size-is_power_of_two c.size) (search_from_home hash eq law v c))
        ]
  ]
