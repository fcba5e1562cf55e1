-- ===== src/Table/Insert.antt =====
-- `find_or_find_insert_slot` and `insert_in_slot_unchecked` of crates/linear-hashtbl/src/raw.rs.
use Prim.Native.Nat.{bit_and}
use oxidd.Prelude.{
  ℕ, ◌+◌, ◌-◌, ◌/◌, ◌≤◌, ◌≡◌, ◌∙◌, ap, sym, refl, subst, arith, Bool, true, false, ==_iff, none,
  some, ◌==◌, if◌then◌else◌, Bool-cases, ◌⊎◌, inl, inr, length, get_elem?, set, get_elem?-set_self,
  get_elem?_bound, count, count_found, count_le, count-set, one_if, length-set,
}
use oxidd.Outcome.{Result, ok, err, panic, out_of_memory, out_of_fuel, and_then, raise}
use oxidd.Table.{Slot, RawTable, reserve, is_power_of_two}
use oxidd.Table.Search.{find_or_find_insert_slot, slot_loop, insert_in_slot_unchecked}
use oxidd.Table.Statuses.{Status, IsLawful}
use oxidd.Table.Probe.{origin, masked_lt}
use oxidd.Table.Placed.{is_free, is_entry, passes, entry-is_free, fill-IsPlaced}
use oxidd.Table.Slots.{Opens, FindsSlot, slot_loop-FindsSlot}
use oxidd.Table.Capacity.{IsCapacity}
use oxidd.Table.Valid.{
  IsValid, home_of_hash, capacity_of_slots, size-is_power_of_two, passes-OnEntries,
}
use oxidd.Table.Reserve.{Reserved, TooLarge, Reserves, reserve-Reserves}

module _ (S : Status) {T : Type 0} where
  -- Every outcome of a search for an insertion slot.
  abbrev pub Prepares : ℕ → (T → Bool) → RawTable T → Result (ℕ ⊎ ℕ) × RawTable T → Type 0
  Prepares hash eq t (ok s, u) = Reserved S 1 t u × FindsSlot S u.slots (S.from_hash hash) eq (ok s)
  Prepares hash eq t (err panic, u) = TooLarge S 1 t × (u ≡ t)
  Prepares hash eq t (err out_of_memory, u) = ⊥
  Prepares hash eq t (err out_of_fuel, u) = ⊥

  module _ (law : IsLawful S) (hash : ℕ) (eq : T → Bool) where
    slots_from_home :
        {u : RawTable T}
        → IsValid S u
        → IsCapacity S (length u.slots)
        → FindsSlot S u.slots (S.from_hash hash) eq (
            slot_loop S
              (length u.slots)
              u.slots
              (length u.slots - 1)
              (S.from_hash hash)
              eq
              (bit_and hash (length u.slots - 1))
              none)
    slots_from_home {u} v c =
        let n = length u.slots in
        let (j, open_slot, at, free) =
          count_found (is_free S) u.slots (omega (arith, c.least, v.spare, v.free_slots)) in
        subst
          (λ i.
            FindsSlot S u.slots (S.from_hash hash) eq
              (slot_loop S n u.slots (n - 1) (S.from_hash hash) eq i none))
          (origin (masked_lt c.size _) ∙ home_of_hash S law c hash)
          (slot_loop-FindsSlot S eq (S.from_hash hash) law (law.hashed hash) u.slots v.placed c.size
            n 0 j open_slot none at free (omega arith) (λ e h. absurd (omega arith)) tt)

    with_room :
        {t u : RawTable T}
        → Reserved S 1 t u
        → (r : Result (ℕ ⊎ ℕ)) → FindsSlot S u.slots (S.from_hash hash) eq r
        → Prepares hash eq t (r, u)
    with_room m (ok s) f = (m, f)
    with_room m (err e) f = absurd f

    -- The search makes room for an entry, keeps the others and the invariant, and ends: at a matching
    -- entry, or, when there is none, at an empty slot that the entry may take. It fails only where the
    -- table would be too large.
    pub find_or_find_insert_slot-Prepares :
        (t : RawTable T) → IsValid S t → Prepares hash eq t (find_or_find_insert_slot S hash eq t)
    unfolding find_or_find_insert_slot
    find_or_find_insert_slot-Prepares t v = go (reserve S 1 t) (reserve-Reserves S law 1 t v)
      where
        go :
            (r : Result (Unit {0}) × RawTable T)
            → Reserves S 1 t r
            → Prepares hash eq t (
                and_then r.0 r.1 (λ done u.
                  let n = length u.slots in
                  if is_power_of_two n
                  then (
                    slot_loop S n u.slots (n - 1) (S.from_hash hash) eq (bit_and hash (n - 1)) none,
                    u,
                  )
                  else raise panic u))
        go (ok done, u) m =
            let c =
              capacity_of_slots S m.valid
                (omega (arith, m.room, m.valid.free_slots, count_le (is_free S) u.slots)) in
            rw (size-is_power_of_two c.size) (with_room m _ (slots_from_home m.valid c))
        go (err panic, u) m = m
        go (err out_of_memory, u) m = m
        go (err out_of_fuel, u) m = m

module _ (S : Status) {T : Type 0} where
  -- The table has one entry more, `val` at `slot`.
  pub record Gains (hash slot : ℕ) (val : T) (t u : RawTable T) : Type 0 where
    pub valid : IsValid S u
    pub longer : u.len ≡ t.len + 1
    pub stored :
        get_elem? u.slots slot ≡ some (record { status = S.from_hash hash; item = some val })
    pub counts :
        (p : ℕ → T → Bool)
        → count (passes S p) u.slots
          ≡ count (passes S p) t.slots + one_if (p (S.from_hash hash) val)

  abbrev pub Inserts : ℕ → ℕ → T → RawTable T → Result (Unit {0}) × RawTable T → Type 0
  Inserts hash slot val t (ok done, u) = Gains hash slot val t u
  Inserts hash slot val t (err e, u) = ⊥

  module _ (law : IsLawful S) (hash slot : ℕ) (val : T) where
    abbrev added_entry : Slot T
    added_entry = record { status = S.from_hash hash; item = some val }

    filled :
        (t : RawTable T) (free : ℕ)
        → IsValid S t
        → (o : Opens S t.slots (S.from_hash hash) slot) → length t.slots / 4 ≤ free
        → free + one_if (is_free S o.slot) ≤ t.free
        → Gains hash slot val t
            (record { slots = set t.slots slot added_entry; len = t.len + 1; free = free })
    filled t free v o room fewer =
        let inside = get_elem?_bound t.slots slot o.at in
        let size = length-set t.slots slot added_entry in
        let hashed = law.hashed hash in
        let busy : is_free S added_entry ≡ false = entry-is_free S law added_entry hashed in
        record {
          valid = record {
            shape = subst (λ n. (n ≡ 0) ⊎ IsCapacity S n) (sym size) v.shape;
            placed =
                fill-IsPlaced S law slot added_entry inside v.placed
                  record {
                    initialised = λ h. (val, refl);
                    reached = λ h. o.reached;
                    marked = λ h. absurd (cc);
                  }
                  busy;
            counted = omega (
              arith,
              v.counted,
              count-set (is_entry S) t.slots slot added_entry o.at,
              ap one_if o.vacant,
              ap one_if hashed,
            );
            free_slots = omega (
              arith,
              v.free_slots,
              count-set (is_free S) t.slots slot added_entry o.at,
              ap one_if busy,
            );
            spare = omega (arith, size);
          };
          longer = refl;
          stored = get_elem?-set_self t.slots slot added_entry inside;
          counts = λ p.
              let old_fails : passes S p o.slot ≡ false = passes-OnEntries S p o.slot o.vacant in
              let new_passes : passes S p added_entry ≡ p (S.from_hash hash) val = rw hashed refl in
              omega (
                arith,
                count-set (passes S p) t.slots slot added_entry o.at,
                ap one_if old_fails,
                ap one_if new_passes,
              );
        }

    -- An insertion into such a slot ends well when there is room, and adds exactly the entry.
    pub insert_in_slot_unchecked-Inserts :
        (t : RawTable T)
        → IsValid S t
        → 1 + length t.slots / 4 ≤ t.free
        → Opens S t.slots (S.from_hash hash) slot
        → Inserts hash slot val t (insert_in_slot_unchecked S hash slot val t)
    unfolding insert_in_slot_unchecked
    insert_in_slot_unchecked-Inserts t v room o =
        rw (o.at, insert_in_slot_unchecked, o.vacant)
          (elim (Bool-cases (o.slot.status == S.tombstone)) [
            | inl h ↦
                let not_free : is_free S o.slot ≡ false =
                  subst (λ s. (s == S.free) ≡ false) (sym ((==_iff o.slot.status S.tombstone).0 h))
                    law.distinct in
                rw h (filled t t.free v o (omega arith) (omega (arith, ap one_if not_free)))
            | inr h ↦
                let some_free : (t.free == 0) ≡ false = ground arith in
                rw (h, some_free)
                  (filled t (t.free - 1) v o (omega arith) (one_less (is_free S o.slot)))
          ])
      where
        one_less : (b : Bool) → t.free - 1 + one_if b ≤ t.free
        one_less true = omega arith
        one_less false = omega arith
