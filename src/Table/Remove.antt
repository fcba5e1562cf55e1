-- ===== src/Table/Remove.antt =====
-- `remove_at_slot_unchecked` and `remove_entry` of crates/linear-hashtbl/src/raw.rs.
use Prim.Native.Nat.{bit_and}
use oxidd.Prelude.{
  ℕ, ◌+◌, ◌-◌, ◌≤◌, ◌≡◌, ap, sym, refl, subst, arith, Bool, true, false, Option, none, some, ◌==◌,
  Bool-cases, ◌⊎◌, inl, inr, length, get_elem?, set, get_elem?_bound, get_elem?-some, count,
  count-set, count_pos, one_if, length-set,
}
use oxidd.Outcome.{Result, ok, err, panic, out_of_memory, out_of_fuel, and_then, pure, raise}
use oxidd.Table.{Slot, RawTable}
use oxidd.Table.Search.{find, item_at, remove_at_slot_unchecked, remove_entry}
use oxidd.Table.Statuses.{Status, IsLawful}
use oxidd.Table.Probe.{masked_lt}
use oxidd.Table.Placed.{
  is_free, is_entry, passes, IsPlaced, entry-is_free, vacant-Fits, fill-IsPlaced, free-IsPlaced,
}
use oxidd.Table.Find.{Finds, Lacks}
use oxidd.Table.Capacity.{IsCapacity}
use oxidd.Table.Valid.{IsValid, capacity_of_slots, passes-OnEntries, find-Finds}

module _ (S : Status) {T : Type 0} where
  -- The table has one entry less, `x` with its status.
  pub record Loses (status : ℕ) (x : T) (t u : RawTable T) : Type 0 where
    pub valid : IsValid S u
    pub shorter : u.len + 1 ≡ t.len
    pub counts :
        (p : ℕ → T → Bool)
        → count (passes S p) u.slots + one_if (p status x) ≡ count (passes S p) t.slots

  abbrev pub Takes : ℕ → T → RawTable T → Result T × RawTable T → Type 0
  Takes status x t (ok y, u) = (y ≡ x) × Loses status x t u
  Takes status x t (err e, u) = ⊥

  abbrev pub Removes : ℕ → (T → Bool) → RawTable T → Result (Option T) × RawTable T → Type 0
  Removes hash eq t (ok (some x), u) = (eq x ≡ true) × Loses (S.from_hash hash) x t u
  Removes hash eq t (ok none, u) = Lacks t.slots (S.from_hash hash) eq × (u ≡ t)
  Removes hash eq t (err panic, u) = (length t.slots ≡ 0) × (u ≡ t)
  Removes hash eq t (err out_of_memory, u) = ⊥
  Removes hash eq t (err out_of_fuel, u) = ⊥

  abbrev gone : ℕ → Slot T
  gone mark = record { status = mark; item = none }

  module _ (law : IsLawful S) (t : RawTable T) (v : IsValid S t) where
    emptied :
        (i status mark free : ℕ) (x : T)
        → (at : get_elem? t.slots i ≡ some (record { status = status; item = some x }))
        → S.is_hash status ≡ true
        → S.is_hash mark ≡ false
        → IsPlaced S (set t.slots i (gone mark))
        → t.free ≤ free
        → free ≤ t.free + one_if (mark == S.free)
        → Loses status x t
            (record { slots = set t.slots i (gone mark); len = t.len - 1; free = free })
    emptied i status mark free x at hashed vacant placed more fewer =
        let old : Slot T = record { status = status; item = some x } in
        let size = length-set t.slots i (gone mark) in
        let old_busy : one_if (is_free S old) ≡ 0 = ap one_if (entry-is_free S law old hashed) in
        let some_entry = count_pos (is_entry S) t.slots i at hashed in
        record {
          valid = record {
            shape = subst (λ n. (n ≡ 0) ⊎ IsCapacity S n) (sym size) v.shape;
            placed = placed;
            counted = omega (
              arith,
              v.counted,
              count-set (is_entry S) t.slots i (gone mark) at,
              ap one_if vacant,
              ap one_if hashed,
            );
            free_slots =
                omega
                  (arith, v.free_slots, count-set (is_free S) t.slots i (gone mark) at, old_busy);
            spare = omega (arith, v.spare, size);
          };
          shorter = omega (arith, v.counted, some_entry);
          counts = λ p.
              let old_passes : passes S p old ≡ p status x = rw hashed refl in
              let gone_fails : passes S p (gone mark) ≡ false =
                passes-OnEntries S p (gone mark) vacant in
              omega (
                arith,
                count-set (passes S p) t.slots i (gone mark) at,
                ap one_if old_passes,
                ap one_if gone_fails,
              );
        }

    -- A removal at the slot of an entry ends well, and takes exactly the entry out.
    pub remove_at_slot_unchecked-Takes :
        (i status : ℕ) (x : T)
        → get_elem? t.slots i ≡ some (record { status = status; item = some x })
        → S.is_hash status ≡ true
        → Takes status x t (remove_at_slot_unchecked S i t)
    unfolding remove_at_slot_unchecked
    remove_at_slot_unchecked-Takes i status x at hashed =
        let inside = get_elem?_bound t.slots i at in
        let c = capacity_of_slots S v (omega arith) in
        let (next, there) =
          get_elem?-some t.slots (bit_and (i + 1) (length t.slots - 1))
            (masked_lt c.size (i + 1)) in
        let nonempty : (t.len == 0) ≡ false =
          ground (arith, v.counted, count_pos (is_entry S) t.slots i at hashed) in
        let occupied : item_at S t i ≡ some x = rw (at, item_at, hashed) refl in
        elim (Bool-cases (is_free S next)) [
          | inl h ↦
              rw (nonempty, occupied, there, h)
                (
                  refl,
                  emptied i status S.free (t.free + 1) x at hashed law.free_unhashed
                      (free-IsPlaced S law i (gone S.free) next c.size inside v.placed refl there h)
                      (omega arith) (ground arith),
                )
          | inr h ↦
              rw (nonempty, occupied, there, h)
                (
                  refl,
                  emptied i status S.tombstone t.free x at hashed law.tombstone_unhashed
                      (fill-IsPlaced S law i (gone S.tombstone) inside v.placed
                        (vacant-Fits S law i (gone S.tombstone) law.tombstone_unhashed (inr refl))
                        law.distinct)
                      (omega arith) (omega arith),
                )
        ]

    -- `remove_entry` takes out an entry that matches, when there is one, and otherwise changes nothing.
    -- It panics on a table without slots.
    pub remove_entry-Removes :
        (hash : ℕ) (eq : T → Bool) → Removes hash eq t (remove_entry S hash eq t)
    unfolding remove_entry
    remove_entry-Removes hash eq = go (find S t hash eq) (find-Finds S t hash eq law v)
      where
        taken :
            {x y : T} {u : RawTable T}
            → x ≡ y
            → eq y ≡ true
            → Loses (S.from_hash hash) y t u
            → Removes hash eq t (ok (some x), u)
        taken {u = u} e h l =
            subst (λ z. (eq z ≡ true) × Loses (S.from_hash hash) z t u) (sym e) (h, l)

        took :
            (x : T) (r : Result T × RawTable T)
            → eq x ≡ true
            → Takes (S.from_hash hash) x t r
            → Removes hash eq t (and_then r.0 r.1 (λ x u. pure (some x) u))
        took x (ok y, u) h (e, l) = taken e h l
        took x (err e, u) h l = absurd l

        go :
            (r : Result (Option ℕ))
            → ((length t.slots ≡ 0) × (r ≡ err panic)) ⊎ Finds t.slots (S.from_hash hash) eq r
            → Removes hash eq t (elim r [
              | err e ↦ raise e t
              | ok none ↦ pure none t
              | ok (some index) ↦
                  and_then
                    (remove_at_slot_unchecked S index t).0
                    (remove_at_slot_unchecked S index t).1
                    λ x u. pure (some x) u
            ])
        go (ok (some i)) (inr (x, at, h)) =
            took x _ h (remove_at_slot_unchecked-Takes i (S.from_hash hash) x at (law.hashed hash))
        go (ok none) (inr lacks) = (lacks, refl)
        go (err e) (inr f) = absurd f
        go (err panic) (inl (e, f)) = (e, refl)
        go (ok (some i)) (inl (e, f)) = absurd (cc)
        go (ok none) (inl (e, f)) = absurd (cc)
        go (err out_of_memory) (inl (e, f)) = absurd (cc)
        go (err out_of_fuel) (inl (e, f)) = absurd (cc)
