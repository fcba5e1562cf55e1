-- ===== src/Table/Search.antt =====
-- crates/linear-hashtbl/src/raw.rs: the searches of `RawTable`, and the insertion and the removal
-- at the slot that a search has found.
use Prim.Native.Nat.{bit_and}
use oxidd.Prelude.{
  ℕ, zero, suc, ◌+◌, ◌-◌, Bool, not, ◌&&◌, Option, none, some, ◌==◌, if◌then◌else◌, ◌⊎◌, inl, inr,
  List, length, get_elem?, set,
}
use oxidd.Outcome.{Result, ok, err, panic, out_of_fuel, Run, and_then, raise, pure}
use oxidd.Table.{Slot, RawTable, is_power_of_two, reserve}
use oxidd.Table.Statuses.{Status}

module _ (S : Status) {T : Type 0} where
  -- One step of the loop of `find`, with the rest of the search.
  unfoldable pub find_at :
      ℕ → (T → Bool) → ℕ → Option (Slot T) → Result (Option ℕ) → Result (Option ℕ)
  find_at hash_status eq index none rest = err panic
  find_at hash_status eq index (some slot) rest =
      if slot.status == hash_status
      then elim slot.item [ none ↦ err panic | some x ↦ if eq x then ok (some index) else rest ]
      else if slot.status == S.free
      then ok none
      else rest

  unfoldable pub find_loop : ℕ → List (Slot T) → ℕ → ℕ → (T → Bool) → ℕ → Result (Option ℕ)
  find_loop zero slots mask hash_status eq index = err out_of_fuel
  find_loop (suc k) slots mask hash_status eq index =
      find_at hash_status eq index (get_elem? slots index)
        (find_loop k slots mask hash_status eq (bit_and (index + 1) mask))

  unfoldable pub find : RawTable T → ℕ → (T → Bool) → Result (Option ℕ)
  find t hash eq =
      let n = length t.slots in
      if t.free == 0
      then err panic
      else if t.len == 0
      then ok none
      else if is_power_of_two n
      then find_loop n t.slots (n - 1) (S.from_hash hash) eq (bit_and hash (n - 1))
      else err panic

  -- One step of the loop of `find_or_find_insert_slot`; a tombstone goes into the rest.
  unfoldable pub slot_at :
      ℕ → (T → Bool) → ℕ → Option (Slot T) → Option ℕ → (Option ℕ → Result (ℕ ⊎ ℕ)) → Result (ℕ ⊎ ℕ)
  slot_at hash_status eq index none first_tombstone rest = err panic
  slot_at hash_status eq index (some slot) first_tombstone rest =
      if slot.status == hash_status
      then elim slot.item [
        | none ↦ err panic
        | some x ↦ if eq x then ok (inl index) else rest first_tombstone
      ]
      else if slot.status == S.free
      then ok (inr (elim first_tombstone [ some i ↦ i | none ↦ index ]))
      else if slot.status == S.tombstone
      then rest (some index)
      else rest first_tombstone

  unfoldable pub slot_loop : ℕ → List (Slot T) → ℕ → ℕ → (T → Bool) → ℕ → Option ℕ → Result (ℕ ⊎ ℕ)
  slot_loop zero slots mask hash_status eq index first_tombstone = err out_of_fuel
  slot_loop (suc k) slots mask hash_status eq index first_tombstone =
      slot_at hash_status eq index (get_elem? slots index) first_tombstone
        (slot_loop k slots mask hash_status eq (bit_and (index + 1) mask))

  -- `Ok` is `inl`, the slot of the element, and `Err` is `inr`, an insertion slot.
  unfoldable pub find_or_find_insert_slot : ℕ → (T → Bool) → Run (RawTable T) (ℕ ⊎ ℕ)
  find_or_find_insert_slot hash eq t = and_then (reserve S 1 t).0 (reserve S 1 t).1 λ done u.
      let n = length u.slots in
      if is_power_of_two n
      then (slot_loop n u.slots (n - 1) (S.from_hash hash) eq (bit_and hash (n - 1)) none, u)
      else raise panic u

  abbrev pub item_at : RawTable T → ℕ → Option T
  item_at t index = elim (get_elem? t.slots index) [
    | none ↦ none
    | some slot ↦ if S.is_hash slot.status then slot.item else none
  ]

  unfoldable pub get : RawTable T → ℕ → (T → Bool) → Result (Option T)
  get t hash eq = elim (find t hash eq) [
    | err e ↦ err e
    | ok none ↦ ok none
    | ok (some index) ↦ elim (item_at t index) [ none ↦ err panic | some x ↦ ok (some x) ]
  ]

  unfoldable pub insert_in_slot_unchecked : ℕ → ℕ → T → Run (RawTable T) (Unit {0})
  insert_in_slot_unchecked hash slot val t = elim (get_elem? t.slots slot) [
    | none ↦ raise panic t
    | some old ↦
        if S.is_hash old.status
        then raise panic t
        else if not (old.status == S.tombstone) && t.free == 0
        then raise panic t
        else pure tt record {
          slots = set t.slots slot record { status = S.from_hash hash; item = some val };
          len = t.len + 1;
          free = if old.status == S.tombstone then t.free else t.free - 1;
        }
  ]

  -- The slot is cleared with its next one in view, then the item is read.
  unfoldable pub remove_at_slot_unchecked : ℕ → Run (RawTable T) T
  remove_at_slot_unchecked slot t =
      let next_slot_index = bit_and (slot + 1) (length t.slots - 1) in
      if t.len == 0 then raise panic t else elim (item_at t slot) [
        | none ↦ raise panic t
        | some x ↦ elim (get_elem? t.slots next_slot_index) [
          | none ↦ raise panic t
          | some next_slot ↦
              let is_free = next_slot.status == S.free in
              pure x record {
                slots =
                    set t.slots slot
                      record { status = if is_free then S.free else S.tombstone; item = none };
                len = t.len - 1;
                free = if is_free then t.free + 1 else t.free;
              }
        ]
      ]

  unfoldable pub remove_entry : ℕ → (T → Bool) → Run (RawTable T) (Option T)
  remove_entry hash eq t = elim (find t hash eq) [
    | err e ↦ raise e t
    | ok none ↦ pure none t
    | ok (some index) ↦
        and_then (remove_at_slot_unchecked index t).0 (remove_at_slot_unchecked index t).1
          λ x u. pure (some x) u
  ]
