-- ===== src/Table.antt =====
-- crates/linear-hashtbl/src/raw.rs: the hash table with linear probing. A table is the list of its
-- slots and two counters; `MaybeUninit` is an `Option`, whose `none` is memory that must not be
-- read. The equality that a search is given is a Boolean test on the items. The debug assertions
-- and the overflow checks of a debug build are panics. A probing loop runs on fuel, one unit for
-- each slot of the table.
pub mod Mask
pub mod Statuses
pub mod Search
pub mod Probe
pub mod Placed
pub mod Find
pub mod Slots
pub mod Rehash
pub mod Capacity
pub mod Valid
pub mod Reserve
pub mod Insert
pub mod Remove
pub mod Clear
pub mod Lookup
use Prim.Native.Nat.{bit_and}
use oxidd.Prelude.{
  ℕ, zero, suc, ◌+◌, ◌-◌, ◌*◌, ◌/◌, ◌^◌, Bool, true, false, not, ◌&&◌, Option, none, some, List, [],
  ◌∷◌, ltb, leb, ◌==◌, if◌then◌else◌, ◌⊎◌, inl, inr, length, get_elem?, set, replicate,
}
use oxidd.Outcome.{Result, ok, err, panic, out_of_fuel, Run, and_then, ◌>>=◌, ◌>>◌, raise, pure}
use oxidd.Table.Statuses.{Status}

pub record Slot (T : Type 0) : Type 0 where
  pub status : ℕ
  pub item : Option T

pub record RawTable (T : Type 0) : Type 0 where
  pub slots : List (Slot T)
  pub len : ℕ
  pub free : ℕ

-- `usize::is_power_of_two` and `usize::next_power_of_two`; none is the overflow.
abbrev pub is_power_of_two : ℕ → Bool
is_power_of_two n = not (n == 0) && bit_and n (n - 1) == 0

unfoldable pub power_from : ℕ → ℕ → ℕ → Option ℕ
power_from zero p n = none
power_from (suc k) p n = let rest = power_from k (p * 2) n in if leb n p then some p else rest

abbrev pub next_power_of_two : ℕ → Option ℕ
next_power_of_two n = power_from 64 1 n

abbrev pub max_of : ℕ → ℕ → ℕ
max_of a b = if leb a b then b else a

abbrev pub with_place : {A : Type 0} → Result ℕ → (ℕ → Result A) → Result A
with_place (ok index) f = f index
with_place (err e) f = err e

module _ (S : Status) where
  abbrev pub capacity_of : Option ℕ → Result ℕ
  capacity_of none = err panic
  capacity_of (some p) =
      let capacity = max_of p 16 in if S.check_capacity capacity then ok capacity else err panic

  unfoldable pub next_capacity : ℕ → Result ℕ
  next_capacity requested =
      if requested == 0
      then ok 0
      else if leb (2 ^ 64) (requested * 4)
      then err panic
      else capacity_of (next_power_of_two (requested * 4 / 3))

module _ (S : Status) {T : Type 0} where
  abbrev pub free_slot : Slot T
  free_slot = record { status = S.free; item = none }

  -- The loop of `reserve_rehash` that looks for the slot of one entry.
  abbrev pub place_at : ℕ → Option (Slot T) → Result ℕ → Result ℕ
  place_at index none rest = err panic
  place_at index (some slot) rest = if slot.status == S.free then ok index else rest

  unfoldable pub place_loop : ℕ → List (Slot T) → ℕ → ℕ → Result ℕ
  place_loop zero slots mask index = err out_of_fuel
  place_loop (suc k) slots mask index =
      place_at index (get_elem? slots index) (place_loop k slots mask (bit_and (index + 1) mask))

  -- The loop of `reserve_rehash` over the old slots.
  unfoldable pub rehash_loop : List (Slot T) → List (Slot T) → Result (List (Slot T))
  rehash_loop [] slots = ok slots
  rehash_loop (slot ∷ old) slots =
      let mask = length slots - 1 in
      let start = bit_and (S.hash_as_usize slot.status) mask in
      elim (S.is_hash slot.status) [
        | true ↦
            with_place (place_loop (length slots) slots mask start)
              (λ index. rehash_loop old (set slots index slot))
        | false ↦ rehash_loop old slots
      ]

  unfoldable pub new : RawTable T
  new = record { slots = []; len = 0; free = 0 }

  unfoldable pub with_capacity : ℕ → Result (RawTable T)
  with_capacity requested = elim (next_capacity S requested) [
    | err e ↦ err e
    | ok capacity ↦ ok record { slots = replicate capacity free_slot; len = 0; free = capacity }
  ]

  abbrev pub is_empty : RawTable T → Bool
  is_empty t = t.len == 0

  abbrev pub capacity : RawTable T → ℕ
  capacity t = length t.slots / 4 * 3

  -- The old slots have been moved out when the subtraction `new_cap - 1` is made.
  unfoldable pub rehash_into : ℕ → Run (RawTable T) (Unit {0})
  rehash_into new_cap t =
      if new_cap == 0
      then raise panic (record t { slots = [] })
      else and_then (rehash_loop t.slots (replicate new_cap free_slot)) (record t { slots = [] })
          λ slots u. pure tt record { slots = slots; len = u.len; free = new_cap - u.len }

  unfoldable pub reserve_rehash : ℕ → Run (RawTable T) (Unit {0})
  reserve_rehash additional t =
      if leb (2 ^ 64) (t.len + additional)
      then raise panic t
      else and_then (next_capacity S (t.len + additional)) t rehash_into

  unfoldable pub reserve : ℕ → Run (RawTable T) (Unit {0})
  reserve additional t =
      if leb (2 ^ 64) (additional + length t.slots / 4)
      then raise panic t
      else if ltb t.free (additional + length t.slots / 4)
      then reserve_rehash additional t
      else pure tt t

  abbrev pub then_cons : Slot T → Result (List (Slot T)) → Result (List (Slot T))
  then_cons slot (ok slots) = ok (slot ∷ slots)
  then_cons slot (err e) = err e

  abbrev pub emptied : (Option T → Option T) → Slot T → Slot T
  emptied after slot = record { status = S.free; item = after slot.item }

  -- The loop of `clear` and of `clear_no_drop`, which differ in what is left of an item.
  unfoldable pub clear_loop : (Option T → Option T) → List (Slot T) → ℕ → Result (List (Slot T))
  clear_loop after [] len = err panic
  clear_loop after (slot ∷ slots) len = elim (S.is_hash slot.status) [
    | true ↦ elim (len - 1 == 0) [
      | true ↦ ok (emptied after slot ∷ slots)
      | false ↦ then_cons (emptied after slot) (clear_loop after slots (len - 1))
    ]
    | false ↦ then_cons (record slot { status = S.free }) (clear_loop after slots len)
  ]

  abbrev pub clear_with : (Option T → Option T) → Run (RawTable T) (Unit {0})
  clear_with after t =
      if t.len == 0
      then pure tt t
      else and_then (clear_loop after t.slots t.len) t
          λ slots u. pure tt record u { slots = slots; len = 0 }

  unfoldable pub clear : Run (RawTable T) (Unit {0})
  clear = clear_with (λ item. none)

  unfoldable pub clear_no_drop : Run (RawTable T) (Unit {0})
  clear_no_drop = clear_with (λ item. item)

  unfoldable pub reset_no_drop : RawTable T → RawTable T
  reset_no_drop t = record t { len = 0; slots = [] }
