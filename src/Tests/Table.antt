-- ===== src/Tests/Table.antt =====
-- A hash table with two colliding entries, and the theorems on the hash table applied there.
use oxidd.Prelude.{
  ℕ, ◌≡◌, refl, subst, Bool, ◌==◌, ==_iff, some, ◌⊎◌, inr, arith, length, replicate, set,
}
use oxidd.Outcome.{ok, err, panic}
use oxidd.Table.{
  Slot, RawTable, new, free_slot, power_from, next_capacity, place_loop, rehash_loop, rehash_into,
  reserve_rehash, reserve, with_capacity, clear, clear_no_drop, reset_no_drop,
}
use oxidd.Table.Search.{
  find, slot_at, slot_loop, find_or_find_insert_slot, get, insert_in_slot_unchecked, remove_entry,
}
use oxidd.Table.Statuses.{usize_status, usize_status-IsLawful}
use oxidd.Table.Find.{Finds}
use oxidd.Table.Valid.{find-Finds}
use oxidd.Table.Reserve.{Reserves, reserve-Reserves, new-IsValid, Made, with_capacity-Made}
use oxidd.Table.Insert.{
  Prepares, find_or_find_insert_slot-Prepares, Inserts, insert_in_slot_unchecked-Inserts,
}
use oxidd.Table.Remove.{Removes, remove_entry-Removes}
use oxidd.Table.Clear.{Clears, clear-Clears, find_or_find_insert_slot-reset_no_drop}
use oxidd.Table.Capacity.{Capacity, next_capacity-Capacity}
use oxidd.Table.Lookup.{get-insert_in_slot_unchecked}

abbrev is : ℕ → ℕ → Bool
is x y = y == x

abbrev entry_of : ℕ → Slot ℕ
entry_of x = record { status = x; item = some x }

abbrev empty : RawTable ℕ
empty = record { slots = replicate 16 (free_slot usize_status); len = 0; free = 16 }

abbrev one : RawTable ℕ
one = record { slots = set empty.slots 3 (entry_of 3); len = 1; free = 15 }

abbrev two : RawTable ℕ
two = record { slots = set one.slots 4 (entry_of 19); len = 2; free = 14 }

first_slot : find_or_find_insert_slot usize_status 3 (is 3) (new usize_status) ≡ (ok (inr 3), empty)
unfolding usize_status new power_from next_capacity place_loop rehash_loop rehash_into
    reserve_rehash reserve slot_at slot_loop find_or_find_insert_slot
first_slot = refl

first_entry : insert_in_slot_unchecked usize_status 3 3 3 empty ≡ (ok tt, one)
unfolding usize_status insert_in_slot_unchecked
first_entry = refl

next_slot : find_or_find_insert_slot usize_status 19 (is 19) one ≡ (ok (inr 4), one)
unfolding usize_status reserve slot_at slot_loop find_or_find_insert_slot
next_slot = refl

next_entry : insert_in_slot_unchecked usize_status 19 4 19 one ≡ (ok tt, two)
unfolding usize_status insert_in_slot_unchecked
next_entry = refl

pub prepared : Prepares usize_status 3 (is 3) (new usize_status) (ok (inr 3), empty)
prepared = subst (Prepares usize_status 3 (is 3) (new usize_status)) first_slot (
    find_or_find_insert_slot-Prepares usize_status usize_status-IsLawful 3 (is 3) (new usize_status)
      (new-IsValid usize_status usize_status-IsLawful))

one_inserted : Inserts usize_status 3 3 3 empty (ok tt, one)
one_inserted = subst (Inserts usize_status 3 3 3 empty) first_entry (
    insert_in_slot_unchecked-Inserts usize_status usize_status-IsLawful 3 3 3 empty prepared.0.valid
      prepared.0.room prepared.1.0)

prepared_next : Prepares usize_status 19 (is 19) one (ok (inr 4), one)
prepared_next = subst (Prepares usize_status 19 (is 19) one) next_slot (
    find_or_find_insert_slot-Prepares usize_status usize_status-IsLawful 19 (is 19) one
      one_inserted.valid)

two_inserted : Inserts usize_status 19 4 19 one (ok tt, two)
two_inserted = subst (Inserts usize_status 19 4 19 one) next_entry (
    insert_in_slot_unchecked-Inserts usize_status usize_status-IsLawful 19 4 19 one
      prepared_next.0.valid prepared_next.0.room prepared_next.1.0)

find_example :
    ((length two.slots ≡ 0) × (find usize_status two 19 (is 19) ≡ err panic))
    ⊎ Finds two.slots (usize_status.from_hash 19) (is 19) (find usize_status two 19 (is 19))
find_example = find-Finds usize_status two 19 (is 19) usize_status-IsLawful two_inserted.valid

insert_slot_example :
    Prepares usize_status 35 (is 35) two (find_or_find_insert_slot usize_status 35 (is 35) two)
insert_slot_example =
    find_or_find_insert_slot-Prepares usize_status usize_status-IsLawful 35 (is 35) two
      two_inserted.valid

insertion_example :
    Inserts usize_status 19 4 19 one (insert_in_slot_unchecked usize_status 19 4 19 one)
insertion_example =
    insert_in_slot_unchecked-Inserts usize_status usize_status-IsLawful 19 4 19 one
      prepared_next.0.valid prepared_next.0.room prepared_next.1.0

get_example :
    get usize_status (insert_in_slot_unchecked usize_status 19 4 19 one).1 19 (is 19) ≡ ok (some 19)
get_example =
    get-insert_in_slot_unchecked usize_status usize_status-IsLawful 19 (is 19) 19 refl
      (λ x h. (==_iff x 19).0 h) 4 one prepared_next.0.valid prepared_next.0.room prepared_next.1.0

removal_example : Removes usize_status 3 (is 3) two (remove_entry usize_status 3 (is 3) two)
removal_example =
    remove_entry-Removes usize_status usize_status-IsLawful two two_inserted.valid 3 (is 3)

reserves_example : Reserves usize_status 20 two (reserve usize_status 20 two)
reserves_example = reserve-Reserves usize_status usize_status-IsLawful 20 two two_inserted.valid

with_capacity_example : Made usize_status ℕ 20 (with_capacity usize_status 20)
with_capacity_example = with_capacity-Made usize_status ℕ usize_status-IsLawful 20

next_capacity_example : Capacity usize_status 20 (next_capacity usize_status 20)
next_capacity_example = next_capacity-Capacity usize_status 20

emptying_example :
    Clears usize_status two (clear usize_status two)
    × Clears usize_status two (clear_no_drop usize_status two)
emptying_example = clear-Clears usize_status usize_status-IsLawful two two_inserted.valid

reset_example :
    find_or_find_insert_slot usize_status 3 (is 3) (reset_no_drop usize_status two)
    ≡ (err panic, reset_no_drop usize_status two)
reset_example = find_or_find_insert_slot-reset_no_drop usize_status two 3 (is 3) (omega arith)
