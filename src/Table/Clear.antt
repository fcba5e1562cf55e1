-- ===== src/Table/Clear.antt =====
-- `clear` and `clear_no_drop` of crates/linear-hashtbl/src/raw.rs.
use oxidd.Prelude.{
  ℕ, zero, suc, ◌-◌, ◌≤◌, ◌≡◌, ◌∙◌, ap, sym, refl, subst, arith, Bool, false, Option, none, some,
  List, [], ◌∷◌, ◌==◌, Bool-cases, ◌⊎◌, inl, inr, length, get_elem?, count, count_pos, one_if,
  ==_iff, ltb,
}
use mathlib.Core.Option.{some-injective}
use oxidd.Outcome.{Result, ok, err, panic, and_then, pure}
use oxidd.Table.{
  Slot, RawTable, then_cons, emptied, clear_loop, clear_with, clear, clear_no_drop, reset_no_drop,
  reserve,
}
use oxidd.Table.Search.{find_or_find_insert_slot}
use oxidd.Table.Statuses.{Status, IsLawful}
use oxidd.Table.Placed.{is_free, is_entry, vacant-Fits}
use oxidd.Table.Capacity.{IsCapacity}
use oxidd.Table.Valid.{IsValid}

abbrev IsMark : Status → ℕ → Type 0
IsMark S s = (s ≡ S.free) ⊎ (s ≡ S.tombstone)

module _ (S : Status) {T : Type 0} where
  -- What a slot without an entry is marked with.
  abbrev Marked : List (Slot T) → Type 0
  Marked slots =
      (i : ℕ) (slot : Slot T)
      → get_elem? slots i ≡ some slot
      → is_entry S slot ≡ false
      → IsMark S slot.status

  record IsCleared (slots u : List (Slot T)) : Type 0 where
    pub same_length : length u ≡ length slots
    pub entries : count (is_entry S) u ≡ 0
    pub marked : Marked u
    pub frees : count (is_free S) slots ≤ count (is_free S) u

  abbrev ClearsSlots : List (Slot T) → Result (List (Slot T)) → Type 0
  ClearsSlots slots (ok u) = IsCleared slots u
  ClearsSlots slots (err e) = ⊥

  -- The table is empty, valid, and of the same size.
  abbrev pub Clears : RawTable T → Result (Unit {0}) × RawTable T → Type 0
  Clears t (ok done, u) = IsValid S u × (u.len ≡ 0) × (length u.slots ≡ length t.slots)
  Clears t (err e, u) = ⊥

  module _ (law : IsLawful S) (after : Option T → Option T) where
    free_first : (v : Slot T) (u : List (Slot T)) → v.status ≡ S.free → Marked u → Marked (v ∷ u)
    free_first v u e m zero slot at h =
        inl (sym (ap (λ s. s.status) (some-injective v slot at)) ∙ e)
    free_first v u e m (suc i) slot at h = m i slot at h

    one_free :
        (slot v : Slot T) → v.status ≡ S.free → one_if (is_free S slot) ≤ one_if (is_free S v)
    one_free slot v e = ground arith

    cons-IsCleared :
        (slot v : Slot T) {slots u : List (Slot T)}
        → v.status ≡ S.free
        → IsCleared slots u
        → IsCleared (slot ∷ slots) (v ∷ u)
    cons-IsCleared slot v {u = u} e c = record {
      same_length = ap suc c.same_length;
      entries = omega (arith, c.entries, ap one_if (ap S.is_hash e ∙ law.free_unhashed));
      marked = free_first v u e c.marked;
      frees = omega (arith, c.frees, one_free slot v e);
    }

    then_cons-ClearsSlots :
        (slot v : Slot T) (slots : List (Slot T)) (r : Result (List (Slot T)))
        → v.status ≡ S.free
        → ClearsSlots slots r
        → ClearsSlots (slot ∷ slots) (then_cons S v r)
    then_cons-ClearsSlots slot v slots (ok u) e c = cons-IsCleared slot v e c
    then_cons-ClearsSlots slot v slots (err e) h c = c

    clear_loop-ClearsSlots :
        (slots : List (Slot T)) (len : ℕ)
        → Marked slots
        → len ≡ count (is_entry S) slots
        → 1 ≤ len
        → ClearsSlots slots (clear_loop S after slots len)
    unfolding clear_loop
    clear_loop-ClearsSlots [] len marked counted some_left = absurd (omega arith)
    clear_loop-ClearsSlots (slot ∷ slots) len marked counted some_left =
        let later : Marked slots = λ i. marked (suc i) in
        elim (Bool-cases (is_entry S slot)) [
          | inl h ↦ elim (Bool-cases (len - 1 == 0)) [
            | inl l ↦
                rw (h, ClearsSlots, l)
                  (cons-IsCleared slot (emptied S after slot) refl record {
                    same_length = refl;
                    entries = omega (arith, counted, ap one_if h, (==_iff (len - 1) 0).0 l);
                    marked = later;
                    frees = omega arith;
                  })
            | inr l ↦
                rw (h, ClearsSlots, l)
                  (then_cons-ClearsSlots slot (emptied S after slot) slots
                    (clear_loop S after slots (len - 1)) refl
                    (clear_loop-ClearsSlots slots (len - 1) later
                      (omega (arith, counted, ap one_if h)) (ground arith)))
          ]
          | inr h ↦
              rw (h, ClearsSlots)
                (then_cons-ClearsSlots slot (record slot { status = S.free }) slots
                  (clear_loop S after slots len) refl
                  (clear_loop-ClearsSlots slots len later (omega (arith, counted, ap one_if h))
                    some_left))
        ]

    cleared :
        (t : RawTable T) (r : Result (List (Slot T)))
        → IsValid S t
        → ClearsSlots t.slots r
        → Clears t (and_then r t λ slots u. pure tt (record u { slots = slots; len = 0 }))
    cleared t (ok slots) v c = (
      record {
        shape = subst (λ n. (n ≡ 0) ⊎ IsCapacity S n) (sym c.same_length) v.shape;
        placed = λ i slot at.
            let vacant : is_entry S slot ≡ false = elim (Bool-cases (is_entry S slot)) [
              | inl h ↦ absurd (omega (arith, c.entries, count_pos (is_entry S) slots i at h))
              | inr h ↦ h
            ] in
            vacant-Fits S law i slot vacant (c.marked i slot at vacant);
        counted = sym c.entries;
        free_slots = omega (arith, v.free_slots, c.frees);
        spare = omega (arith, v.spare, c.same_length);
      },
      refl,
      c.same_length,
    )
    cleared t (err e) v c = absurd c

    clear_with-Clears : (t : RawTable T) → IsValid S t → Clears t (clear_with S after t)
    clear_with-Clears t v = elim (Bool-cases (t.len == 0)) [
      | inl h ↦ rw h (v, (==_iff t.len 0).0 h, refl)
      | inr h ↦ rw h (
          cleared t (clear_loop S after t.slots t.len) v (
            clear_loop-ClearsSlots t.slots t.len (λ i slot at. (v.placed i slot at).marked)
              v.counted (ground arith)))
    ]

  -- `clear` and `clear_no_drop` end well, and leave an empty table of the same size.
  pub clear-Clears :
      (law : IsLawful S) (t : RawTable T)
      → IsValid S t
      → Clears t (clear S t) × Clears t (clear_no_drop S t)
  unfolding clear clear_no_drop
  clear-Clears law t v =
      (clear_with-Clears law (λ item. none) t v, clear_with-Clears law (λ item. item) t v)

  -- `reset_no_drop` leaves the count of free slots as it was, so on a table that had free slots the
  -- next search for an insertion slot makes no room, and panics on the empty array.
  pub find_or_find_insert_slot-reset_no_drop :
      (t : RawTable T) (hash : ℕ) (eq : T → Bool)
      → 1 ≤ t.free
      → find_or_find_insert_slot S hash eq (reset_no_drop S t) ≡ (err panic, reset_no_drop S t)
  unfolding find_or_find_insert_slot reset_no_drop reserve
  find_or_find_insert_slot-reset_no_drop t hash eq some_free =
      let enough : ltb t.free 1 ≡ false = ground arith in rw enough refl
