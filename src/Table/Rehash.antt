-- ===== src/Table/Rehash.antt =====
-- The loops of `reserve_rehash` in crates/linear-hashtbl/src/raw.rs: each entry goes to the first
-- free slot on its path, and all entries of the old slots arrive.
use oxidd.Prelude.{
  ℕ, zero, suc, ◌+◌, ◌-◌, ◌≤◌, ◌<◌, ◌≡◌, ◌∙◌, ap, sym, refl, subst, arith, Bool, true, false,
  ==_iff, some, List, [], ◌∷◌, ltb, ltb→lt, Bool-cases, inl, inr, length, get_elem?, set,
  get_elem?-some, get_elem?_bound, count, count_found, count-set, length-set, one_if,
}
use oxidd.Outcome.{Result, ok, err}
use oxidd.Table.{Slot, with_place, place_loop, rehash_loop}
use oxidd.Table.Statuses.{Status, IsLawful}
use oxidd.Table.Probe.{IsSize, visited, visited_lt, visited_onto, next-visited, masked_lt, origin}
use oxidd.Table.Placed.{
  is_free, is_entry, home, Reached, IsPlaced, Fits, Taken, clash, entry-is_free, fill-IsPlaced,
}

module _ (S : Status) {T : Type 0} where
  -- A test that only entries satisfy.
  abbrev pub OnEntries : (Slot T → Bool) → Type 0
  OnEntries g = (slot : Slot T) → is_entry S slot ≡ false → g slot ≡ false

  abbrev pub PlacesAt : List (Slot T) → ℕ → Result ℕ → Type 0
  PlacesAt slots start (ok i) =
      (slot : Slot T) × (get_elem? slots i ≡ some slot)
      × (is_free S slot ≡ true)
      × Reached S slots start i
  PlacesAt slots start (err e) = ⊥

  module _ (law : IsLawful S) (slots : List (Slot T)) (size : IsSize (length slots)) (start : ℕ)
      (start_lt : start < length slots) where
    place_loop-PlacesAt :
        (k d j : ℕ) (open_slot : Slot T)
        → get_elem? slots j ≡ some open_slot
        → is_free S open_slot ≡ true
        → k + d ≡ length slots
        → ((e : ℕ) → e < d → Taken S slots (visited (length slots) start e))
        → PlacesAt slots start
            (place_loop S k slots (length slots - 1) (visited (length slots) start d))
    unfolding place_loop
    place_loop-PlacesAt zero d j open_slot at free fuel before =
        let (e, within, ends) = visited_onto start_lt (get_elem?_bound slots j at) in
        let (slot, there, busy) = before e (omega arith) in
        absurd (clash S law slots at there (sym ends) free busy)
    place_loop-PlacesAt (suc k) d j open_slot at free fuel before =
        let (slot, here) =
          get_elem?-some slots (visited (length slots) start d)
            (visited_lt d start_lt (omega arith)) in
        elim (Bool-cases (is_free S slot)) [
          | inl t ↦
              rw (here, t)
                (
                  slot,
                  here,
                  t,
                  record { distance = d; within = omega arith; ends = refl; taken = before },
                )
          | inr t ↦
              let further : (e : ℕ) → e < suc d → Taken S slots (visited (length slots) start e) =
                λ e h. elim (Bool-cases (ltb e d)) [
                  | inl u ↦ before e (ltb→lt _ _ u)
                  | inr u ↦
                      subst (λ c. Taken S slots (visited (length slots) start c)) (ground arith)
                        (slot, here, t)
                ] in
              rw (here, t, next-visited size d start_lt (omega arith))
                (place_loop-PlacesAt k (suc d) j open_slot at free (omega arith) further)
        ]

    -- With a free slot left, a place is found.
    pub place_loop-ends :
        1 ≤ count (is_free S) slots
        → PlacesAt slots start (place_loop S (length slots) slots (length slots - 1) start)
    place_loop-ends room =
        let (j, open_slot, at, free) = count_found (is_free S) slots room in
        subst (λ i. PlacesAt slots start (place_loop S (length slots) slots (length slots - 1) i))
          (origin start_lt)
          (place_loop-PlacesAt (length slots) 0 j open_slot at free (omega arith)
            (λ e h. absurd (omega arith)))

  -- The entries of the old slots are in the new ones, beside those that were there.
  pub record Moves (old slots new_slots : List (Slot T)) : Type 0 where
    pub same_length : length new_slots ≡ length slots
    pub placed : IsPlaced S new_slots
    pub counts : (g : Slot T → Bool) → OnEntries g → count g new_slots ≡ count g slots + count g old
    pub frees : count (is_free S) new_slots + count (is_entry S) old ≡ count (is_free S) slots

  abbrev pub Rehashes : List (Slot T) → List (Slot T) → Result (List (Slot T)) → Type 0
  Rehashes old slots (ok new_slots) = Moves old slots new_slots
  Rehashes old slots (err e) = ⊥

  abbrev pub IsInitialised : List (Slot T) → Type 0
  IsInitialised old =
      (i : ℕ) (slot : Slot T)
      → get_elem? old i ≡ some slot
      → is_entry S slot ≡ true
      → (x : T) × (slot.item ≡ some x)

  Moves-cons :
      {old slots new_slots : List (Slot T)} (index : ℕ) {slot place : Slot T}
      → IsLawful S
      → is_entry S slot ≡ true
      → get_elem? slots index ≡ some place
      → is_free S place ≡ true
      → Moves old (set slots index slot) new_slots
      → Moves (slot ∷ old) slots new_slots
  Moves-cons {old} {slots} index {slot} {place} law hashed at free m =
      let empty : is_entry S place ≡ false =
        ap S.is_hash ((==_iff place.status S.free).0 free) ∙ law.free_unhashed in
      record {
        same_length = m.same_length ∙ length-set slots index slot;
        placed = m.placed;
        counts = λ g on.
            omega
              (arith, m.counts g on, count-set g slots index slot at, ap one_if (on place empty));
        frees = omega (
          arith,
          m.frees,
          count-set (is_free S) slots index slot at,
          ap one_if free,
          ap one_if hashed,
          ap one_if (entry-is_free S law slot hashed),
        );
      }

  Moves-skip :
      {old slots new_slots : List (Slot T)} {slot : Slot T}
      → is_entry S slot ≡ false
      → Moves old slots new_slots
      → Moves (slot ∷ old) slots new_slots
  Moves-skip {slot = slot} vacant m = record {
    same_length = m.same_length;
    placed = m.placed;
    counts = λ g on. omega (arith, m.counts g on, ap one_if (on slot vacant));
    frees = omega (arith, m.frees, ap one_if vacant);
  }

  Rehashes-map :
      {old slots : List (Slot T)} {old' slots' : List (Slot T)} (r : Result (List (Slot T)))
      → ((u : List (Slot T)) → Moves old slots u → Moves old' slots' u)
      → Rehashes old slots r
      → Rehashes old' slots' r
  Rehashes-map (ok u) f m = f u m
  Rehashes-map (err e) f m = m

  -- An entry has got its place; the rest of the old slots follows.
  place_one :
      (law : IsLawful S) (slot : Slot T) (old slots : List (Slot T))
      → IsSize (length slots)
      → IsPlaced S slots
      → IsInitialised (slot ∷ old)
      → count (is_entry S) (slot ∷ old) ≤ count (is_free S) slots
      → is_entry S slot ≡ true
      → ((u : List (Slot T))
          → IsSize (length u)
          → IsPlaced S u
          → count (is_entry S) old ≤ count (is_free S) u
          → Rehashes old u (rehash_loop S old u))
      → (r : Result ℕ) → PlacesAt slots (home S (length slots) slot.status) r
      → Rehashes (slot ∷ old) slots (with_place r λ index. rehash_loop S old (set slots index slot))
  place_one law slot old slots size placed init room t again (ok index) (place, at, free, r) =
      let busy = entry-is_free S law slot t in
      let fits : Fits S slots index slot = record {
        initialised = init 0 slot refl;
        reached = λ h. r;
        marked = λ h. absurd (cc);
      } in
      Rehashes-map (rehash_loop S old (set slots index slot))
        (λ u m. Moves-cons index law t at free m)
        (again (set slots index slot) (subst IsSize (sym (length-set slots index slot)) size)
          (fill-IsPlaced S law index slot (get_elem?_bound slots index at) placed fits busy)
          (omega (
            arith,
            room,
            ap one_if t,
            count-set (is_free S) slots index slot at,
            ap one_if free,
            ap one_if busy,
          )))
  place_one law slot old slots size placed init room t again (err e) h = absurd h

  pub rehash_loop-Rehashes :
      (law : IsLawful S) (old slots : List (Slot T))
      → IsSize (length slots)
      → IsPlaced S slots
      → IsInitialised old
      → count (is_entry S) old ≤ count (is_free S) slots
      → Rehashes old slots (rehash_loop S old slots)
  unfolding rehash_loop
  rehash_loop-Rehashes law [] slots size placed init room = record {
    same_length = refl;
    placed = placed;
    counts = λ g on. omega arith;
    frees = omega arith;
  }
  rehash_loop-Rehashes law (slot ∷ old) slots size placed init room =
      let start = home S (length slots) slot.status in
      let later : IsInitialised old = λ i. init (suc i) in
      elim (Bool-cases (is_entry S slot)) [
        | inl t ↦
            rw (t, Rehashes)
              (place_one law slot old slots size placed init room t
                (λ u z p q. rehash_loop-Rehashes law old u z p later q)
                (place_loop S (length slots) slots (length slots - 1) start)
                (place_loop-ends law slots size start (masked_lt size _)
                  (omega (arith, ap one_if t))))
        | inr t ↦
            rw (t, Rehashes)
              (Rehashes-map (rehash_loop S old slots) (λ u m. Moves-skip t m)
                (rehash_loop-Rehashes law old slots size placed later (omega (arith, ap one_if t))))
      ]
