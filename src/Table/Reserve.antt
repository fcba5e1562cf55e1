-- ===== src/Table/Reserve.antt =====
-- `reserve` and `reserve_rehash` of crates/linear-hashtbl/src/raw.rs, and tables with a capacity.
use oxidd.Prelude.{
  ℕ, ◌+◌, ◌-◌, ◌/◌, ◌^◌, ◌≤◌, ◌<◌, ◌≡◌, ◌∙◌, sym, refl, subst, arith, Bool, false, List, [], ltb,
  ltb→lt, leb, leb→le, ◌==◌, Bool-cases, ◌⊎◌, inl, inr, length, count, replicate, length-replicate,
  count-replicate, get_elem?-replicate,
}
use oxidd.Outcome.{Result, ok, err, panic, out_of_memory, out_of_fuel, and_then, pure}
use oxidd.Table.{
  Slot, RawTable, new, with_capacity, next_capacity, free_slot, rehash_into, rehash_loop,
  reserve_rehash, reserve,
}
use oxidd.Table.Statuses.{Status, IsLawful}
use oxidd.Table.Probe.{IsSize}
use oxidd.Table.Placed.{is_free, is_entry, IsPlaced, Fits, vacant-Fits}
use oxidd.Table.Rehash.{OnEntries, Moves, Rehashes, rehash_loop-Rehashes}
use oxidd.Table.Capacity.{IsCapacity, Suits, Capacity, next_capacity-Capacity}
use oxidd.Table.Valid.{IsValid}

free_count :
    (S : Status) (T : Type 0) (n : ℕ) → count (is_free S) (replicate n (free_slot S {T = T})) ≡ n
free_count S T n = ground (arith, count-replicate (is_free S) n (free_slot S {T = T}))

module _ (S : Status) {T : Type 0} where
  -- The entries are those that there were.
  pub record SameEntries (t u : RawTable T) : Type 0 where
    pub same_len : u.len ≡ t.len
    pub counts : (g : Slot T → Bool) → OnEntries S g → count g u.slots ≡ count g t.slots

  pub record Reserved (additional : ℕ) (t u : RawTable T) : Type 0 where
    pub valid : IsValid S u
    pub same : SameEntries t u
    pub room : additional + length u.slots / 4 ≤ u.free

  -- The capacity asked for overflows, or cannot be addressed.
  abbrev pub TooLarge : ℕ → RawTable T → Type 0
  TooLarge additional t =
      (2 ^ 64 ≤ additional + length t.slots / 4) ⊎ Capacity S (t.len + additional) (err panic)

  -- Every outcome of a reservation.
  abbrev pub Reserves : ℕ → RawTable T → Result (Unit {0}) × RawTable T → Type 0
  Reserves additional t (ok done, u) = Reserved additional t u
  Reserves additional t (err panic, u) = TooLarge additional t × (u ≡ t)
  Reserves additional t (err out_of_memory, u) = ⊥
  Reserves additional t (err out_of_fuel, u) = ⊥

  module _ (law : IsLawful S) where
    pub replicate-IsPlaced : (n : ℕ) → IsPlaced S (replicate n (free_slot S {T = T}))
    replicate-IsPlaced n i slot at =
        subst (λ s. Fits S (replicate n (free_slot S)) i s)
          (get_elem?-replicate n i (free_slot S) at)
          (vacant-Fits S law i (free_slot S) law.free_unhashed (inl refl))

    count_none :
        (g : Slot T → Bool) (n : ℕ) → OnEntries S g → count g (replicate n (free_slot S)) ≡ 0
    count_none g n on =
        ground
          (arith, on (free_slot S) law.free_unhashed, count-replicate g n (free_slot S {T = T}))

    -- The table with the entries of another, moved into new slots.
    rehashed :
        {t : RawTable T} {slots : List (Slot T)} (additional c : ℕ)
        → IsValid S t
        → Suits S (t.len + additional) c
        → Moves S t.slots (replicate c (free_slot S)) slots
        → Reserved additional t (record { slots = slots; len = t.len; free = c - t.len })
    rehashed {t} {slots} additional c v s m =
        let size : length slots ≡ c = m.same_length ∙ length-replicate c (free_slot S) in
        record {
          valid = record {
            shape = inr (subst (IsCapacity S) (sym size) s.fits);
            placed = m.placed;
            counted = omega (
              arith,
              v.counted,
              m.counts (is_entry S) (λ slot h. h),
              count_none (is_entry S) c (λ slot h. h),
            );
            free_slots = omega (arith, v.counted, m.frees, free_count S T c);
            spare = omega (arith, s.roomy, size);
          };
          same = record {
            same_len = refl;
            counts = λ g on. omega (arith, m.counts g on, count_none g c on);
          };
          room = omega (arith, s.roomy, size);
        }

    rehash_into-Reserves :
        {t : RawTable T} (additional c : ℕ)
        → IsValid S t
        → Suits S (t.len + additional) c
        → Reserves additional t (rehash_into S c t)
    unfolding rehash_into
    rehash_into-Reserves {t} additional c v s =
        let nonzero : (c == 0) ≡ false = ground (arith, s.fits.least) in
        let size = length-replicate c (free_slot S {T = T}) in
        rw nonzero (
          go (rehash_loop S t.slots (replicate c (free_slot S))) (
            rehash_loop-Rehashes S law t.slots (replicate c (free_slot S))
              (subst IsSize (sym size) s.fits.size) (replicate-IsPlaced c)
              (λ i slot at h. (v.placed i slot at).initialised h)
              (omega (arith, v.counted, s.roomy, free_count S T c))))
      where
        go :
            (r : Result (List (Slot T)))
            → Rehashes S t.slots (replicate c (free_slot S)) r
            → Reserves additional t (
                and_then r
                  (record t { slots = [] })
                  (λ slots u. pure tt (record { slots = slots; len = u.len; free = c - u.len })))
        go (ok slots) m = rehashed additional c v s m
        go (err e) m = absurd m

    grown :
        {t : RawTable T} (additional : ℕ)
        → IsValid S t
        → t.free < additional + length t.slots / 4
        → (r : Result ℕ) → Capacity S (t.len + additional) r
        → Reserves additional t (and_then r t (rehash_into S))
    grown additional v h (ok c) (inl (none_asked, zero_size)) = absurd (omega (arith, v.spare))
    grown additional v h (ok c) (inr (asked, s)) = rehash_into-Reserves additional c v s
    grown additional v h (err panic) e = (inr e, refl)
    grown additional v h (err out_of_memory) e = absurd e
    grown additional v h (err out_of_fuel) e = absurd e

    -- A reservation keeps the invariant and the entries, and leaves the room asked for beside the
    -- spare quarter; it fails only where the capacity asked for overflows or cannot be addressed,
    -- and then changes nothing.
    pub reserve-Reserves :
        (additional : ℕ) (t : RawTable T)
        → IsValid S t
        → Reserves additional t (reserve S additional t)
    unfolding reserve reserve_rehash
    reserve-Reserves additional t v =
        elim (Bool-cases (leb (2 ^ 64) (additional + length t.slots / 4))) [
          | inl h ↦ rw h (inl (leb→le _ _ h), refl)
          | inr h ↦ elim (Bool-cases (ltb t.free (additional + length t.slots / 4))) [
            | inr k ↦
                rw (h, k)
                  (record {
                    valid = v;
                    same = record { same_len = refl; counts = λ g on. refl };
                    room = ground arith;
                  })
            | inl k ↦
                rw (h, k)
                  (elim (Bool-cases (leb (2 ^ 64) (t.len + additional))) [
                    | inl l ↦ rw l (inr (inl (ground arith)), refl)
                    | inr l ↦ rw l (
                        grown additional v (ltb→lt _ _ k) (next_capacity S (t.len + additional))
                          (next_capacity-Capacity S (t.len + additional)))
                  ])
          ]
        ]

    pub new-IsValid : IsValid S (new S {T = T})
    unfolding new
    new-IsValid = record {
      shape = inl refl;
      placed = λ i slot at. absurd (cc);
      counted = refl;
      free_slots = omega arith;
      spare = omega arith;
    }

module _ (S : Status) (T : Type 0) where
  abbrev pub Made : ℕ → Result (RawTable T) → Type 0
  Made requested (ok t) = IsValid S t × (t.len ≡ 0) × (requested + length t.slots / 4 ≤ t.free)
  Made requested (err e) = Capacity S requested (err e)

  module _ (law : IsLawful S) where
    fresh-IsValid :
        (c : ℕ)
        → (c ≡ 0) ⊎ IsCapacity S c
        → IsValid S (record { slots = replicate c (free_slot S {T = T}); len = 0; free = c })
    fresh-IsValid c shape =
        let size = length-replicate c (free_slot S {T = T}) in
        record {
          shape = subst (λ n. (n ≡ 0) ⊎ IsCapacity S n) (sym size) shape;
          placed = replicate-IsPlaced S law c;
          counted = sym (count_none S law (is_entry S) c (λ slot h. h));
          free_slots = omega (arith, free_count S T c);
          spare = omega (arith, size);
        }

    made :
        (requested : ℕ) (r : Result ℕ)
        → Capacity S requested r
        → Made requested (elim r [
          | err e ↦ err e
          | ok c ↦ ok (record { slots = replicate c (free_slot S); len = 0; free = c })
        ])
    made requested (ok c) (inl (none_asked, zero_size)) = (
      fresh-IsValid c (inl zero_size),
      refl,
      omega (arith, length-replicate c (free_slot S {T = T})),
    )
    made requested (ok c) (inr (asked, s)) = (
      fresh-IsValid c (inr s.fits),
      refl,
      omega (arith, s.roomy, length-replicate c (free_slot S {T = T})),
    )
    made requested (err e) h = h

    -- A table with a capacity is valid and empty, and has room for as many elements beside the spare
    -- quarter; the errors are those of the capacity.
    pub with_capacity-Made : (requested : ℕ) → Made requested (with_capacity S requested)
    unfolding with_capacity
    with_capacity-Made requested =
        made requested (next_capacity S requested) (next_capacity-Capacity S requested)
