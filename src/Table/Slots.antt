-- ===== src/Table/Slots.antt =====
-- The loop of `find_or_find_insert_slot` in crates/linear-hashtbl/src/raw.rs: it ends at a matching
-- entry, or at an empty slot that an entry with the status may take.
use oxidd.Prelude.{
  ℕ, zero, suc, ◌+◌, ◌-◌, ◌<◌, ◌≡◌, ◌∙◌, ap, refl, subst, arith, Bool, true, false, Option, ==_iff,
  none, some, List, ◌==◌, Bool-cases, ◌⊎◌, inl, inr, length, get_elem?, get_elem?-some,
}
use oxidd.Outcome.{Result, ok, err}
use oxidd.Table.{Slot}
use oxidd.Table.Search.{slot_at, slot_loop}
use oxidd.Table.Statuses.{Status, IsLawful}
use oxidd.Table.Probe.{IsSize, visited, visited_lt, next-visited, masked_lt}
use oxidd.Table.Placed.{is_free, is_entry, home, Reached, IsPlaced}
use oxidd.Table.Find.{
  Matches, Lacks, Passed, Meets, entry, other_entry, free_slot, other_slot, meets, ends-Lacks,
  PassedTo, PassedTo-suc, PassedTo-all, Passed-entry, Passed-slot,
}

module _ (S : Status) {T : Type 0} (slots : List (Slot T)) (status : ℕ) where
  -- An empty slot on the path of the status.
  pub record Opens (i : ℕ) : Type 0 where
    pub slot : Slot T
    pub at : get_elem? slots i ≡ some slot
    pub vacant : is_entry S slot ≡ false
    pub reached : Reached S slots (home S (length slots) status) i

  abbrev pub FindsSlot : (T → Bool) → Result (ℕ ⊎ ℕ) → Type 0
  FindsSlot eq (ok (inl i)) = Matches slots status eq i
  FindsSlot eq (ok (inr i)) = Opens i × Lacks slots status eq
  FindsSlot eq (err e) = ⊥

  -- What is known of `first_tombstone`.
  abbrev Remembers : Option ℕ → Type 0
  Remembers none = Unit {0}
  Remembers (some i) = Opens i

module _ (S : Status) {T : Type 0} (eq : T → Bool) (status : ℕ) (law : IsLawful S)
    (hashed : S.is_hash status ≡ true) (slots : List (Slot T)) (placed : IsPlaced S slots)
    (size : IsSize (length slots)) where
  opens :
      (d : ℕ) (slot : Slot T)
      → d < length slots
      → PassedTo S eq status law hashed slots placed size d
      → get_elem? slots (visited (length slots) (home S (length slots) status) d) ≡ some slot
      → is_entry S slot ≡ false
      → Opens S slots status (visited (length slots) (home S (length slots) status) d)
  opens d slot inside before at vacant = record {
    slot = slot;
    at = at;
    vacant = vacant;
    reached = record {
      distance = d;
      within = inside;
      ends = refl;
      taken = λ e h. let p = before e h in (p.slot, p.at, p.busy);
    };
  }

  slot_at-FindsSlot :
      (d : ℕ) (slot : Slot T) (first : Option ℕ) (rest : Option ℕ → Result (ℕ ⊎ ℕ))
      → d < length slots
      → PassedTo S eq status law hashed slots placed size d
      → (at : get_elem? slots (visited (length slots) (home S (length slots) status) d) ≡ some slot)
      → Meets S eq status slots (visited (length slots) (home S (length slots) status) d) slot
      → Remembers S slots status first
      → ((o : Option ℕ)
          → Remembers S slots status o
          → Passed S eq status slots (visited (length slots) (home S (length slots) status) d)
          → FindsSlot S slots status eq (rest o))
      → FindsSlot S slots status eq (
          slot_at S status eq
            (visited (length slots) (home S (length slots) status) d)
            (some slot)
            first
            rest)
  unfolding slot_at
  slot_at-FindsSlot d slot first rest inside before at (entry x t has y) known again =
      rw (t, has, y)
        (
          x,
          at ∙ ap some (λ k. record { status = ((==_iff slot.status status).0 t) k; item = has k }),
          y,
        )
  slot_at-FindsSlot d slot first rest inside before at (other_entry x t has y) known again =
      rw (t, has, y)
        (again first known (Passed-entry S eq status slots _ slot x law hashed at t has y))
  slot_at-FindsSlot d slot none rest inside before at (free_slot t f) known again =
      rw (t, f)
        (
          opens d slot inside before at
              (ap S.is_hash ((==_iff slot.status S.free).0 f) ∙ law.free_unhashed),
          ends-Lacks S eq status law hashed slots placed d slot inside before at f,
        )
  slot_at-FindsSlot d slot (some i) rest inside before at (free_slot t f) known again =
      rw (t, f) (known, ends-Lacks S eq status law hashed slots placed d slot inside before at f)
  slot_at-FindsSlot d slot first rest inside before at (other_slot t f) known again =
      let passed = Passed-slot S eq status slots _ slot at t f in
      elim (Bool-cases (slot.status == S.tombstone)) [
        | inl u ↦
            rw (t, f, u)
              (again (some _)
                (opens d slot inside before at
                  (ap S.is_hash ((==_iff slot.status S.tombstone).0 u) ∙ law.tombstone_unhashed))
                passed)
        | inr u ↦ rw (t, f, u) (again first known passed)
      ]

  pub slot_loop-FindsSlot :
      (k d j : ℕ) (open_slot : Slot T) (first : Option ℕ)
      → get_elem? slots j ≡ some open_slot
      → is_free S open_slot ≡ true
      → k + d ≡ length slots
      → PassedTo S eq status law hashed slots placed size d
      → Remembers S slots status first
      → FindsSlot S slots status eq (
          slot_loop S k slots
            (length slots - 1)
            status
            eq
            (visited (length slots) (home S (length slots) status) d)
            first)
  unfolding slot_loop
  slot_loop-FindsSlot zero d j open_slot first at free fuel before known = absurd (
      PassedTo-all S eq status law hashed slots placed size j open_slot at free
        (subst (PassedTo S eq status law hashed slots placed size) (omega arith) before))
  slot_loop-FindsSlot (suc k) d j open_slot first at free fuel before known =
      let start = home S (length slots) status in
      let start_lt = masked_lt size (S.hash_as_usize status) in
      let (slot, here) =
        get_elem?-some slots (visited (length slots) start d)
          (visited_lt d start_lt (omega arith)) in
      rw (here, next-visited size d start_lt (omega arith))
        (slot_at-FindsSlot d slot first _ (omega arith) before here
          (meets S eq status law hashed slots placed _ slot here) known
          (λ o has p.
            slot_loop-FindsSlot k (suc d) j open_slot o at free (omega arith)
              (PassedTo-suc S eq status law hashed slots placed size d before p) has))
