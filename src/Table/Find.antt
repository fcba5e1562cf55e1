-- ===== src/Table/Find.antt =====
-- The loop of `find` in crates/linear-hashtbl/src/raw.rs ends at a matching entry, or at a free slot
-- when there is none.
use mathlib.Core.Option.{some-injective}
use oxidd.Prelude.{
  ℕ, zero, suc, ◌+◌, ◌-◌, ◌<◌, ◌≡◌, ◌∙◌, ap, sym, refl, subst, arith, Bool, true, false, Option,
  ==_iff, none, some, List, ltb, ltb→lt, ◌==◌, Bool-cases, inl, inr, length, get_elem?,
  get_elem?-some, get_elem?_bound,
}
use oxidd.Outcome.{Result, ok, err}
use oxidd.Table.{Slot}
use oxidd.Table.Search.{find_at, find_loop}
use oxidd.Table.Statuses.{Status, IsLawful}
use oxidd.Table.Probe.{IsSize, visited, visited_lt, visited_onto, next-visited, masked_lt}
use oxidd.Table.Placed.{is_free, home, IsPlaced, entry-is_free, clash}

module _ {T : Type 0} (slots : List (Slot T)) (status : ℕ) (eq : T → Bool) where
  -- An entry with this status that passes the test stands at `i`.
  abbrev pub Matches : ℕ → Type 0
  Matches i =
      (x : T) × (get_elem? slots i ≡ some (record { status = status; item = some x }))
      × (eq x ≡ true)

  -- The table has no such entry.
  abbrev pub Lacks : Type 0
  Lacks =
      (i : ℕ) (x : T)
      → get_elem? slots i ≡ some (record { status = status; item = some x })
      → eq x ≡ false

  -- What a search finds, at an end that is no error.
  abbrev pub Finds : Result (Option ℕ) → Type 0
  Finds (ok (some i)) = Matches i
  Finds (ok none) = Lacks
  Finds (err e) = ⊥

module _ (S : Status) {T : Type 0} (eq : T → Bool) (status : ℕ) where
  -- A slot that a search for the status passes by.
  pub record Passed (slots : List (Slot T)) (i : ℕ) : Type 0 where
    pub slot : Slot T
    pub at : get_elem? slots i ≡ some slot
    pub busy : is_free S slot ≡ false
    pub other : (x : T) → slot ≡ record { status = status; item = some x } → eq x ≡ false

  -- What a step of a search meets.
  pub data Meets (slots : List (Slot T)) (i : ℕ) (slot : Slot T) : Type 0 where
    entry :
        (x : T)
        → (slot.status == status) ≡ true
        → slot.item ≡ some x
        → eq x ≡ true
        → Meets slots i slot
    other_entry :
        (x : T)
        → (slot.status == status) ≡ true
        → slot.item ≡ some x
        → eq x ≡ false
        → Meets slots i slot
    free_slot : (slot.status == status) ≡ false → is_free S slot ≡ true → Meets slots i slot
    other_slot : (slot.status == status) ≡ false → is_free S slot ≡ false → Meets slots i slot

  module _ (law : IsLawful S) (hashed : S.is_hash status ≡ true) (slots : List (Slot T))
      (placed : IsPlaced S slots) where
    pub meets : (i : ℕ) (slot : Slot T) → get_elem? slots i ≡ some slot → Meets slots i slot
    meets i slot at = elim (Bool-cases (slot.status == status)) [
      | inl t ↦
          let (x, has) =
            (placed i slot at).initialised (ap S.is_hash ((==_iff _ _).0 t) ∙ hashed) in
          elim (Bool-cases (eq x)) [ inl y ↦ entry x t has y | inr y ↦ other_entry x t has y ]
      | inr t ↦ elim (Bool-cases (is_free S slot)) [
        | inl f ↦ free_slot t f
        | inr f ↦ other_slot t f
      ]
    ]

    -- The search has reached a free slot on the path of every entry with the status.
    pub ends-Lacks :
        (d : ℕ) (slot : Slot T)
        → d < length slots
        → ((e : ℕ) → e < d → Passed slots (visited (length slots) (home S (length slots) status) e))
        → get_elem? slots (visited (length slots) (home S (length slots) status) d) ≡ some slot
        → is_free S slot ≡ true
        → Lacks slots status eq
    ends-Lacks d slot inside before at free i x there =
        let r = (placed i (record { status = status; item = some x }) there).reached hashed in
        elim (Bool-cases (ltb r.distance d)) [
          | inl t ↦
              let p = before r.distance (ltb→lt _ _ t) in
              p.other x (some-injective p.slot _ (sym p.at ∙ (ap (get_elem? slots) r.ends ∙ there)))
          | inr t ↦ elim (Bool-cases (ltb d r.distance)) [
            | inl u ↦
                let (old, old_at, busy) = r.taken d (ltb→lt _ _ u) in
                absurd (clash S law slots at old_at refl free busy)
            | inr u ↦
                let same : d ≡ r.distance = ground arith in
                absurd (
                  clash S law slots at there
                    (ap (visited (length slots) (home S (length slots) status)) same ∙ r.ends) free
                    (entry-is_free S law (record { status = status; item = some x }) hashed))
          ]
        ]

  pub Passed-entry :
      (slots : List (Slot T)) (i : ℕ) (slot : Slot T) (y : T)
      → IsLawful S
      → S.is_hash status ≡ true
      → get_elem? slots i ≡ some slot
      → (slot.status == status) ≡ true
      → slot.item ≡ some y
      → eq y ≡ false
      → Passed slots i
  Passed-entry slots i slot y law hashed at same has fails = record {
    slot = slot;
    at = at;
    busy = entry-is_free S law slot (ap S.is_hash ((==_iff _ _).0 same) ∙ hashed);
    other = λ x e. ap eq (some-injective x y (sym (ap (λ s. s.item) e) ∙ has)) ∙ fails;
  }

  pub Passed-slot :
      (slots : List (Slot T)) (i : ℕ) (slot : Slot T)
      → get_elem? slots i ≡ some slot
      → (slot.status == status) ≡ false
      → is_free S slot ≡ false
      → Passed slots i
  Passed-slot slots i slot at differs busy = record {
    slot = slot;
    at = at;
    busy = busy;
    other = λ x e. absurd (ground (arith, ap (λ s. s.status) e));
  }

  -- One step, given what the rest of the search finds once the slot is passed.
  find_at-Finds :
      (slots : List (Slot T)) (i : ℕ) (slot : Slot T) (rest : Result (Option ℕ))
      → IsLawful S
      → S.is_hash status ≡ true
      → get_elem? slots i ≡ some slot
      → Meets slots i slot
      → (is_free S slot ≡ true → Lacks slots status eq)
      → (Passed slots i → Finds slots status eq rest)
      → Finds slots status eq (find_at S status eq i (some slot) rest)
  unfolding find_at
  find_at-Finds slots i slot rest law hashed at (entry x t has y) ends again =
      rw (t, has, y)
        (
          x,
          at ∙ ap some (λ k. record { status = ((==_iff slot.status status).0 t) k; item = has k }),
          y,
        )
  find_at-Finds slots i slot rest law hashed at (other_entry x t has y) ends again =
      rw (t, has, y) (again (Passed-entry slots i slot x law hashed at t has y))
  find_at-Finds slots i slot rest law hashed at (free_slot t f) ends again = rw (t, f) (ends f)
  find_at-Finds slots i slot rest law hashed at (other_slot t f) ends again =
      rw (t, f) (again (Passed-slot slots i slot at t f))

  module _ (law : IsLawful S) (hashed : S.is_hash status ≡ true) (slots : List (Slot T))
      (placed : IsPlaced S slots) (size : IsSize (length slots)) where
    abbrev pub PassedTo : ℕ → Type 0
    PassedTo d =
        (e : ℕ) → e < d → Passed slots (visited (length slots) (home S (length slots) status) e)

    pub PassedTo-suc :
        (d : ℕ)
        → PassedTo d
        → Passed slots (visited (length slots) (home S (length slots) status) d)
        → PassedTo (suc d)
    PassedTo-suc d before here e h = elim (Bool-cases (ltb e d)) [
      | inl t ↦ before e (ltb→lt _ _ t)
      | inr t ↦
          subst (λ k. Passed slots (visited (length slots) (home S (length slots) status) k))
            (ground arith) here
    ]

    -- A search cannot pass every slot.
    pub PassedTo-all :
        (j : ℕ) (slot : Slot T)
        → get_elem? slots j ≡ some slot
        → is_free S slot ≡ true
        → PassedTo (length slots)
        → ⊥
    PassedTo-all j slot at free before =
        let (d, within, ends) =
          visited_onto (masked_lt size (S.hash_as_usize status)) (get_elem?_bound slots j at) in
        let p = before d within in clash S law slots at p.at (sym ends) free p.busy

    pub find_loop-Finds :
        (k d j : ℕ) (open_slot : Slot T)
        → get_elem? slots j ≡ some open_slot
        → is_free S open_slot ≡ true
        → k + d ≡ length slots
        → PassedTo d
        → Finds slots status eq (
            find_loop S k slots
              (length slots - 1)
              status
              eq
              (visited (length slots) (home S (length slots) status) d))
    unfolding find_loop
    find_loop-Finds zero d j open_slot at free fuel before =
        absurd (PassedTo-all j open_slot at free (subst PassedTo (omega arith) before))
    find_loop-Finds (suc k) d j open_slot at free fuel before =
        let start = home S (length slots) status in
        let start_lt = masked_lt size (S.hash_as_usize status) in
        let (slot, here) =
          get_elem?-some slots (visited (length slots) start d)
            (visited_lt d start_lt (omega arith)) in
        rw (here, next-visited size d start_lt (omega arith))
          (find_at-Finds slots (visited (length slots) start d) slot _ law hashed here
            (meets law hashed slots placed _ slot here)
            (λ f. ends-Lacks law hashed slots placed d slot (omega arith) before here f)
            (λ p.
              find_loop-Finds k (suc d) j open_slot at free (omega arith)
                (PassedTo-suc d before p)))
