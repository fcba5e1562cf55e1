-- ===== src/Table/Placed.antt =====
-- The invariant of the slots of crates/linear-hashtbl/src/raw.rs: what each status says of its
-- slot, and that no free slot stands between the home of an entry and the entry.
use Prim.Native.Nat.{bit_and}
use mathlib.Core.Option.{some-injective}
use oxidd.Prelude.{
  ==_iff, ltb, ltb→lt, ℕ, suc, ◌+◌, ◌-◌, ◌<◌, ◌≡◌, ◌≢◌, ◌∙◌, ap, sym, refl, subst, arith, Bool,
  true, false, ◌&&◌, none, some, List, ◌==◌, Bool-cases, ◌⊎◌, inl, inr, length, get_elem?, set,
  get_elem?-set, set-cases, length-set,
}
use oxidd.Table.{Slot}
use oxidd.Table.Statuses.{Status, IsLawful}
use oxidd.Table.Probe.{IsSize, visited, next-visited, masked_lt}

-- The slot at which the search for an entry with this status begins.
abbrev pub home : Status → ℕ → ℕ → ℕ
home S n status = bit_and (S.hash_as_usize status) (n - 1)

module _ (S : Status) {T : Type 0} where
  abbrev pub is_free : Slot T → Bool
  is_free slot = slot.status == S.free

  abbrev pub is_entry : Slot T → Bool
  is_entry slot = S.is_hash slot.status

  -- The items that satisfy a test, among the entries with a given status.
  abbrev pub passes : (ℕ → T → Bool) → Slot T → Bool
  passes p slot = is_entry slot && (elim slot.item [ none ↦ false | some x ↦ p slot.status x ])

  -- A search goes on at this slot.
  abbrev pub Taken : List (Slot T) → ℕ → Type 0
  Taken slots i = (slot : Slot T) × (get_elem? slots i ≡ some slot) × (is_free slot ≡ false)

  pub record Reached (slots : List (Slot T)) (start i : ℕ) : Type 0 where
    pub distance : ℕ
    pub within : distance < length slots
    pub ends : visited (length slots) start distance ≡ i
    pub taken : (e : ℕ) → e < distance → Taken slots (visited (length slots) start e)

  pub record Fits (slots : List (Slot T)) (i : ℕ) (slot : Slot T) : Type 0 where
    pub initialised : is_entry slot ≡ true → (x : T) × (slot.item ≡ some x)
    pub reached : is_entry slot ≡ true → Reached slots (home S (length slots) slot.status) i
    pub marked : is_entry slot ≡ false → (slot.status ≡ S.free) ⊎ (slot.status ≡ S.tombstone)

  abbrev pub IsPlaced : List (Slot T) → Type 0
  IsPlaced slots = (i : ℕ) (slot : Slot T) → get_elem? slots i ≡ some slot → Fits slots i slot

  -- A write keeps the path to a slot, unless it frees a slot on the path.
  pub set-Reached :
      {slots : List (Slot T)} {start i : ℕ} (j : ℕ) (v : Slot T)
      → j < length slots
      → (r : Reached slots start i)
      → ((e : ℕ) → e < r.distance → visited (length slots) start e ≡ j → is_free v ≡ false)
      → Reached (set slots j v) start i
  set-Reached {slots} {start} j v inside r kept = record {
    distance = r.distance;
    within = rw (length-set slots j v) r.within;
    ends = rw (length-set slots j v) r.ends;
    taken = λ e h.
        rw (length-set slots j v) (still e h (Bool-cases (visited (length slots) start e == j)));
  }
    where
      still :
          (e : ℕ)
          → e < r.distance
          → ((visited (length slots) start e == j) ≡ true)
            ⊎ ((visited (length slots) start e == j) ≡ false)
          → Taken (set slots j v) (visited (length slots) start e)
      still e h (inl t) = (
        v,
        rw (get_elem?-set slots j (visited (length slots) start e) v inside, t) refl,
        kept e h (ground arith),
      )
      still e h (inr t) =
          let (old, at, busy) = r.taken e h in
          (old, rw (get_elem?-set slots j (visited (length slots) start e) v inside, t) at, busy)

  module _ (law : IsLawful S) where
    pub entry-is_free : (v : Slot T) → is_entry v ≡ true → is_free v ≡ false
    entry-is_free v h = elim (Bool-cases (is_free v)) [
      | inl t ↦
          absurd (ground (arith, law.free_unhashed, ap S.is_hash ((==_iff v.status S.free).0 t)))
      | inr t ↦ t
    ]

    -- A write keeps the invariant when the slot written fits, and frees no slot on a path.
    pub set-IsPlaced :
        {slots : List (Slot T)} (j : ℕ) (v : Slot T)
        → j < length slots
        → IsPlaced slots
        → Fits slots j v
        → ((i : ℕ) (slot : Slot T)
            → get_elem? slots i ≡ some slot
            → is_entry slot ≡ true
            → i ≢ j
            → (r : Reached slots (home S (length slots) slot.status) i) → (e : ℕ) → e < r.distance
            → visited (length slots) (home S (length slots) slot.status) e ≡ j
            → is_free v ≡ false)
        → IsPlaced (set slots j v)
    set-IsPlaced {slots} j v inside p f kept i slot at = place (set-cases slots j i inside at)
      where
        place :
            ((i ≡ j) × (v ≡ slot)) ⊎ ((i ≢ j) × (get_elem? slots i ≡ some slot))
            → Fits (set slots j v) i slot
        place (inl (e, same)) =
            subst (λ k. Fits (set slots j v) k slot) (sym e)
              (subst (λ s. Fits (set slots j v) j s) same
                record {
                  initialised = f.initialised;
                  reached = λ h.
                      rw (length-set slots j v)
                        (set-Reached j v inside (f.reached h) (λ e q r. entry-is_free v h));
                  marked = f.marked;
                })
        place (inr (ne, old)) =
            let f = p i slot old in
            record {
              initialised = f.initialised;
              reached = λ h.
                  rw (length-set slots j v)
                    (set-Reached j v inside (f.reached h) (kept i slot old h ne (f.reached h)));
              marked = f.marked;
            }

    -- An entry is not stopped by a tombstone or an entry in its path, and by a freed slot only if it
    -- comes after it.
    pub fill-IsPlaced :
        {slots : List (Slot T)} (j : ℕ) (v : Slot T)
        → j < length slots
        → IsPlaced slots
        → Fits slots j v
        → is_free v ≡ false
        → IsPlaced (set slots j v)
    fill-IsPlaced j v inside p f busy =
        set-IsPlaced j v inside p f (λ i slot at h ne r e q there. busy)

    pub vacant-Fits :
        {slots : List (Slot T)} (j : ℕ) (v : Slot T)
        → is_entry v ≡ false
        → (v.status ≡ S.free) ⊎ (v.status ≡ S.tombstone)
        → Fits slots j v
    vacant-Fits j v vacant mark = record {
      initialised = λ h. absurd (cc);
      reached = λ h. absurd (cc);
      marked = λ h. mark;
    }

    pub clash :
        (slots : List (Slot T)) {i j : ℕ} {v w : Slot T}
        → get_elem? slots i ≡ some v
        → get_elem? slots j ≡ some w
        → i ≡ j
        → is_free v ≡ true
        → is_free w ≡ false
        → ⊥
    clash slots {v = v} {w = w} at there same empty busy =
        let one : v ≡ w = some-injective v w (sym at ∙ (ap (get_elem? slots) same ∙ there)) in
        let none_free : is_free v ≡ false = ap is_free one ∙ busy in cc

    path_ends :
        {slots : List (Slot T)} (j : ℕ) (next_slot : Slot T)
        → IsSize (length slots)
        → get_elem? slots (bit_and (j + 1) (length slots - 1)) ≡ some next_slot
        → is_free next_slot ≡ true
        → (i status : ℕ) (slot : Slot T) → get_elem? slots i ≡ some slot
        → is_entry slot ≡ true
        → (r : Reached slots (home S (length slots) status) i) → (e : ℕ) → e < r.distance
        → visited (length slots) (home S (length slots) status) e ≡ j
        → ⊥
    path_ends {slots} j next_slot size next free i status slot at h r e q there =
        let start_lt = masked_lt size (S.hash_as_usize status) in
        let step : bit_and (j + 1) (length slots - 1)
            ≡ visited (length slots) (home S (length slots) status) (suc e) =
          ap (λ x. bit_and (x + 1) (length slots - 1)) (sym there)
          ∙ next-visited size e start_lt (omega (arith, r.within)) in
        elim (Bool-cases (ltb (suc e) r.distance)) [
          | inl t ↦
              let (old, old_at, busy) = r.taken (suc e) (ltb→lt _ _ t) in
              clash slots next old_at step free busy
          | inr t ↦
              let last : suc e ≡ r.distance = ground arith in
              clash slots next at
                (step ∙ (ap (visited (length slots) (home S (length slots) status)) last ∙ r.ends))
                free (entry-is_free slot h)
        ]

    pub free-IsPlaced :
        {slots : List (Slot T)} (j : ℕ) (v next_slot : Slot T)
        → IsSize (length slots)
        → j < length slots
        → IsPlaced slots
        → v.status ≡ S.free
        → get_elem? slots (bit_and (j + 1) (length slots - 1)) ≡ some next_slot
        → is_free next_slot ≡ true
        → IsPlaced (set slots j v)
    free-IsPlaced {slots} j v next_slot size inside p freed next is_next =
        set-IsPlaced j v inside p
          (vacant-Fits j v (ap S.is_hash freed ∙ law.free_unhashed) (inl freed))
          λ i slot at h ne r e q there.
            absurd (path_ends j next_slot size next is_next i slot.status slot at h r e q there)
