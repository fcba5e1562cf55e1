-- ===== src/Table/Lookup.antt =====
-- `get` of crates/linear-hashtbl/src/raw.rs after an insertion.
use oxidd.Prelude.{
  ℕ, ◌+◌, ◌/◌, ◌≤◌, ◌≡◌, ◌∙◌, ap, sym, refl, arith, Bool, true, false, Option, none, some, ◌⊎◌, inl,
  inr, length, get_elem?, get_elem?_bound,
}
use mathlib.Core.Bool.{true≢false}
use oxidd.Outcome.{Result, ok, err, panic}
use oxidd.Table.{RawTable}
use oxidd.Table.Search.{find, get, item_at, insert_in_slot_unchecked}
use oxidd.Table.Statuses.{Status, IsLawful}
use oxidd.Table.Find.{Finds}
use oxidd.Table.Slots.{Opens}
use oxidd.Table.Valid.{IsValid, find-Finds}
use oxidd.Table.Insert.{Inserts, insert_in_slot_unchecked-Inserts}

module _ (S : Status) {T : Type 0} (law : IsLawful S) (hash : ℕ) (eq : T → Bool) (val : T)
    (accepts : eq val ≡ true) (only : (x : T) → eq x ≡ true → x ≡ val) where
  get_stored :
      (u : RawTable T) (slot : ℕ)
      → IsValid S u
      → get_elem? u.slots slot ≡ some (record { status = S.from_hash hash; item = some val })
      → get S u hash eq ≡ ok (some val)
  unfolding get
  get_stored u slot v at = go (find S u hash eq) (find-Finds S u hash eq law v)
    where
      read :
          (i : ℕ) (x : T)
          → get_elem? u.slots i ≡ some (record { status = S.from_hash hash; item = some x })
          → x ≡ val
          → item_at S u i ≡ some val
      read i x there same = rw (there, item_at, law.hashed hash) (ap some same)

      go :
          (r : Result (Option ℕ))
          → ((length u.slots ≡ 0) × (r ≡ err panic)) ⊎ Finds u.slots (S.from_hash hash) eq r
          → (elim r [
            | err e ↦ err e
            | ok none ↦ ok none
            | ok (some index) ↦ elim (item_at S u index) [ none ↦ err panic | some x ↦ ok (some x) ]
          ])
            ≡ ok (some val)
      go r (inl (e, f)) = absurd (omega (arith, get_elem?_bound u.slots slot at))
      go (ok (some i)) (inr (x, there, h)) = rw (read i x there (only x h)) refl
      go (ok none) (inr lacks) =
          let rejected : eq val ≡ false = lacks slot val at in
          absurd (true≢false (sym accepts ∙ rejected))
      go (err e) (inr f) = absurd f

  inserted_there :
      (slot : ℕ) (t : RawTable T) (r : Result (Unit {0}) × RawTable T)
      → Inserts S hash slot val t r
      → get S r.1 hash eq ≡ ok (some val)
  inserted_there slot t (ok done, u) g = get_stored u slot g.valid g.stored
  inserted_there slot t (err e, u) g = absurd g

  -- `get` finds an item that has been inserted in a slot on its path, with a test that only this
  -- item passes.
  pub get-insert_in_slot_unchecked :
      (slot : ℕ) (t : RawTable T)
      → IsValid S t
      → 1 + length t.slots / 4 ≤ t.free
      → Opens S t.slots (S.from_hash hash) slot
      → get S (insert_in_slot_unchecked S hash slot val t).1 hash eq ≡ ok (some val)
  get-insert_in_slot_unchecked slot t v room o =
      inserted_there slot t (insert_in_slot_unchecked S hash slot val t)
        (insert_in_slot_unchecked-Inserts S law hash slot val t v room o)
