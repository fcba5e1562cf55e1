-- ===== src/Cache/Direct/Collection.antt =====
-- The cache of crates/oxidd-cache/src/direct.rs when it is cleared, on request or for a garbage
-- collection: `clear`, `pre_gc` and `post_gc`.
use mathlib.Core.Option
use oxidd.Prelude.{
  ℕ, zero, suc, ◌≡◌, ◌∙◌, ap, refl, subst, Bool, true, false, none, some, List, [], ◌∷◌, length,
  Bool-cases, Option-cases, get_elem?, inl, inr,
}
use oxidd.Manager.{Edge}
use oxidd.Cache.Direct.{
  OperatorEq, Entry, Entries, bucket, fits, add_at, get_with_numeric, add_with_numeric, map_entries,
  clear, pre_gc, post_gc, clear_entry, lock_entry, unlock_entry,
}
use oxidd.Cache.Direct.Laws.{vacant-none}

module _ {O : Type 0} (f : Entry O → Entry O) where
  length-map_entries : (c : Entries O) → length (map_entries f c) ≡ length c
  unfolding map_entries
  length-map_entries [] = refl
  length-map_entries (e ∷ c) = ap suc (length-map_entries c)

  get_elem?-map_entries :
      (c : Entries O) (i : ℕ) → get_elem? (map_entries f c) i ≡ Option.map f (get_elem? c i)
  unfolding map_entries
  get_elem?-map_entries [] i = refl
  get_elem?-map_entries (e ∷ c) zero = refl
  get_elem?-map_entries (e ∷ c) (suc i) = get_elem?-map_entries c i

-- As many entries as in the first cache, all of them vacant and all of them locked or all free.
abbrev pub IsEmptied : {O : Type 0} → Bool → Entries O → Entries O → Type 0
IsEmptied held c c' =
    (length c' ≡ length c)
    × ((i : ℕ) (e : Entry _) → get_elem? c' i ≡ some e → (e.edge_operands ≡ 0) × (e.locked ≡ held))

map_entries-all :
    {O : Type 0} (P : Entry O → Type 0) (f : Entry O → Entry O) (c : Entries O)
    → ((i : ℕ) (e : Entry O) → get_elem? c i ≡ some e → P (f e))
    → (i : ℕ) (e : Entry O) → get_elem? (map_entries f c) i ≡ some e
    → P e
map_entries-all P f c h i e at = elim (Option-cases (get_elem? c i)) [
  | inl no_entry ↦ cc (get_elem?-map_entries f c i, at, no_entry)
  | inr (x, found) ↦
      let same : f x ≡ e = cc (get_elem?-map_entries f c i, at, found) in subst P same (h i x found)
]

abbrev IsVacantAnd : {O : Type 0} → Bool → Entry O → Type 0
IsVacantAnd held e = (e.edge_operands ≡ 0) × (e.locked ≡ held)

clear-IsEmptied : {O : Type 0} (c : Entries O) → IsEmptied false c (clear c)
unfolding clear clear_entry lock_entry unlock_entry
clear-IsEmptied c =
    (length-map_entries _ c, map_entries-all (IsVacantAnd false) _ c (λ i e h. (refl, refl)))

pre_gc-IsEmptied : {O : Type 0} (c : Entries O) → IsEmptied true c (pre_gc c)
unfolding pre_gc clear_entry lock_entry
pre_gc-IsEmptied c =
    (length-map_entries _ c, map_entries-all (IsVacantAnd true) _ c (λ i e h. (refl, refl)))

post_gc-IsEmptied :
    {O : Type 0} (c d : Entries O) → IsEmptied true c d → IsEmptied false c (post_gc d)
unfolding post_gc unlock_entry
post_gc-IsEmptied c d h = (
  length-map_entries _ d ∙ h.0,
  map_entries-all (IsVacantAnd false) _ d (λ i e at. ((h.1 i e at).0, refl)),
)

module _ {O : Type 0} (eq : OperatorEq O) (arity : ℕ) (hash : O → List Edge → ℕ) where
  emptied-none :
      (held : Bool) (c d : Entries O) (op : O) (es : List Edge) (ns : List ℕ)
      → IsEmptied held c d
      → get_with_numeric eq arity hash d op es ns ≡ none
  emptied-none held c d op es ns h = vacant-none eq arity hash d op es ns (λ i e at. (h.1 i e at).0)

  -- Nothing is added to a cache all of whose entries are locked.
  locked-add_with_numeric :
      (c d : Entries O) (op : O) (es : List Edge) (ns : List ℕ) (v : Edge)
      → IsEmptied true c d
      → add_with_numeric eq arity hash d op es ns v ≡ d
  unfolding add_with_numeric add_at
  locked-add_with_numeric c d op es ns v h = elim (Bool-cases (fits arity es ns)) [
    | inr over ↦ rw over refl
    | inl fit ↦ elim (Option-cases (get_elem? d (bucket eq arity hash d op es))) [
      | inl missing ↦ rw (fit, missing) refl
      | inr (e, found) ↦ rw (fit, found, (h.1 _ e found).1) refl
    ]
  ]

  -- A cache that is cleared on request has as many entries as before, all vacant and free, and
  -- answers nothing. In a garbage collection the entries are vacant and stay locked: the cache
  -- answers nothing and drops what is added. After the collection all of them are vacant and free, and it
  -- answers nothing.
  pub cleared_answers_nothing :
      (c : Entries O) (op : O) (es : List Edge) (ns : List ℕ) (v : Edge)
      → IsEmptied false c (clear c)
        × (get_with_numeric eq arity hash (clear c) op es ns ≡ none)
        × IsEmptied true c (pre_gc c)
        × (get_with_numeric eq arity hash (pre_gc c) op es ns ≡ none)
        × (add_with_numeric eq arity hash (pre_gc c) op es ns v ≡ pre_gc c)
        × IsEmptied false c (post_gc (pre_gc c))
        × (get_with_numeric eq arity hash (post_gc (pre_gc c)) op es ns ≡ none)
  cleared_answers_nothing c op es ns v =
      let cleared = clear-IsEmptied c in
      let during = pre_gc-IsEmptied c in
      let after = post_gc-IsEmptied c (pre_gc c) during in
      (
        cleared,
        emptied-none false c (clear c) op es ns cleared,
        during,
        emptied-none true c (pre_gc c) op es ns during,
        locked-add_with_numeric c (pre_gc c) op es ns v during,
        after,
        emptied-none false c (post_gc (pre_gc c)) op es ns after,
      )
