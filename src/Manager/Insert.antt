-- ===== src/Manager/Insert.antt =====
-- `get_or_insert` keeps the invariant and returns an edge to the node that it is given.
use mathlib.Core.Option.{some-injective}
use native.Mathlib.Decide.{ℕ_discrete}
use oxidd.Prelude.{
  ℕ, zero, suc, ◌<◌, ◌≢◌, ◌≡◌, ◌∙◌, sym, refl, subst, true, false, ◌⊎◌, inl, inr, Option, some,
  List, ◌∷◌, arith, ◌==◌, ==_iff, if◌then◌else◌, Option-cases, length, get_elem?, set,
  get_elem?-set, get_elem?_bound, get_elem?-some, Has, length-set,
}
use oxidd.Outcome.{Result, ok, err, out_of_memory}
use oxidd.Manager.Valid.{
  Extends, Extends-refl, IsFull, Listed, IsStored, IsValid, same_children-eq, matches-get_node,
  find-Has, find-none,
}
use oxidd.Manager.Placed.{Placed, add_node-Placed}
use oxidd.Manager.{
  Edge, InnerNode, Node, inner, Store, get_node, num_levels, same_children, matches, find,
  insert_edge, set_get_or_insert, get_or_insert,
}

-- Only the slots say which node an edge has.
pub get_node-slots : (s t : Store) (x : Edge) → s.slots ≡ t.slots → get_node s x ≡ get_node t x
unfolding get_node
get_node-slots s t zero e = refl
get_node-slots s t (suc zero) e = refl
get_node-slots s t (suc (suc i)) e = rw e

matches_self :
    (s : Store) (n : InnerNode) (e : Edge) → get_node s e ≡ some (inner n) → matches s n e ≡ true
unfolding matches same_children
matches_self s n e h = rw (h, matches) (ground arith)

module _ {s t : Store} {n : InnerNode} {e : Edge} {es : List Edge} (v : IsValid s)
    (p : Placed s n e t) (table : get_elem? s.unique_table n.level ≡ some es)
    (fresh : (x : Edge) → Has x es → matches s n x ≡ false) (reduced : n.child0 ≢ n.child1) where
  abbrev inserted : Store
  inserted = record t { unique_table = set t.unique_table n.level (e ∷ es) }

  bound : n.level < length s.unique_table
  bound = get_elem?_bound s.unique_table n.level table

  get_node-inserted :
      (x : Edge) → get_node inserted x ≡ (if x == e then some (inner n) else get_node s x)
  get_node-inserted x = get_node-slots inserted t x refl ∙ p.at x

  get_node-inserted_self : get_node inserted e ≡ some (inner n)
  get_node-inserted_self = rw (get_node-inserted, (==_iff e e).1 refl)

  get_node-inserted_old :
      (x : Edge) (m : Node) → get_node s x ≡ some m → get_node inserted x ≡ some m
  get_node-inserted_old x m h = ground (arith, get_node-inserted x, p.was_free, h)

  table-inserted :
      (l : ℕ)
      → get_elem? inserted.unique_table l
        ≡ (if l == n.level then some (e ∷ es) else get_elem? s.unique_table l)
  table-inserted l = rw p.table (get_elem?-set s.unique_table n.level l (e ∷ es) bound)

  table-inserted_self : get_elem? inserted.unique_table n.level ≡ some (e ∷ es)
  table-inserted_self = rw (table-inserted, (==_iff n.level n.level).1 refl)

  length-inserted : length inserted.unique_table ≡ length s.unique_table
  length-inserted = rw (length-set, p.table)

  -- The node at an edge of the new store: the new node, or an old one.
  inserted_cases :
      (x : Edge) (m : InnerNode)
      → get_node inserted x ≡ some (inner m)
      → ((x ≡ e) × (m ≡ n)) ⊎ ((x ≢ e) × (get_node s x ≡ some (inner m)))
  inserted_cases x m h = ground (arith, get_node-inserted x)

  Listed-inserted : (l : ℕ) (x : Edge) → Listed s l x → Listed inserted l x
  Listed-inserted l x (xs, at, has) = elim (ℕ_discrete l n.level) [
    | yes same ↦ (e ∷ es, rw same table-inserted_self, inr (ground (arith, table)))
    | no apart ↦ (xs, ground (arith, table-inserted l), has)
  ]

  IsStored-inserted :
      (x : Edge) (m : InnerNode) → get_node inserted x ≡ some (inner m) → IsStored inserted x m
  IsStored-inserted x m h = elim (inserted_cases x m h) [
    | inl (xe, mn) ↦
        rw (xe, mn)
          (record {
            below = rw length-inserted bound;
            reduced = reduced;
            listed = (e ∷ es, table-inserted_self, inl refl);
          })
    | inr (_, old) ↦
        let o = v.stored x m old in
        record {
          below = rw length-inserted o.below;
          reduced = o.reduced;
          listed = Listed-inserted m.level x o.listed;
        }
  ]

  levelled-inserted :
      (l : ℕ) (xs : List Edge) (x : Edge)
      → get_elem? inserted.unique_table l ≡ some xs
      → Has x xs
      → (m : InnerNode) × (get_node inserted x ≡ some (inner m)) × (m.level ≡ l)
  levelled-inserted l xs x at has = elim (ℕ_discrete l n.level) [
    | yes same ↦
        let lists : xs ≡ e ∷ es = ground (arith, table-inserted l) in
        let listed : Has x (e ∷ es) = subst (Has x) lists has in
        elim listed [
          | inl xe ↦ (n, rw xe get_node-inserted_self, sym same)
          | inr old ↦
              let (m, h, lm) = v.levelled n.level es x table old in
              (m, get_node-inserted_old x (inner m) h, lm ∙ sym same)
        ]
    | no apart ↦
        let (m, h, lm) = v.levelled l xs x (ground (arith, table-inserted l)) has in
        (m, get_node-inserted_old x (inner m) h, lm)
  ]

  no_twin : (x : Edge) → get_node s x ≡ some (inner n) → ⊥
  no_twin x h =
      let (xs, at, has) = (v.stored x n h).listed in
      cc (matches_self s n x h, fresh x (subst (Has x) (some-injective _ _ (sym at ∙ table)) has))

  unique-inserted :
      (x y : Edge) (m : InnerNode)
      → get_node inserted x ≡ some (inner m)
      → get_node inserted y ≡ some (inner m)
      → x ≡ y
  unique-inserted x y m hx hy = elim (inserted_cases x m hx) [
    | inl (xe, mn) ↦ elim (inserted_cases y m hy) [
      | inl (ye, _) ↦ xe ∙ sym ye
      | inr (_, old) ↦ absurd (no_twin y (rw mn at old))
    ]
    | inr (_, old) ↦ elim (inserted_cases y m hy) [
      | inl (ye, mn) ↦ absurd (no_twin x (rw mn at old))
      | inr (_, old') ↦ v.unique x y m old old'
    ]
  ]

  inserted-IsValid : IsValid inserted
  inserted-IsValid = record {
    stored = IsStored-inserted;
    levelled = levelled-inserted;
    unique = unique-inserted;
    free = p.free;
    level_count = rw length-inserted v.level_count;
  }

  inserted-Extends : Extends s inserted
  inserted-Extends = record {
    keeps = record { at = get_node-inserted_old };
    levels = rw length-inserted (omega arith);
  }

-- What `get_or_insert` promises: the store is valid and keeps all it had, and the edge has the
-- node; the error is reported only by a full store, which is left as it was.
abbrev pub Inserts : Store → InnerNode → Result Edge × Store → Type 0
Inserts s n r =
    ((e : Edge) × (t : Store) × (r ≡ (ok e, t))
      × Extends s t
      × IsValid t
      × (get_node t e ≡ some (inner n)))
    ⊎ ((r ≡ (err out_of_memory, s)) × IsFull s)

same_level :
    {o : Option Node} {m n : InnerNode}
    → o ≡ some (inner m)
    → o ≡ some (inner n)
    → m.level ≡ n.level
same_level a b = cc

set_get_or_insert-Inserts :
    (s : Store) (n : InnerNode) (es : List Edge)
    → IsValid s
    → get_elem? s.unique_table n.level ≡ some es
    → n.child0 ≢ n.child1
    → Inserts s n (set_get_or_insert n.level es n s)
unfolding set_get_or_insert
set_get_or_insert-Inserts s n es v table reduced = elim (Option-cases (find s n es)) [
  | inr (e, found) ↦
      let (has, hit) = find-Has s n es e found in
      let (m, at, same) = matches-get_node s n e hit in
      let (m', at', level) = v.levelled n.level es e table has in
      let here : get_node s e ≡ some (inner n) =
        subst (λ k. get_node s e ≡ some (inner k))
          (same_children-eq m n (same_level at at' ∙ level) same) at in
      inl (e, s, rw (found, set_get_or_insert) refl, Extends-refl s, v, here)
  | inl missing ↦
      let fresh = λ (x : Edge) (has : Has x es). find-none s n es x missing has in
      elim (add_node-Placed n s v.free) [
        | inl (e, t, run, p) ↦ inl (
          e,
          inserted v p table fresh reduced,
          rw (missing, set_get_or_insert) (rw run (unfold insert_edge in refl)),
          inserted-Extends v p table fresh reduced,
          inserted-IsValid v p table fresh reduced,
          get_node-inserted_self v p table fresh reduced,
        )
        | inr (run, full) ↦ inr (rw (missing, set_get_or_insert) (rw run refl), full)
      ]
]

-- In a valid store, for a node of an existing level with different children, `get_or_insert`
-- returns an edge to that node in a valid store that keeps every node and level, or reports that
-- the store is full and leaves it as it was.
pub get_or_insert-Inserts :
    (s : Store) (n : InnerNode)
    → IsValid s
    → n.level < num_levels s
    → n.child0 ≢ n.child1
    → Inserts s n (get_or_insert n.level n s)
unfolding get_or_insert
get_or_insert-Inserts s n v h reduced =
    let (es, table) = get_elem?-some s.unique_table n.level h in
    rw (table, get_or_insert, (==_iff n.level n.level).1 refl)
      (set_get_or_insert-Inserts s n es v table reduced)
