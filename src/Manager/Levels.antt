-- ===== src/Manager/Levels.antt =====
-- `add_level` appends a level with one node; an empty store is valid.
use oxidd.Prelude.{
  ℕ, zero, suc, ◌-◌, ◌^◌, ◌<◌, ◌≢◌, ◌≡◌, ◌∙◌, sym, ap, refl, subst, false, ◌⊎◌, inl, inr, ◌%◌, some,
  List, [], ◌∷◌, ◌++◌, arith, ◌==◌, ==_iff, if◌then◌else◌, length, get_elem?, get_elem?-append_one,
  get_elem?_bound, Has,
}
use native.Mathlib.Decide.{ℕ_discrete}
use oxidd.Outcome.{Result, ok, err, out_of_memory}
use oxidd.Manager.{
  Edge, InnerNode, inner, Store, new_store, get_node, num_levels, push_level, add_level,
}
use oxidd.Manager.Valid.{Keeps, IsFull, Listed, IsStored, IsValid}
use oxidd.Manager.Placed.{Placed, add_node-Placed}
use oxidd.Manager.Insert.{get_node-slots}

length-append_one : {A : Type 0} (xs : List A) (x : A) → length (xs ++ x ∷ []) ≡ suc (length xs)
length-append_one [] x = refl
length-append_one (y ∷ ys) x = ap suc (length-append_one ys x)

module _ {s t : Store} {n : InnerNode} {e : Edge} (v : IsValid s) (p : Placed s n e t)
    (last : n.level ≡ num_levels s) (reduced : n.child0 ≢ n.child1)
    (room : num_levels s < 2 ^ 32 - 1) where
  abbrev grown : Store
  grown = record t { unique_table = t.unique_table ++ (e ∷ []) ∷ [] }

  get_node-grown : (x : Edge) → get_node grown x ≡ (if x == e then some (inner n) else get_node s x)
  get_node-grown x = get_node-slots grown t x refl ∙ p.at x

  get_node-grown_self : get_node grown e ≡ some (inner n)
  get_node-grown_self = rw (get_node-grown, (==_iff e e).1 refl)

  grown-Keeps : Keeps s grown
  grown-Keeps = record { at = λ x m h. ground (arith, get_node-grown x, p.was_free, h) }

  table-grown :
      (l : ℕ)
      → get_elem? grown.unique_table l
        ≡ (if l == num_levels s then some (e ∷ []) else get_elem? s.unique_table l)
  table-grown l = rw p.table (get_elem?-append_one s.unique_table (e ∷ []) l)

  length-grown : num_levels grown ≡ suc (num_levels s)
  length-grown = rw p.table (length-append_one s.unique_table (e ∷ []))

  grown_cases :
      (x : Edge) (m : InnerNode)
      → get_node grown x ≡ some (inner m)
      → ((x ≡ e) × (m ≡ n)) ⊎ ((x ≢ e) × (get_node s x ≡ some (inner m)))
  grown_cases x m h = ground (arith, get_node-grown x)

  Listed-grown : (l : ℕ) (x : Edge) → Listed s l x → Listed grown l x
  Listed-grown l x (xs, at, has) =
      let bound = get_elem?_bound s.unique_table l at in (xs, ground (arith, table-grown l), has)

  IsStored-grown :
      (x : Edge) (m : InnerNode) → get_node grown x ≡ some (inner m) → IsStored grown x m
  IsStored-grown x m h = elim (grown_cases x m h) [
    | inl (xe, mn) ↦
        rw (xe, mn)
          (record {
            below = rw length-grown (omega (arith, last));
            reduced = reduced;
            listed = (
              e ∷ [],
              rw (last, table-grown, (==_iff (num_levels s) (num_levels s)).1 refl) refl,
              inl refl,
            );
          })
    | inr (_, old) ↦
        let o = v.stored x m old in
        record {
          below = rw length-grown (omega (arith, o.below));
          reduced = o.reduced;
          listed = Listed-grown m.level x o.listed;
        }
  ]

  levelled-grown :
      (l : ℕ) (xs : List Edge) (x : Edge)
      → get_elem? grown.unique_table l ≡ some xs
      → Has x xs
      → (m : InnerNode) × (get_node grown x ≡ some (inner m)) × (m.level ≡ l)
  levelled-grown l xs x at has = elim (ℕ_discrete l (num_levels s)) [
    | yes same ↦
        let lists : xs ≡ e ∷ [] = ground (arith, table-grown l) in
        let listed : Has x (e ∷ []) = subst (Has x) lists has in
        elim listed [
          | inl xe ↦ (n, rw xe get_node-grown_self, last ∙ sym same)
          | inr none_left ↦ absurd none_left
        ]
    | no apart ↦
        let (m, h, lm) = v.levelled l xs x (ground (arith, table-grown l)) has in
        (m, grown-Keeps.at x (inner m) h, lm)
  ]

  fresh : (x : Edge) → get_node s x ≡ some (inner n) → ⊥
  fresh x h = absurd (omega (arith, (v.stored x n h).below, last))

  unique-grown :
      (x y : Edge) (m : InnerNode)
      → get_node grown x ≡ some (inner m)
      → get_node grown y ≡ some (inner m)
      → x ≡ y
  unique-grown x y m hx hy = elim (grown_cases x m hx) [
    | inl (xe, mn) ↦ elim (grown_cases y m hy) [
      | inl (ye, _) ↦ xe ∙ sym ye
      | inr (_, old) ↦ absurd (fresh y (rw mn at old))
    ]
    | inr (_, old) ↦ elim (grown_cases y m hy) [
      | inl (ye, mn) ↦ absurd (fresh x (rw mn at old))
      | inr (_, old') ↦ v.unique x y m old old'
    ]
  ]

  grown-IsValid : IsValid grown
  grown-IsValid = record {
    stored = IsStored-grown;
    levelled = levelled-grown;
    unique = unique-grown;
    free = p.free;
    level_count = rw length-grown (omega (arith, room));
  }

-- What adding a level promises: the new store is valid, keeps every node, has one level more and
-- the node of that level at the returned edge; a full store is left as it was.
abbrev pub Grows : Store → (ℕ → InnerNode) → Result Edge × Store → Type 0
Grows s f r =
    ((e : Edge) × (t : Store) × (r ≡ (ok e, t))
      × Keeps s t
      × IsValid t
      × (num_levels t ≡ suc (num_levels s))
      × (get_node t e ≡ some (inner (f (num_levels s)))))
    ⊎ ((r ≡ (err out_of_memory, s)) × IsFull s)

-- A valid store with fewer than 2^32 - 1 levels takes another one: with a maker of nodes at the
-- level that it is given, with different children, `add_level` returns the edge of the new node
-- in a valid store that keeps every node, or reports that the store is full and leaves it.
pub add_level-Grows :
    (s : Store) (f : ℕ → InnerNode)
    → IsValid s
    → num_levels s < 2 ^ 32 - 1
    → ((l : ℕ) → (f l).level ≡ l)
    → ((l : ℕ) → (f l).child0 ≢ (f l).child1)
    → Grows s f (add_level f s)
unfolding add_level
add_level-Grows s f v room level reduced =
    let l = num_levels s in
    let whole : l % 2 ^ 32 ≡ l = omega arith in
    let below : (l == 2 ^ 32 - 1) ≡ false = ground arith in
    rw (whole, below)
      (elim (add_node-Placed (f l) s v.free) [
        | inl (e, t, run, p) ↦ inl (
          e,
          grown v p (level l) (reduced l) room,
          rw run (unfold push_level in refl),
          grown-Keeps v p (level l) (reduced l) room,
          grown-IsValid v p (level l) (reduced l) room,
          length-grown v p (level l) (reduced l) room,
          get_node-grown_self v p (level l) (reduced l) room,
        )
        | inr (run, full) ↦ inr (rw run refl, full)
      ])

no_nodes :
    (capacity : ℕ) (e : Edge) (n : InnerNode) → get_node (new_store capacity) e ≡ some (inner n) → ⊥
unfolding get_node new_store
no_nodes capacity zero n h = cc
no_nodes capacity (suc zero) n h = cc
no_nodes capacity (suc (suc i)) n h = cc

pub new_store-IsValid : (capacity : ℕ) → IsValid (new_store capacity)
unfolding new_store
new_store-IsValid capacity = record {
  stored = λ e n h. absurd (no_nodes capacity e n h);
  levelled = λ l es e h. cc;
  unique = λ e f n h. absurd (no_nodes capacity e n h);
  free = tt;
  level_count = omega arith;
}
