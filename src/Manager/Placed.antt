-- ===== src/Manager/Placed.antt =====
-- `add_node` puts a node into a fresh slot, or finds the store full.
use oxidd.Prelude.{
  ℕ, zero, suc, ◌+◌, ◌-◌, ◌<◌, ◌≢◌, ◌≡◌, sym, ap, refl, subst, ◌⊎◌, inl, inr, Option, none, some,
  List, [], ◌∷◌, ◌++◌, arith, ltb, ◌==◌, if◌then◌else◌, Bool-cases, length, get_elem?, set,
  get_elem?-append_one, get_elem?-set, get_elem?_bound, get_elem?-length, Has,
}
use oxidd.Outcome.{Result, ok, err, out_of_memory}
use oxidd.Manager.Valid.{Extends, IsFree, IsFull}
use oxidd.Manager.{Edge, InnerNode, inner, Store, get_node, place, add_node}

-- A new node at `e`, everything else as it was.
pub record Placed (s : Store) (n : InnerNode) (e : Edge) (t : Store) : Type 0 where
  pub at : (x : Edge) → get_node t x ≡ (if x == e then some (inner n) else get_node s x)
  pub was_free : get_node s e ≡ none
  pub table : t.unique_table ≡ s.unique_table
  pub free : IsFree t.slots t.free

IsFree-set :
    (slots : List (Option InnerNode)) (j : ℕ) (v : Option InnerNode) (ids : List Edge)
    → j < length slots
    → (Has (suc (suc j)) ids → ⊥)
    → IsFree slots ids
    → IsFree (set slots j v) ids
IsFree-set slots j v [] h new f = tt
IsFree-set slots j v (zero ∷ ids) h new f = absurd (omega (arith, f.0))
IsFree-set slots j v (suc zero ∷ ids) h new f = absurd (omega (arith, f.0))
IsFree-set slots j v (suc (suc i) ∷ ids) h new f =
    let at : suc (suc i) - 2 ≡ i = omega arith in
    let apart : i ≢ j = λ e. new (inl (ap (λ (k : ℕ). suc (suc k)) (sym e))) in
    (
      f.0,
      rw (at, get_elem?-set slots j i v h)
          (ground (arith, subst (λ k. get_elem? slots k ≡ some none) at f.1)),
      f.2,
      IsFree-set slots j v ids h (λ m. new (inr m)) f.3,
    )

module _ (s : Store) (n : InnerNode) where
  abbrev appended : Store
  appended = record s { slots = s.slots ++ some n ∷ [] }

  get_node-appended :
      (x : Edge)
      → get_node appended x ≡ (if x == length s.slots + 2 then some (inner n) else get_node s x)
  unfolding get_node
  get_node-appended zero = ground arith
  get_node-appended (suc zero) = ground arith
  get_node-appended (suc (suc i)) = ground (arith, get_elem?-append_one s.slots (some n) i)

  get_node_end : get_node s (length s.slots + 2) ≡ none
  unfolding get_node
  get_node_end =
      let e : length s.slots + 2 ≡ suc (suc (length s.slots)) = omega arith in
      rw e (rw (get_elem?-length s.slots))

  abbrev refilled : ℕ → List Edge → Store
  refilled j rest = record s { slots = set s.slots j (some n); free = rest }

  get_node-refilled :
      (j : ℕ) (rest : List Edge) (x : Edge)
      → j < length s.slots
      → get_node (refilled j rest) x ≡ (if x == suc (suc j) then some (inner n) else get_node s x)
  unfolding get_node
  get_node-refilled j rest zero h = ground arith
  get_node-refilled j rest (suc zero) h = ground arith
  get_node-refilled j rest (suc (suc i)) h = ground (arith, get_elem?-set s.slots j i (some n))

  get_node_freed : (j : ℕ) → get_elem? s.slots j ≡ some none → get_node s (suc (suc j)) ≡ none
  unfolding get_node
  get_node_freed j h = rw h

-- What `add_node` did: it put the node at a fresh edge, or there was no room for it.
abbrev pub PlaceCases : Store → InnerNode → Result Edge × Store → Type 0
PlaceCases s n r =
    ((e : Edge) × (t : Store) × (r ≡ (ok e, t)) × Placed s n e t)
    ⊎ ((r ≡ (err out_of_memory, s)) × IsFull s)

place-Placed :
    (ids : List Edge) (n : InnerNode) (s : Store)
    → s.free ≡ ids
    → IsFree s.slots ids
    → PlaceCases s n (place ids n s)
unfolding place
place-Placed [] n s e f = elim (Bool-cases (ltb (length s.slots) s.capacity)) [
  | inl room ↦ inl (
    length s.slots + 2,
    appended s n,
    rw room refl,
    record {
      at = get_node-appended s n;
      was_free = get_node_end s n;
      table = refl;
      free = rw e tt;
    },
  )
  | inr full ↦ inr (rw full refl, (e, ground arith))
]
place-Placed (zero ∷ rest) n s e f = absurd (omega (arith, f.0))
place-Placed (suc zero ∷ rest) n s e f = absurd (omega (arith, f.0))
place-Placed (suc (suc j) ∷ rest) n s e f =
    let at : suc (suc j) - 2 ≡ j = omega arith in
    let here : get_elem? s.slots j ≡ some none =
      subst (λ k. get_elem? s.slots k ≡ some none) at f.1 in
    let bound : j < length s.slots = get_elem?_bound s.slots j here in
    inl (
      suc (suc j),
      refilled s n j rest,
      rw at refl,
      record {
        at = λ x. get_node-refilled s n j rest x bound;
        was_free = get_node_freed s n j here;
        table = refl;
        free = IsFree-set s.slots j (some n) rest bound f.2 f.3;
      },
    )

pub add_node-Placed :
    (n : InnerNode) (s : Store) → IsFree s.slots s.free → PlaceCases s n (add_node n s)
unfolding add_node
add_node-Placed n s f = place-Placed s.free n s refl f

pub Placed-Extends : {s t : Store} {n : InnerNode} {e : Edge} → Placed s n e t → Extends s t
Placed-Extends {s} {t} {n} {e} p = record {
  keeps = record { at = λ x m h. ground (arith, p.at x, p.was_free, h) };
  levels = rw p.table (omega arith);
}
