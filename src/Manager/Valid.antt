-- ===== src/Manager/Valid.antt =====
-- The invariant of the node store and its unique tables, and that it is kept.
use oxidd.Prelude.{
  ℕ, ◌-◌, ◌^◌, ◌≤◌, ◌<◌, ◌≢◌, ◌≡◌, refl, true, false, Option, none, some, List, [], ◌∷◌, arith,
  length, get_elem?, Has,
}
use oxidd.Manager.{
  Edge, InnerNode, Node, inner, terminal, Store, get_node, num_levels, same_children, matches, find,
}

-- Nodes stay what they are.
pub record Keeps (s t : Store) : Type 0 where
  pub at : (e : Edge) (n : Node) → get_node s e ≡ some n → get_node t e ≡ some n

-- Nodes stay what they are, and the levels stay as many.
pub record Extends (s t : Store) : Type 0 where
  pub keeps : Keeps s t
  pub levels : num_levels t ≡ num_levels s

pub Keeps-trans : {s t u : Store} → Keeps s t → Keeps t u → Keeps s u
Keeps-trans a b = record { at = λ e n h. b.at e n (a.at e n h) }

pub Extends-refl : (s : Store) → Extends s s
Extends-refl s = record { keeps = record { at = λ e n h. h }; levels = omega arith }

pub Extends-trans : {s t u : Store} → Extends s t → Extends t u → Extends s u
Extends-trans a b = record {
  keeps = Keeps-trans a.keeps b.keeps;
  levels = omega (arith, a.levels, b.levels);
}

-- The slots on the free list are free, and no slot is on it twice.
abbrev pub IsFree : List (Option InnerNode) → List Edge → Type 0
IsFree slots [] = Unit
IsFree slots (id ∷ rest) =
    (2 ≤ id) × (get_elem? slots (id - 2) ≡ some none) × (Has id rest → ⊥) × IsFree slots rest

abbrev pub Listed : Store → ℕ → Edge → Type 0
Listed s l e = (es : List Edge) × (get_elem? s.unique_table l ≡ some es) × Has e es

-- What holds of the node behind an edge: its level exists, it is not redundant, and the set of
-- its level has it.
pub record IsStored (s : Store) (e : Edge) (n : InnerNode) : Type 0 where
  pub below : n.level < num_levels s
  pub reduced : n.child0 ≢ n.child1
  pub listed : Listed s n.level e

pub record IsValid (s : Store) : Type 0 where
  pub stored : (e : Edge) (n : InnerNode) → get_node s e ≡ some (inner n) → IsStored s e n
  -- a level's set has edges to nodes of that level only
  pub levelled :
      (l : ℕ) (es : List Edge) (e : Edge)
      → get_elem? s.unique_table l ≡ some es
      → Has e es
      → (n : InnerNode) × (get_node s e ≡ some (inner n)) × (n.level ≡ l)
  -- no node is there twice
  pub unique :
      (e f : Edge) (n : InnerNode)
      → get_node s e ≡ some (inner n)
      → get_node s f ≡ some (inner n)
      → e ≡ f
  pub free : IsFree s.slots s.free
  pub level_count : num_levels s < 2 ^ 32

-- There is no room for another node.
abbrev pub IsFull : Store → Type 0
IsFull s = (s.free ≡ []) × (s.capacity ≤ length s.slots)

pub same_children-eq : (m n : InnerNode) → m.level ≡ n.level → same_children m n ≡ true → m ≡ n
unfolding same_children
same_children-eq m n l h = ground arith

pub matches-get_node :
    (s : Store) (n : InnerNode) (e : Edge)
    → matches s n e ≡ true
    → (m : InnerNode) × (get_node s e ≡ some (inner m)) × (same_children m n ≡ true)
unfolding matches
matches-get_node s n e h = go (get_node s e) refl
  where
    go :
        (o : Option Node)
        → get_node s e ≡ o
        → (m : InnerNode) × (get_node s e ≡ some (inner m)) × (same_children m n ≡ true)
    go none p = cc
    go (some (terminal b)) p = cc
    go (some (inner m)) p = (m, p, ground arith)

pub find-Has :
    (s : Store) (n : InnerNode) (es : List Edge) (e : Edge)
    → find s n es ≡ some e
    → Has e es × (matches s n e ≡ true)
unfolding find
find-Has s n [] e h = cc
find-Has s n (x ∷ es) e h = ground (arith, find-Has s n es e)

pub find-none :
    (s : Store) (n : InnerNode) (es : List Edge) (e : Edge)
    → find s n es ≡ none
    → Has e es
    → matches s n e ≡ false
unfolding find
find-none s n [] e h m = absurd m
find-none s n (x ∷ es) e h m = ground (arith, find-none s n es e)
