-- ===== src/Simple/Restrict/Literal.antt =====
-- Conjunctions of literals, and functions under the assignment that they prescribe.
use oxidd.Prelude.{
  ℕ, suc, ◌≤◌, ◌<◌, ◌≡◌, sym, refl, Bool, true, false, [], ◌∷◌, arith, if◌then◌else◌, some,
}
use oxidd.Tree.{leaf, BoolFn, Assignment, IsOrdered, update}
use oxidd.Manager.{Store, Edge, InnerNode, inner, terminal, get_node}
use oxidd.Represents.{Rep-functional, branch}
use oxidd.Simple.Meaning.{Literals, cube_tree, IsCube, assign}
use oxidd.Simple.Quantify.Semantics.{Below, Agrees-above}

-- The children of the node of a literal: the rest of the conjunction, and ⊥.
abbrev pub Sides : Store → Bool → Edge → Edge → ℕ → Literals → Type 0
Sides s true t e l ls = IsCube s (suc l) t ls
Sides s false t e l ls = (get_node s t ≡ some (terminal false)) × IsCube s (suc l) e ls

pub record LiteralAt (s : Store) (lo : ℕ) (e : Edge) (l : ℕ) (b : Bool) (ls : Literals)
    : Type 0 where
  pub n : InnerNode
  pub at : get_node s e ≡ some (inner n)
  pub level : n.level ≡ l
  pub above : lo ≤ l
  pub sides : Sides s b n.child0 n.child1 l ls

pub IsCube-LiteralAt :
    {s : Store} {lo : ℕ} {e : Edge} (l : ℕ) (b : Bool) (ls : Literals)
    → IsCube s lo e ((l, b) ∷ ls)
    → LiteralAt s lo e l b ls
IsCube-LiteralAt l true ls c =
    let (n, at, level, yes_side, _) = c.rep in
    record {
      n = n;
      at = at;
      level = level;
      above = c.ordered.0;
      sides = record { rep = yes_side; ordered = c.ordered.1 };
    }
IsCube-LiteralAt l false ls c =
    let (n, at, level, f, no_side) = c.rep in
    record {
      n = n;
      at = at;
      level = level;
      above = c.ordered.0;
      sides = (f, record { rep = no_side; ordered = c.ordered.2 });
    }

-- A set below a level does not prescribe its value.
pub assign-above :
    (lo l : ℕ) (ls : Literals) (r : Assignment)
    → IsOrdered lo (cube_tree ls)
    → l < lo
    → assign ls r l ≡ r l
assign-above lo l [] r o h = refl
assign-above lo l ((m, true) ∷ ls) r o h =
    ground (arith, o.0, assign-above (suc m) l ls r o.1 (omega (arith, o.0)))
assign-above lo l ((m, false) ∷ ls) r o h =
    ground (arith, o.0, assign-above (suc m) l ls r o.2 (omega (arith, o.0)))

-- A literal above the function.
pub assign_unused :
    (l : ℕ) (b : Bool) (ls : Literals) (p : BoolFn) (r : Assignment)
    → Below (suc l) p
    → p (assign ls r) ≡ p (assign ((l, b) ∷ ls) r)
assign_unused l b ls p r h = sym (
    h (update (assign ls r) l b) (assign ls r)
      (Agrees-above (suc l) l b (assign ls r) (omega arith)))

-- The literal of the level at which the function branches.
pub assign-branch :
    (l : ℕ) (b : Bool) (ls : Literals) (x y : BoolFn) (r : Assignment)
    → Below (suc l) x
    → Below (suc l) y
    → (if b then x (assign ls r) else y (assign ls r)) ≡ branch l x y (assign ((l, b) ∷ ls) r)
assign-branch l true ls x y r hx hy = ground (arith, assign_unused l true ls x r hx)
assign-branch l false ls x y r hx hy = ground (arith, assign_unused l false ls y r hy)

-- Literals below the level at which the function branches.
pub assign-branch_below :
    (l : ℕ) (ls : Literals) (x y : BoolFn) (r : Assignment)
    → IsOrdered (suc l) (cube_tree ls)
    → branch l (λ r'. x (assign ls r')) (λ r'. y (assign ls r')) r ≡ branch l x y (assign ls r)
assign-branch_below l ls x y r o = ground (arith, assign-above (suc l) l ls r o (omega arith))

cube_tree-injective : (ls ms : Literals) → cube_tree ls ≡ cube_tree ms → ls ≡ ms
cube_tree-injective [] [] h = refl
cube_tree-injective [] ((m, true) ∷ ms) h = cc
cube_tree-injective [] ((m, false) ∷ ms) h = cc
cube_tree-injective ((l, true) ∷ ls) [] h = cc
cube_tree-injective ((l, false) ∷ ls) [] h = cc
cube_tree-injective ((l, true) ∷ ls) ((m, true) ∷ ms) h =
    let rest : cube_tree ls ≡ cube_tree ms = cc in
    let heads : l ≡ m = cc in cc (cube_tree-injective ls ms rest, heads)
cube_tree-injective ((l, false) ∷ ls) ((m, false) ∷ ms) h =
    let rest : cube_tree ls ≡ cube_tree ms = cc in
    let heads : l ≡ m = cc in cc (cube_tree-injective ls ms rest, heads)
cube_tree-injective ((l, true) ∷ ls) ((m, false) ∷ ms) h =
    let left : cube_tree ls ≡ leaf false = cc in absurd (not_false ls left)
  where
    not_false : (ls : Literals) → cube_tree ls ≡ leaf false → ⊥
    not_false [] h = cc
    not_false ((l, true) ∷ ls) h = cc
    not_false ((l, false) ∷ ls) h = cc
cube_tree-injective ((l, false) ∷ ls) ((m, true) ∷ ms) h =
    let left : cube_tree ms ≡ leaf false = cc in absurd (not_false ms left)
  where
    not_false : (ls : Literals) → cube_tree ls ≡ leaf false → ⊥
    not_false [] h = cc
    not_false ((l, true) ∷ ls) h = cc
    not_false ((l, false) ∷ ls) h = cc

pub IsCube-literals :
    (s : Store) {lo lo' : ℕ} (e : Edge) (ls ms : Literals)
    → IsCube s lo e ls
    → IsCube s lo' e ms
    → ls ≡ ms
IsCube-literals s e ls ms c d = cube_tree-injective ls ms (Rep-functional s e _ _ c.rep d.rep)
