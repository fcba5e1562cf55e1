-- ===== src/Represents.antt =====
-- Which Boolean function an edge of the store stands for.
-- `Rep` unfolds the shared diagram below an edge into a decision tree; `IsFun s lo e p` says that
-- this tree is ordered and reduced, tests no level above `lo`, and computes `p`.
use oxidd.Prelude.{
  ℕ, zero, suc, ◌≤◌, ◌<◌, ◌≢◌, ◌≡◌, ◌∙◌, sym, ap, refl, subst, Bool, true, false, ◌⊎◌, inl, inr,
  Option, some, arith, if◌then◌else◌, ◌↔◌,
}
use oxidd.Tree.{Tree, leaf, node, Assignment, BoolFn, eval, IsOrdered, IsOrdered-le}
use oxidd.Tree.Canonical.{eval-injective}
use oxidd.Manager.{
  Edge, InnerNode, Node, inner, terminal, Store, get_node, get_terminal, num_levels,
}
use oxidd.Manager.Valid.{Keeps, Extends, IsValid}

abbrev pub Rep : Store → Edge → Tree → Type 0
Rep s e (leaf b) = get_node s e ≡ some (terminal b)
Rep s e (node l t u) =
    (n : InnerNode) × (get_node s e ≡ some (inner n))
    × (n.level ≡ l)
    × Rep s n.child0 t
    × Rep s n.child1 u

pub record IsFun (s : Store) (lo : ℕ) (e : Edge) (p : BoolFn) : Type 0 where
  pub tree : Tree
  pub rep : Rep s e tree
  pub ordered : IsOrdered lo tree
  pub computes : (r : Assignment) → eval tree r ≡ p r

pub Rep-Keeps : {s s' : Store} (e : Edge) (t : Tree) → Keeps s s' → Rep s e t → Rep s' e t
Rep-Keeps e (leaf b) x h = x.at _ _ h
Rep-Keeps e (node l t u) x (n, h, k, a, b) =
    (n, x.at _ _ h, k, Rep-Keeps n.child0 t x a, Rep-Keeps n.child1 u x b)

pub get_node_terminal :
    (s : Store) (e : Edge) (b : Bool) → get_node s e ≡ some (terminal b) → e ≡ get_terminal b
unfolding get_node get_terminal
get_node_terminal s zero b h = ground arith
get_node_terminal s (suc zero) b h = ground arith
get_node_terminal s (suc (suc i)) b h = ground arith

pub get_node-get_terminal : (s : Store) (b : Bool) → get_node s (get_terminal b) ≡ some (terminal b)
unfolding get_node get_terminal
get_node-get_terminal s true = refl
get_node-get_terminal s false = refl

same_inner : {o : Option Node} {m n : InnerNode} → o ≡ some (inner m) → o ≡ some (inner n) → m ≡ n
same_inner a b = cc

-- An edge has one tree.
pub Rep-functional : (s : Store) (e : Edge) (t u : Tree) → Rep s e t → Rep s e u → t ≡ u
Rep-functional s e (leaf b) (leaf c) h k = cc
Rep-functional s e (leaf b) (node l t u) h (n, k, _, _, _) = cc
Rep-functional s e (node l t u) (leaf b) (n, k, _, _, _) h = cc
Rep-functional s e (node l t u) (node m v w) (n, h, ln, a, b) (n', h', lm, a', b') =
    let same = same_inner h h' in
    cc (
      same,
      ln,
      lm,
      Rep-functional s n.child0 t v a (subst (λ (k : InnerNode). Rep s k.child0 v) (sym same) a'),
      Rep-functional s n.child1 u w b (subst (λ (k : InnerNode). Rep s k.child1 w) (sym same) b'),
    )

-- A tree has one edge.
Rep-injective : {s : Store} → IsValid s → (e f : Edge) (t : Tree) → Rep s e t → Rep s f t → e ≡ f
Rep-injective {s} v e f (leaf b) h k = get_node_terminal s e b h ∙ sym (get_node_terminal s f b k)
Rep-injective {s} v e f (node l t u) (n, h, ln, a, b) (m, k, lm, c, d) =
    let same : m ≡ n =
      cc (
        ln,
        lm,
        Rep-injective v n.child0 m.child0 t a c,
        Rep-injective v n.child1 m.child1 u b d,
      ) in
    v.unique e f n h (subst (λ k. get_node s f ≡ some (inner k)) same k)

module _ {s : Store} {lo : ℕ} {e : Edge} {p : BoolFn} (f : IsFun s lo e p) where
  pub IsFun-le : {lo' : ℕ} → lo' ≤ lo → IsFun s lo' e p
  IsFun-le h = record {
    tree = f.tree;
    rep = f.rep;
    ordered = IsOrdered-le f.tree h f.ordered;
    computes = f.computes;
  }

  pub IsFun-zero : IsFun s 0 e p
  IsFun-zero = IsFun-le (omega arith)

  pub IsFun-Keeps : {s' : Store} → Keeps s s' → IsFun s' lo e p
  IsFun-Keeps x = record {
    tree = f.tree;
    rep = Rep-Keeps e f.tree x f.rep;
    ordered = f.ordered;
    computes = f.computes;
  }

  pub IsFun-Extends : {s' : Store} → Extends s s' → IsFun s' lo e p
  IsFun-Extends x = IsFun-Keeps x.keeps

  pub IsFun-ext : {q : BoolFn} → ((r : Assignment) → p r ≡ q r) → IsFun s lo e q
  IsFun-ext h = record {
    tree = f.tree;
    rep = f.rep;
    ordered = f.ordered;
    computes = λ r. f.computes r ∙ h r;
  }

  -- An edge has one function.
  pub IsFun-agree : {lo' : ℕ} {q : BoolFn} → IsFun s lo' e q → (r : Assignment) → p r ≡ q r
  IsFun-agree g r =
      sym (f.computes r)
      ∙ ap (λ t. eval t r) (Rep-functional _ e f.tree g.tree f.rep g.rep)
      ∙ g.computes r

  -- What a larger store says of an edge that a smaller one had, the smaller one says too.
  pub IsFun-back :
      {s' : Store} {lo' : ℕ} {q : BoolFn} → Keeps s s' → IsFun s' lo' e q → IsFun s lo' e q
  IsFun-back x g =
      let same = Rep-functional _ e f.tree g.tree (Rep-Keeps e f.tree x f.rep) g.rep in
      record {
        tree = f.tree;
        rep = f.rep;
        ordered = subst (IsOrdered _) (sym same) g.ordered;
        computes = λ r. ap (λ t. eval t r) same ∙ g.computes r;
      }

-- The diagrams of a valid store are canonical: edges of the same function are equal.
pub IsFun-injective :
    {s : Store} {e f : Edge} {p q : BoolFn} {lo lo' : ℕ}
    → IsValid s
    → IsFun s lo e p
    → IsFun s lo' f q
    → ((r : Assignment) → p r ≡ q r)
    → e ≡ f
IsFun-injective {s} {e} {f} v a b h =
    let same =
      eval-injective a.tree b.tree 0 (IsOrdered-le a.tree (omega arith) a.ordered)
        (IsOrdered-le b.tree (omega arith) b.ordered)
        (λ r. a.computes r ∙ h r ∙ sym (b.computes r)) in
    Rep-injective v e f b.tree (subst (Rep s e) same a.rep) b.rep

-- In a valid store, two edges of functions are equal exactly if the functions agree on every
-- assignment.
pub edge_equality :
    (s : Store) (e f : Edge) (p q : BoolFn)
    → IsValid s
    → IsFun s 0 e p
    → IsFun s 0 f q
    → (e ≡ f) ↔ ((r : Assignment) → p r ≡ q r)
edge_equality s e f p q v a b =
    ((λ same. IsFun-agree a (subst (λ k. IsFun s 0 k q) (sym same) b)), IsFun-injective v a b)

pub get_terminal-IsFun : (s : Store) (lo : ℕ) (b : Bool) → IsFun s lo (get_terminal b) (λ _. b)
get_terminal-IsFun s lo b = record {
  tree = leaf b;
  rep = get_node-get_terminal s b;
  ordered = tt;
  computes = λ r. refl;
}

-- A function by cases on the level of the top-most node.
abbrev pub branch : ℕ → BoolFn → BoolFn → BoolFn
branch l p q r = if r l then p r else q r

-- An edge to a terminal has a constant function.
pub record AtTerminal (s : Store) (e : Edge) (p : BoolFn) : Type 0 where
  pub value : Bool
  pub at : get_node s e ≡ some (terminal value)
  pub constant : (r : Assignment) → p r ≡ value

-- An edge to an inner node branches at the node's level.
pub record AtInner (s : Store) (lo : ℕ) (e : Edge) (p : BoolFn) : Type 0 where
  pub n : InnerNode
  pub at : get_node s e ≡ some (inner n)
  pub above : lo ≤ n.level
  pub below : n.level < num_levels s
  pub self : IsFun s n.level e p
  pub yes_fn : BoolFn
  pub no_fn : BoolFn
  pub yes_at : IsFun s (suc n.level) n.child0 yes_fn
  pub no_at : IsFun s (suc n.level) n.child1 no_fn
  pub branches : (r : Assignment) → p r ≡ branch n.level yes_fn no_fn r

view_tree :
    {s : Store} {lo : ℕ} {e : Edge} {p : BoolFn} (t : Tree)
    → IsValid s
    → Rep s e t
    → IsOrdered lo t
    → ((r : Assignment) → eval t r ≡ p r)
    → AtTerminal s e p ⊎ AtInner s lo e p
view_tree (leaf b) v h o c = inl (record { value = b; at = h; constant = λ r. sym (c r) })
view_tree {s} {lo} {e} (node l t u) v (n, h, k, a, b) o c = inr (record {
  n = n;
  at = h;
  above = omega (arith, k, o.0);
  below = (v.stored e n h).below;
  self = record {
    tree = node l t u;
    rep = (n, h, k, a, b);
    ordered = (rw k (omega arith), o.1, o.2, o.3);
    computes = c;
  };
  yes_fn = eval t;
  no_fn = eval u;
  yes_at = record { tree = t; rep = a; ordered = rw k o.1; computes = λ r. refl };
  no_at = record { tree = u; rep = b; ordered = rw k o.2; computes = λ r. refl };
  branches = λ r. sym (c r) ∙ rw k;
})

pub view :
    {s : Store} {lo : ℕ} {e : Edge} {p : BoolFn}
    → IsValid s
    → IsFun s lo e p
    → AtTerminal s e p ⊎ AtInner s lo e p
view v f = view_tree f.tree v f.rep f.ordered f.computes

-- A function that tests no level above `lo` has no root above it.
pub IsFun-above :
    {s : Store} {lo : ℕ} {e : Edge} {p : BoolFn} {n : InnerNode}
    → IsValid s
    → IsFun s lo e p
    → get_node s e ≡ some (inner n)
    → lo ≤ n.level
IsFun-above v f h = elim (view v f) [
  | inl t ↦ cc (t.at, h)
  | inr i ↦ rw (same_inner h i.at) i.above
]

-- A node over two different children is a function by cases on its level.
pub node-IsFun :
    {s s' : Store} {l : ℕ} {t e h : Edge} {p q : BoolFn}
    → IsValid s
    → Keeps s s'
    → IsFun s (suc l) t p
    → IsFun s (suc l) e q
    → t ≢ e
    → get_node s' h ≡ some (inner (record { level = l; child0 = t; child1 = e }))
    → IsFun s' l h (branch l p q)
node-IsFun {s} {s'} {l} {t} {e} v x a b apart at = record {
  tree = node l a.tree b.tree;
  rep = (_, at, refl, Rep-Keeps t a.tree x a.rep, Rep-Keeps e b.tree x b.rep);
  ordered = (
    omega arith,
    a.ordered,
    b.ordered,
    λ same. apart (Rep-injective v t e b.tree (subst (Rep s t) same a.rep) b.rep),
  );
  computes = λ r. rw (a.computes, b.computes);
}
