-- ===== src/Simple/Apply.antt =====
-- crates/oxidd-rules-bdd/src/simple/apply_rec.rs with the sequential recursor: negation, the
-- binary operators and if-then-else.
-- The recursion is on fuel; a call on children has one unit less than its caller.
-- Statistics are left out, and `should_switch_to_sequential` is false.
use oxidd.Prelude.{
  ℕ, zero, suc, true, false, not, Option, none, some, List, [], ◌∷◌, ◌==◌, if◌then◌else◌, min,
}
use oxidd.Outcome.{ok, panic, out_of_fuel, Run, pure, raise, expect, ◌>>=◌, ◌>>◌}
use oxidd.Manager.{Edge, InnerNode, Node, inner, terminal, Store, get_node, get_terminal}
use oxidd.Cache.{ApplyCache}
use oxidd.Simple.{
  BddOp, negation, and, or, imp, imp_strict, ite, Operation, binary, negate, done, terminal_bin,
  reduce,
}

-- The node store and the apply cache.
pub record State (Cache : Type 0) : Type 0 where
  pub store : Store
  pub cache : Cache

module _ {K : Type 0} where
  unfoldable pub on_store : {A : Type 0} → Run Store A → Run (State K) A
  on_store m s = ((m s.store).0, record s { store = (m s.store).1 })

  unfoldable pub read_node : Edge → Run (State K) Node
  read_node e s = expect (get_node s.store e) s

  -- `unwrap_inner`
  unfoldable pub unwrap_inner : Node → Run (State K) InnerNode
  unwrap_inner (inner n) = pure n
  unwrap_inner (terminal b) = raise panic

  unfoldable pub read_terminal_bin : BddOp → Edge → Edge → Run (State K) Operation
  read_terminal_bin op f g s = expect (terminal_bin s.store op f g) s

  -- The recursor: both calls in order, with the operands of the two cofactors.
  unfoldable pub rec_unary : (Edge → Run (State K) Edge) → Edge → Edge → Run (State K) (Edge × Edge)
  rec_unary op a b = do ra ← op a; rb ← op b; pure (ra, rb)

  unfoldable pub rec_binary :
      (Edge → Edge → Run (State K) Edge) → Edge × Edge → Edge × Edge → Run (State K) (Edge × Edge)
  rec_binary op a b = do ra ← op a.0 a.1; rb ← op b.0 b.1; pure (ra, rb)

  unfoldable pub rec_ternary :
      (Edge → Edge → Edge → Run (State K) Edge)
      → Edge × Edge × Edge
      → Edge × Edge × Edge
      → Run (State K) (Edge × Edge)
  rec_ternary op a b = do ra ← op a.0 a.1 a.2; rb ← op b.0 b.1 b.2; pure (ra, rb)

-- The children of a node at the level, and the edge itself twice below it.
unfoldable pub cofactors_at : ℕ → Edge → InnerNode → Edge × Edge
cofactors_at level e n = if n.level == level then (n.child0, n.child1) else (e, e)

module _ (A : ApplyCache BddOp) where
  abbrev pub St : Type 0
  St = State A.Cache

  unfoldable pub cache_get : BddOp → List Edge → List ℕ → Run St (Option Edge)
  cache_get op es ns s = (ok (A.get s.cache op es ns), s)

  unfoldable pub cache_add : BddOp → List Edge → List ℕ → Edge → Run St (Unit {0})
  cache_add op es ns v s = (ok tt, record s { cache = A.add s.cache op es ns v })

  -- `None` of the cache query: compute, then add to the cache.
  unfoldable pub cached : BddOp → List Edge → List ℕ → Run St Edge → Run St Edge
  cached op es ns compute = do
    hit ← cache_get op es ns
    elim hit [ some h ↦ pure h | none ↦ do h ← compute; cache_add op es ns h; pure h ]

  unfoldable pub apply_not : ℕ → Edge → Run St Edge
  apply_not zero f = raise out_of_fuel
  apply_not (suc k) f = do
    node ← read_node f
    elim node [
      | terminal t ↦ pure (get_terminal (not t))
      | inner n ↦
          cached negation (f ∷ []) []
            (do te ← rec_unary (apply_not k) n.child0 n.child1; on_store (reduce n.level te.0 te.1))
    ]

  -- The part of `apply_bin` after the cache query: the cofactors at the top-most level, the calls
  -- on them, and the node over their results.
  unfoldable pub bin_inner : (Edge → Edge → Run St Edge) → Edge → Edge → Run St Edge
  bin_inner again f g = do
    m ← read_node f
    fnode ← unwrap_inner m
    n ← read_node g
    gnode ← unwrap_inner n
    let level = min fnode.level gnode.level
    let fs = cofactors_at level f fnode
    let gs = cofactors_at level g gnode
    te ← rec_binary again (fs.0, gs.0) (fs.1, gs.1)
    on_store (reduce level te.0 te.1)

  -- What is left after the terminal cases; `again` is `apply_bin` on children.
  unfoldable pub bin_operation :
      ℕ → (Edge → Edge → Run St Edge) → Edge → Edge → Operation → Run St Edge
  bin_operation k again f g (negate h) = apply_not k h
  bin_operation k again f g (done h) = pure h
  bin_operation k again f g (binary operator op1 op2) =
      cached operator (op1 ∷ op2 ∷ []) [] (bin_inner again f g)

  unfoldable pub apply_bin : ℕ → BddOp → Edge → Edge → Run St Edge
  apply_bin zero op f g = raise out_of_fuel
  apply_bin (suc k) op f g = do
    operation ← read_terminal_bin op f g
    bin_operation (suc k) (apply_bin k op) f g operation

  -- The part of `apply_ite` after the cache query.
  unfoldable pub ite_inner :
      (Edge → Edge → Edge → Run St Edge)
      → Edge
      → Edge
      → Edge
      → InnerNode
      → InnerNode
      → InnerNode
      → Run St Edge
  ite_inner again f g h fnode gnode hnode = do
    let level = min (min fnode.level gnode.level) hnode.level
    let fs = cofactors_at level f fnode
    let gs = cofactors_at level g gnode
    let hs = cofactors_at level h hnode
    te ← rec_ternary again (fs.0, gs.0, hs.0) (fs.1, gs.1, hs.1)
    on_store (reduce level te.0 te.1)

  -- `apply_ite` once `f` is an inner node: the terminal cases of `g` and `h`, then the cache.
  unfoldable pub ite_nodes :
      ℕ
      → (Edge → Edge → Edge → Run St Edge)
      → Edge
      → Edge
      → Edge
      → InnerNode
      → Node
      → Node
      → Run St Edge
  ite_nodes k again f g h fnode (inner gnode) (inner hnode) =
      cached ite (f ∷ g ∷ h ∷ []) [] (ite_inner again f g h fnode gnode hnode)
  ite_nodes k again f g h fnode (terminal true) (inner _) = apply_bin k or f h
  ite_nodes k again f g h fnode (terminal false) (inner _) = apply_bin k imp_strict f h
  ite_nodes k again f g h fnode (inner _) (terminal true) = apply_bin k imp f g
  ite_nodes k again f g h fnode (inner _) (terminal false) = apply_bin k and f g
  ite_nodes k again f g h fnode (terminal false) (terminal _) = apply_not k f
  ite_nodes k again f g h fnode (terminal true) (terminal _) = pure f

  -- The case on the node of `f`; `again` is `apply_ite` on children.
  unfoldable pub ite_first :
      ℕ → (Edge → Edge → Edge → Run St Edge) → Edge → Edge → Edge → Node → Run St Edge
  ite_first k again f g h (terminal t) = pure (if t then g else h)
  ite_first k again f g h (inner fnode) = do
    m ← read_node g
    n ← read_node h
    ite_nodes k again f g h fnode m n

  unfoldable pub apply_ite : ℕ → Edge → Edge → Edge → Run St Edge
  apply_ite zero f g h = raise out_of_fuel
  apply_ite (suc k) f g h =
      let compute : Run St Edge = (do
        node ← read_node f
        ite_first (suc k) (apply_ite k) f g h node) in
      if g == h
      then pure g
      else if f == g
      then apply_bin (suc k) or f h
      else if f == h
      then apply_bin (suc k) and f g
      else compute
