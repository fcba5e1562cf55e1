-- ===== src/Simple/Quantify.antt =====
-- The quantifiers of crates/oxidd-rules-bdd/src/simple/apply_rec.rs, alone and on top of a binary
-- operator, and `set_pop` of crates/oxidd-rules-bdd/src/lib.rs.
pub mod Semantics
pub mod Cubes
pub mod Quant
pub mod Recursion
pub mod Combined
pub mod ApplyQuant
pub mod Results
use oxidd.Prelude.{
  ℕ, zero, suc, Bool, true, false, not, ◌&&◌, ◌||◌, Option, none, some, List, [], ◌∷◌, ltb, leb,
  ◌==◌, if◌then◌else◌, min,
}
use oxidd.Outcome.{Result, ok, err, panic, out_of_fuel, Run, pure, raise, expect, ◌>>=◌, ◌>>◌}
use oxidd.Manager.{Edge, InnerNode, Node, inner, terminal, Store, get_node, get_terminal}
use oxidd.Cache.{ApplyCache}
use oxidd.Simple.{
  BddOp, and, or, nand, nor, xor, equiv, imp, imp_strict, forall, exist, unique, from_apply_quant,
  Operation, binary, negate, done, reduce,
}
use oxidd.Simple.Apply.{
  State, St, on_store, read_node, unwrap_inner, read_terminal_bin, rec_binary, rec_ternary, cached,
  apply_not, apply_bin,
}

-- The variables of the set from level `until` on.
unfoldable pub set_pop : ℕ → Store → Edge → ℕ → Result Edge
set_pop zero s set until = err out_of_fuel
set_pop (suc k) s set until = elim (get_node s set) [
  | none ↦ err panic
  | some m ↦ elim m [
    | terminal b ↦ ok set
    | inner n ↦ let rest = set_pop k s n.child0 until in if leb until n.level then ok set else rest
  ]
]

-- The operator under which `quant` caches; `none` is `unreachable!`.
unfoldable pub quant_operator : BddOp → Option BddOp
quant_operator and = some forall
quant_operator or = some exist
quant_operator xor = some unique
quant_operator _ = none

abbrev pub is_unique : BddOp → Bool
is_unique unique = true
is_unique _ = false

abbrev pub is_xor : BddOp → Bool
is_xor xor = true
is_xor _ = false

-- The children if the node is the top-most one.
unfoldable pub cofactors_if : Bool → Edge → InnerNode → Edge × Edge
cofactors_if true e n = (n.child0, n.child1)
cofactors_if false e n = (e, e)

module _ (A : ApplyCache BddOp) where
  -- The set from the level on, but for unique quantification, which keeps the whole set.
  unfoldable pub pop_unless : Bool → ℕ → Edge → ℕ → Run (St A) Edge
  pop_unless true k vars until s = (ok vars, s)
  pop_unless false k vars until s = (set_pop k s.store vars until, s)

  -- The function is constant.
  unfoldable pub quant_terminal : BddOp → Edge → Edge → Run (St A) Edge
  quant_terminal operator f vars = if not (is_unique operator) then pure f else (do
    v ← read_node vars
    elim v [ terminal b ↦ pure f | inner n ↦ pure (get_terminal false) ])

  -- After the cache query; `again` is `quant` on children.
  unfoldable pub quant_cofactors :
      ℕ → (Edge → Edge → Run (St A) Edge) → BddOp → InnerNode → Edge → InnerNode → Run (St A) Edge
  quant_cofactors k again q fnode vars vnode = do
    let vt = if vnode.level == fnode.level then vnode.child0 else vars
    te ← rec_binary again (fnode.child0, vt) (fnode.child1, vt)
    (if fnode.level == vnode.level
        then apply_bin A k q te.0 te.1
        else on_store (reduce fnode.level te.0 te.1))

  -- The set is not empty, its top-most variable is `vnode`.
  unfoldable pub quant_inner :
      ℕ
      → (Edge → Edge → Run (St A) Edge)
      → BddOp
      → BddOp
      → Edge
      → InnerNode
      → Edge
      → InnerNode
      → Run (St A) Edge
  quant_inner k again q operator f fnode vars vnode =
      if is_unique operator && ltb vnode.level fnode.level
      then pure (get_terminal false)
      else cached A operator (f ∷ vars ∷ []) [] (quant_cofactors k again q fnode vars vnode)

  -- The set without the variables that are popped.
  unfoldable pub quant_vars :
      ℕ
      → (Edge → Edge → Run (St A) Edge)
      → BddOp
      → BddOp
      → Edge
      → InnerNode
      → Edge
      → Run (St A) Edge
  quant_vars k again q operator f fnode vars = do
    v ← read_node vars
    elim v [ terminal b ↦ pure f | inner vnode ↦ quant_inner k again q operator f fnode vars vnode ]

  unfoldable pub quant : ℕ → BddOp → Edge → Edge → Run (St A) Edge
  quant zero q f vars = raise out_of_fuel
  quant (suc k) q f vars = do
    operator ← expect (quant_operator q)
    m ← read_node f
    elim m [
      | terminal b ↦ quant_terminal operator f vars
      | inner fnode ↦ do
        vs ← pop_unless (is_unique operator) (suc k) vars fnode.level
        quant_vars (suc k) (quant k q) q operator f fnode vs
    ]

  -- After the cache query; `again` is `apply_quant` on children.
  unfoldable pub apply_quant_cofactors :
      ℕ
      → (Edge → Edge → Edge → Run (St A) Edge)
      → BddOp
      → Edge
      → Edge
      → InnerNode
      → InnerNode
      → Edge
      → InnerNode
      → Run (St A) Edge
  apply_quant_cofactors k again q f g fnode gnode vars vnode = do
    let min_level = min fnode.level gnode.level
    let vt = if vnode.level == min_level then vnode.child0 else vars
    let fs = cofactors_if (leb fnode.level gnode.level) f fnode
    let gs = cofactors_if (leb gnode.level fnode.level) g gnode
    te ← rec_ternary again (fs.0, gs.0, vt) (fs.1, gs.1, vt)
    (if min_level == vnode.level
        then apply_bin A k q te.0 te.1
        else on_store (reduce min_level te.0 te.1))

  -- The set is not empty, its top-most variable is `vnode`.
  unfoldable pub apply_quant_inner :
      ℕ
      → (Edge → Edge → Edge → Run (St A) Edge)
      → BddOp
      → BddOp
      → BddOp
      → Edge
      → Edge
      → InnerNode
      → InnerNode
      → Edge
      → InnerNode
      → Run (St A) Edge
  apply_quant_inner k again q op operator f g fnode gnode vars vnode =
      let min_level = min fnode.level gnode.level in
      if ltb vnode.level min_level && is_xor q
      then pure (get_terminal false)
      else if ltb vnode.level min_level
      then apply_bin A k op f g
      else cached A operator (f ∷ g ∷ vars ∷ []) []
          (apply_quant_cofactors k again q f g fnode gnode vars vnode)

  -- The set without the variables that are popped.
  unfoldable pub apply_quant_vars :
      ℕ
      → (Edge → Edge → Edge → Run (St A) Edge)
      → BddOp
      → BddOp
      → BddOp
      → Edge
      → Edge
      → InnerNode
      → InnerNode
      → Edge
      → Run (St A) Edge
  apply_quant_vars k again q op operator f g fnode gnode vars = do
    v ← read_node vars
    elim v [
      | terminal b ↦ apply_bin A k op f g
      | inner vnode ↦ apply_quant_inner k again q op operator f g fnode gnode vars vnode
    ]

  -- What the terminal cases of the operator leave.
  unfoldable pub apply_quant_operation :
      ℕ
      → (Edge → Edge → Edge → Run (St A) Edge)
      → BddOp
      → BddOp
      → BddOp
      → Edge
      → Operation
      → Run (St A) Edge
  apply_quant_operation k again q op operator vars (negate h) = do
    inverse ← apply_not A k h
    quant k q inverse vars
  apply_quant_operation k again q op operator vars (done h) = quant k q h vars
  apply_quant_operation k again q op operator vars (binary o f g) = do
    m ← read_node f
    fnode ← unwrap_inner m
    n ← read_node g
    gnode ← unwrap_inner n
    vs ← pop_unless (is_xor q) k vars (min fnode.level gnode.level)
    apply_quant_vars k again q op operator f g fnode gnode vs

  unfoldable pub apply_quant : ℕ → BddOp → BddOp → Edge → Edge → Edge → Run (St A) Edge
  apply_quant zero q op f g vars = raise out_of_fuel
  apply_quant (suc k) q op f g vars = do
    operator ← expect (from_apply_quant q op)
    operation ← read_terminal_bin op f g
    apply_quant_operation (suc k) (apply_quant k q op) q op operator vars operation
