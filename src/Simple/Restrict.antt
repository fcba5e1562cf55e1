-- ===== src/Simple/Restrict.antt =====
-- `restrict` of crates/oxidd-rules-bdd/src/simple/apply_rec.rs fixes variables to constants.
pub mod Literal
pub mod Inner
pub mod Recursion
use oxidd.Prelude.{
  ℕ, zero, suc, Bool, true, false, Option, none, some, List, [], ◌∷◌, ltb, ◌==◌, if◌then◌else◌,
}
use oxidd.Outcome.{Result, ok, err, panic, out_of_fuel, Run, pure, raise, ◌>>=◌, ◌>>◌}
use oxidd.Manager.{Edge, InnerNode, Node, inner, terminal, Store, get_node}
use oxidd.Cache.{ApplyCache}
use oxidd.Simple.{BddOp, restrict, reduce}
use oxidd.Simple.Apply.{State, St, on_store, read_node, rec_binary, cached}

pub data RestrictInnerResult : Type 0 where
  finished : Edge → RestrictInnerResult
  recurse : Edge → Edge → InnerNode → RestrictInnerResult

-- `restrict_inner` on the rest of the literals.
abbrev pub Again : Type 0
Again = Edge → InnerNode → Edge → InnerNode → Result RestrictInnerResult

-- The rest of the literals on an edge whose node is not known yet.
unfoldable pub restrict_next : Store → Again → Edge → Edge → InnerNode → Result RestrictInnerResult
restrict_next s again f vars vnode = elim (get_node s f) [
  | none ↦ err panic
  | some m ↦ elim m [ inner fnode ↦ again f fnode vars vnode | terminal b ↦ ok (finished f) ]
]

-- The top-most literal is above `f`.
unfoldable pub restrict_above :
    Store → Again → Edge → InnerNode → InnerNode → Result RestrictInnerResult
restrict_above s again f fnode vnode = elim (get_node s vnode.child0) [
  | none ↦ err panic
  | some m ↦ elim m [
    | inner n ↦ again f fnode vnode.child0 n
    | terminal t ↦ if t then ok (finished f) else elim (get_node s vnode.child1) [
      | none ↦ err panic
      | some m' ↦ elim m' [ inner n ↦ again f fnode vnode.child1 n | terminal b ↦ ok (finished f) ]
    ]
  ]
]

-- The top-most literal is at the level of `f`.
unfoldable pub restrict_level : Store → Again → InnerNode → InnerNode → Result RestrictInnerResult
restrict_level s again fnode vnode = elim (get_node s vnode.child0) [
  | none ↦ err panic
  | some m ↦ elim m [
    | inner n ↦ restrict_next s again fnode.child0 vnode.child0 n
    | terminal t ↦ if t then ok (finished fnode.child0) else elim (get_node s vnode.child1) [
      | none ↦ err panic
      | some m' ↦ elim m' [
        | inner n ↦ restrict_next s again fnode.child1 vnode.child1 n
        | terminal b ↦ ok (finished fnode.child1)
      ]
    ]
  ]
]

unfoldable pub restrict_inner :
    ℕ → Store → Edge → InnerNode → Edge → InnerNode → Result RestrictInnerResult
restrict_inner zero s f fnode vars vnode = err out_of_fuel
restrict_inner (suc k) s f fnode vars vnode =
    let above = restrict_above s (restrict_inner k s) f fnode vnode in
    let level = restrict_level s (restrict_inner k s) fnode vnode in
    if ltb fnode.level vnode.level
    then ok (recurse vars f fnode)
    else if ltb vnode.level fnode.level
    then above
    else level

module _ (A : ApplyCache BddOp) where
  unfoldable pub run_restrict_inner :
      ℕ → Edge → InnerNode → Edge → InnerNode → Run (St A) RestrictInnerResult
  run_restrict_inner k f fnode vars vnode s = (restrict_inner k s.store f fnode vars vnode, s)

  -- After the cache query; `again` is `apply_restrict` on children.
  unfoldable pub restrict_cofactors :
      (Edge → Edge → Run (St A) Edge) → Edge → InnerNode → Run (St A) Edge
  restrict_cofactors again vars fnode = do
    te ← rec_binary again (fnode.child0, vars) (fnode.child1, vars)
    on_store (reduce fnode.level te.0 te.1)

  unfoldable pub restrict_result :
      (Edge → Edge → Run (St A) Edge) → RestrictInnerResult → Run (St A) Edge
  restrict_result again (finished res) = pure res
  restrict_result again (recurse vars f fnode) =
      cached A restrict (f ∷ vars ∷ []) [] (restrict_cofactors again vars fnode)

  unfoldable pub restrict_nodes :
      ℕ → (Edge → Edge → Run (St A) Edge) → Edge → Edge → Node → Node → Run (St A) Edge
  restrict_nodes k again f vars (inner fnode) (inner vnode) = do
    res ← run_restrict_inner k f fnode vars vnode
    restrict_result again res
  restrict_nodes k again f vars (terminal _) _ = pure f
  restrict_nodes k again f vars _ (terminal _) = pure f

  unfoldable pub apply_restrict : ℕ → Edge → Edge → Run (St A) Edge
  apply_restrict zero f vars = raise out_of_fuel
  apply_restrict (suc k) f vars = do
    m ← read_node f
    n ← read_node vars
    restrict_nodes (suc k) (apply_restrict k) f vars m n
