-- ===== src/Simple/Functions.antt =====
-- The function interface of crates/oxidd-rules-bdd/src/simple/apply_rec.rs: new variables, the
-- constants, the connectives, and evaluation. Every call on the recursive algorithms is given one
-- unit of fuel more than there are levels.
pub mod Connectives
pub mod Variables
pub mod Evaluation
pub mod Quantifiers
use oxidd.Prelude.{
  ℕ, zero, suc, Bool, true, false, not, Option, none, some, List, [], ◌∷◌, length, set, get_elem?,
  replicate, if◌then◌else◌, ltb,
}
use oxidd.Outcome.{Result, ok, err, panic, out_of_fuel, Run}
use oxidd.Manager.{
  Edge, InnerNode, Node, inner, terminal, Store, get_node, get_terminal, num_levels, add_level,
}
use oxidd.Cache.{ApplyCache}
use oxidd.Simple.{BddOp, and, or, nand, nor, xor, equiv, imp, imp_strict}
use oxidd.Simple.Apply.{State, St, on_store, apply_not, apply_bin, apply_ite}

-- The node over ⊤ and ⊥ at a level.
unfoldable pub var_node : ℕ → InnerNode
var_node level = record { level = level; child0 = get_terminal true; child1 = get_terminal false }

unfoldable pub new_var : Run Store Edge
new_var = add_level var_node

module _ (A : ApplyCache BddOp) where
  unfoldable pub not_edge : Edge → Run (St A) Edge
  not_edge edge s = apply_not A (suc (num_levels s.store)) edge s

  unfoldable pub and_edge : Edge → Edge → Run (St A) Edge
  and_edge lhs rhs s = apply_bin A (suc (num_levels s.store)) and lhs rhs s

  unfoldable pub or_edge : Edge → Edge → Run (St A) Edge
  or_edge lhs rhs s = apply_bin A (suc (num_levels s.store)) or lhs rhs s

  unfoldable pub nand_edge : Edge → Edge → Run (St A) Edge
  nand_edge lhs rhs s = apply_bin A (suc (num_levels s.store)) nand lhs rhs s

  unfoldable pub nor_edge : Edge → Edge → Run (St A) Edge
  nor_edge lhs rhs s = apply_bin A (suc (num_levels s.store)) nor lhs rhs s

  unfoldable pub xor_edge : Edge → Edge → Run (St A) Edge
  xor_edge lhs rhs s = apply_bin A (suc (num_levels s.store)) xor lhs rhs s

  unfoldable pub equiv_edge : Edge → Edge → Run (St A) Edge
  equiv_edge lhs rhs s = apply_bin A (suc (num_levels s.store)) equiv lhs rhs s

  unfoldable pub imp_edge : Edge → Edge → Run (St A) Edge
  imp_edge lhs rhs s = apply_bin A (suc (num_levels s.store)) imp lhs rhs s

  unfoldable pub imp_strict_edge : Edge → Edge → Run (St A) Edge
  imp_strict_edge lhs rhs s = apply_bin A (suc (num_levels s.store)) imp_strict lhs rhs s

  unfoldable pub ite_edge : Edge → Edge → Edge → Run (St A) Edge
  ite_edge if_edge then_edge else_edge s =
      apply_ite A (suc (num_levels s.store)) if_edge then_edge else_edge s

-- The values of the arguments at their levels; `none` where an argument is no inner node or its
-- level is outside the vector, which panics.
unfoldable pub set_values : Store → List (Edge × Bool) → List Bool → Option (List Bool)
set_values s [] values = some values
set_values s ((edge, val) ∷ args) values = elim (get_node s edge) [
  | none ↦ none
  | some m ↦ elim m [
    | terminal b ↦ none
    | inner n ↦
        if ltb n.level (length values) then set_values s args (set values n.level val) else none
  ]
]

-- The child that the value of a node's level selects.
abbrev pub selected : InnerNode → Bool → Edge
selected n true = n.child0
selected n false = n.child1

unfoldable pub eval_inner : ℕ → Store → Edge → List Bool → Result Bool
eval_inner zero s edge values = err out_of_fuel
eval_inner (suc k) s edge values = elim (get_node s edge) [
  | none ↦ err panic
  | some m ↦ elim m [
    | terminal t ↦ ok t
    | inner n ↦ elim (get_elem? values n.level) [
      | none ↦ err panic
      | some v ↦ eval_inner k s (selected n v) values
    ]
  ]
]

unfoldable pub eval_edge : Store → Edge → List (Edge × Bool) → Result Bool
eval_edge s edge args = elim (set_values s args (replicate (num_levels s) false)) [
  | none ↦ err panic
  | some values ↦ eval_inner (suc (num_levels s)) s edge values
]
