-- ===== src/Simple.antt =====
-- crates/oxidd-rules-bdd/src/simple/mod.rs: binary decision diagrams without complemented edges.
-- The operators, the terminal cases of the binary ones, and the reduction rule.
pub mod Count
pub mod Pick
pub mod Prepare
pub mod Key
pub mod Apply
pub mod Meaning
pub mod Ensures
pub mod Terminal
pub mod Negation
pub mod Binary
pub mod Ite
pub mod Quantify
pub mod Functions
pub mod Substitute
pub mod Restrict
pub mod Start
pub mod Reachable
use oxidd.Prelude.{
  ℕ, Bool, true, false, not, ◌&&◌, ◌||◌, Option, none, some, List, [], ◌∷◌, ltb, ◌==◌,
  if◌then◌else◌,
}
use oxidd.Outcome.{Result, ok, err, panic, Run, pure, raise, ◌>>=◌}
use oxidd.Manager.{
  Edge, InnerNode, Node, inner, terminal, Store, get_node, get_terminal, get_or_insert,
}

pub data BddOp : Type 0 where
  negation and or nand nor xor equiv imp imp_strict : BddOp
  ite substitute restrict forall exist unique : BddOp
  forall_and forall_or forall_nand forall_nor forall_xor forall_equiv forall_imp forall_imp_strict :
      BddOp
  exist_and exist_or exist_nand exist_nor exist_xor exist_equiv exist_imp exist_imp_strict : BddOp
  unique_and unique_or unique_nand unique_nor unique_xor unique_equiv unique_imp unique_imp_strict :
      BddOp

-- `BDDOp::from_apply_quant`; `none` is its panic.
unfoldable pub from_apply_quant : BddOp → BddOp → Option BddOp
from_apply_quant and and = some forall_and
from_apply_quant and or = some forall_or
from_apply_quant and nand = some forall_nand
from_apply_quant and nor = some forall_nor
from_apply_quant and xor = some forall_xor
from_apply_quant and equiv = some forall_equiv
from_apply_quant and imp = some forall_imp
from_apply_quant and imp_strict = some forall_imp_strict
from_apply_quant or and = some exist_and
from_apply_quant or or = some exist_or
from_apply_quant or nand = some exist_nand
from_apply_quant or nor = some exist_nor
from_apply_quant or xor = some exist_xor
from_apply_quant or equiv = some exist_equiv
from_apply_quant or imp = some exist_imp
from_apply_quant or imp_strict = some exist_imp_strict
from_apply_quant xor and = some unique_and
from_apply_quant xor or = some unique_or
from_apply_quant xor nand = some unique_nand
from_apply_quant xor nor = some unique_nor
from_apply_quant xor xor = some unique_xor
from_apply_quant xor equiv = some unique_equiv
from_apply_quant xor imp = some unique_imp
from_apply_quant xor imp_strict = some unique_imp_strict
from_apply_quant _ _ = none

-- What is left of a binary operation when its terminal cases are through.
pub data Operation : Type 0 where
  binary : BddOp → Edge → Edge → Operation
  negate : Edge → Operation
  done : Edge → Operation

-- One representation of {f, g} for a commutative operator.
unfoldable pub ordered_pair : BddOp → Edge → Edge → Operation
ordered_pair op f g = if ltb g f then binary op g f else binary op f g

-- The cases on the two nodes, for each operator.
unfoldable pub and_nodes : Node → Node → Edge → Edge → Operation
and_nodes (inner _) (inner _) f g = ordered_pair and f g
and_nodes (terminal false) _ f g = done (get_terminal false)
and_nodes _ (terminal false) f g = done (get_terminal false)
and_nodes (terminal true) _ f g = done g
and_nodes _ (terminal true) f g = done f

unfoldable pub or_nodes : Node → Node → Edge → Edge → Operation
or_nodes (inner _) (inner _) f g = ordered_pair or f g
or_nodes (terminal true) _ f g = done (get_terminal true)
or_nodes _ (terminal true) f g = done (get_terminal true)
or_nodes (terminal false) _ f g = done g
or_nodes _ (terminal false) f g = done f

unfoldable pub nand_nodes : Node → Node → Edge → Edge → Operation
nand_nodes (inner _) (inner _) f g = ordered_pair nand f g
nand_nodes (terminal false) _ f g = done (get_terminal true)
nand_nodes _ (terminal false) f g = done (get_terminal true)
nand_nodes (terminal true) _ f g = negate g
nand_nodes _ (terminal true) f g = negate f

unfoldable pub nor_nodes : Node → Node → Edge → Edge → Operation
nor_nodes (inner _) (inner _) f g = ordered_pair nor f g
nor_nodes (terminal true) _ f g = done (get_terminal false)
nor_nodes _ (terminal true) f g = done (get_terminal false)
nor_nodes (terminal false) _ f g = negate g
nor_nodes _ (terminal false) f g = negate f

unfoldable pub xor_nodes : Node → Node → Edge → Edge → Operation
xor_nodes (inner _) (inner _) f g = ordered_pair xor f g
xor_nodes (terminal false) _ f g = done g
xor_nodes _ (terminal false) f g = done f
xor_nodes (terminal true) _ f g = negate g
xor_nodes _ (terminal true) f g = negate f

unfoldable pub equiv_nodes : Node → Node → Edge → Edge → Operation
equiv_nodes (inner _) (inner _) f g = ordered_pair equiv f g
equiv_nodes (terminal true) _ f g = done g
equiv_nodes _ (terminal true) f g = done f
equiv_nodes (terminal false) _ f g = negate g
equiv_nodes _ (terminal false) f g = negate f

unfoldable pub imp_nodes : Node → Node → Edge → Edge → Operation
imp_nodes (inner _) (inner _) f g = binary imp f g
imp_nodes (terminal false) _ f g = done (get_terminal true)
imp_nodes _ (terminal true) f g = done (get_terminal true)
imp_nodes (terminal true) _ f g = done g
imp_nodes _ (terminal false) f g = negate f

unfoldable pub imp_strict_nodes : Node → Node → Edge → Edge → Operation
imp_strict_nodes (inner _) (inner _) f g = binary imp_strict f g
imp_strict_nodes (terminal true) _ f g = done (get_terminal false)
imp_strict_nodes _ (terminal false) f g = done (get_terminal false)
imp_strict_nodes (terminal false) _ f g = done g
imp_strict_nodes _ (terminal true) f g = negate f

unfoldable pub op_nodes : BddOp → Node → Node → Edge → Edge → Option Operation
op_nodes and m n f g = some (and_nodes m n f g)
op_nodes or m n f g = some (or_nodes m n f g)
op_nodes nand m n f g = some (nand_nodes m n f g)
op_nodes nor m n f g = some (nor_nodes m n f g)
op_nodes xor m n f g = some (xor_nodes m n f g)
op_nodes equiv m n f g = some (equiv_nodes m n f g)
op_nodes imp m n f g = some (imp_nodes m n f g)
op_nodes imp_strict m n f g = some (imp_strict_nodes m n f g)
op_nodes _ m n f g = none

-- Both operands are the same edge; `none` is `unreachable!`.
unfoldable pub op_same : BddOp → Edge → Option Operation
op_same and f = some (done f)
op_same or f = some (done f)
op_same nand f = some (negate f)
op_same nor f = some (negate f)
op_same xor f = some (done (get_terminal false))
op_same equiv f = some (done (get_terminal true))
op_same imp f = some (done (get_terminal true))
op_same imp_strict f = some (done (get_terminal false))
op_same _ f = none

-- `terminal_bin`; `none` where it panics.
unfoldable pub terminal_bin : Store → BddOp → Edge → Edge → Option Operation
terminal_bin s op f g = if f == g then op_same op f else elim (get_node s f) [
  | none ↦ none
  | some m ↦ elim (get_node s g) [ none ↦ none | some n ↦ op_nodes op m n f g ]
]

-- `ReducedOrNew` of crates/oxidd-core/src/lib.rs.
pub data ReducedOrNew : Type 0 where
  reduced : Edge → ReducedOrNew
  new : InnerNode → ReducedOrNew

-- `BDDRules::reduce`
unfoldable pub rules_reduce : ℕ → Edge → Edge → ReducedOrNew
rules_reduce level t e =
    if t == e then reduced t else new (record { level = level; child0 = t; child1 = e })

unfoldable pub then_insert : ReducedOrNew → ℕ → Run Store Edge
then_insert (reduced e) level = pure e
then_insert (new n) level = get_or_insert level n

-- `reduce`; its operator only counts statistics.
unfoldable pub reduce : ℕ → Edge → Edge → Run Store Edge
reduce level t e = then_insert (rules_reduce level t e) level
