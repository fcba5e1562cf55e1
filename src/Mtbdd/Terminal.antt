-- ===== src/Mtbdd/Terminal.antt =====
-- `terminal_bin` of crates/oxidd-rules-mtbdd/src/lib.rs. What stands behind an edge is a parameter;
-- a call of `get_terminal`, which may allocate, is the outcome `constant`.
pub mod Laws
pub mod Extremum
use oxidd.Prelude.{ℕ, Bool, true, false, Option, none, some, ltb, ◌==◌, ◌||◌, if◌then◌else◌}
use oxidd.Manager.{Edge}
use oxidd.Mtbdd.Int64.{Ordering, less, equal, greater}
use oxidd.Mtbdd.Number.{NumberBase}

pub data MtbddOp : Type 0 where
  add sub mul div min max ite : MtbddOp

pub data Operation (T : Type 0) : Type 0 where
  binary : MtbddOp → Edge → Edge → Operation T
  done : Edge → Operation T
  constant : T → Operation T

-- The node of an edge: a terminal, or an inner node.
pub data MtNode (T : Type 0) : Type 0 where
  inner : MtNode T
  terminal : T → MtNode T

module _ {T : Type 0} (N : NumberBase T) where
  -- The operands in the order of their edges.
  abbrev pub in_edge_order : MtbddOp → Edge → Edge → Operation T
  in_edge_order op f g = if ltb g f then binary op g f else binary op f g

  -- A NaN operand, where the other one is an inner node.
  abbrev pub unless_nan : T → Operation T → Operation T
  unless_nan t otherwise = if N.eq t N.nan then constant N.nan else otherwise

  unfoldable pub add_cases : Edge → Edge → MtNode T → MtNode T → Operation T
  add_cases f g (terminal tf) (terminal tg) = constant (N.add tf tg)
  add_cases f g (terminal t) inner =
      if N.eq t N.zero then done g else unless_nan t (in_edge_order add f g)
  add_cases f g inner (terminal t) =
      if N.eq t N.zero then done f else unless_nan t (in_edge_order add f g)
  add_cases f g inner inner = in_edge_order add f g

  unfoldable pub sub_cases : Edge → Edge → MtNode T → MtNode T → Operation T
  sub_cases f g (terminal tf) (terminal tg) = constant (N.sub tf tg)
  sub_cases f g (terminal t) inner = if N.eq t N.zero then done g else unless_nan t (binary sub f g)
  sub_cases f g inner (terminal t) = if N.eq t N.zero then done f else unless_nan t (binary sub f g)
  sub_cases f g inner inner = binary sub f g

  unfoldable pub mul_cases : Edge → Edge → MtNode T → MtNode T → Operation T
  mul_cases f g (terminal tf) (terminal tg) = constant (N.mul tf tg)
  mul_cases f g (terminal t) inner =
      if N.eq t N.one then done g else unless_nan t (in_edge_order mul f g)
  mul_cases f g inner (terminal t) =
      if N.eq t N.one then done f else unless_nan t (in_edge_order mul f g)
  mul_cases f g inner inner = in_edge_order mul f g

  unfoldable pub div_cases : Edge → Edge → MtNode T → MtNode T → Operation T
  div_cases f g (terminal tf) (terminal tg) = constant (N.div tf tg)
  div_cases f g (terminal t) inner = unless_nan t (binary div f g)
  div_cases f g inner (terminal t) = if N.eq t N.one then done f else unless_nan t (binary div f g)
  div_cases f g inner inner = binary div f g

  abbrev pub min_of : Edge → Edge → Option Ordering → Operation T
  min_of f g (some less) = done f
  min_of f g (some equal) = done f
  min_of f g (some greater) = done g
  min_of f g none = constant N.nan

  abbrev pub max_of : Edge → Edge → Option Ordering → Operation T
  max_of f g (some greater) = done f
  max_of f g (some equal) = done f
  max_of f g (some less) = done g
  max_of f g none = constant N.nan

  -- The recursion goes by the operator `min` for both.
  unfoldable pub extremum_cases :
      (Edge → Edge → Option Ordering → Operation T)
      → Edge
      → Edge
      → MtNode T
      → MtNode T
      → Operation T
  extremum_cases of f g (terminal tf) (terminal tg) = of f g (N.partial_cmp tf tg)
  extremum_cases of f g (terminal t) inner = unless_nan t (in_edge_order min f g)
  extremum_cases of f g inner (terminal t) = unless_nan t (in_edge_order min f g)
  extremum_cases of f g inner inner = in_edge_order min f g

  -- none is the `unreachable!` of an operator that is not binary.
  unfoldable pub terminal_bin : (Edge → MtNode T) → MtbddOp → Edge → Edge → Option (Operation T)
  terminal_bin get_node add f g = some (add_cases f g (get_node f) (get_node g))
  terminal_bin get_node sub f g = some (sub_cases f g (get_node f) (get_node g))
  terminal_bin get_node mul f g = some (mul_cases f g (get_node f) (get_node g))
  terminal_bin get_node div f g = some (div_cases f g (get_node f) (get_node g))
  terminal_bin get_node min f g =
      some (if f == g then done f else extremum_cases min_of f g (get_node f) (get_node g))
  terminal_bin get_node max f g =
      some (if f == g then done f else extremum_cases max_of f g (get_node f) (get_node g))
  terminal_bin get_node ite f g = none
