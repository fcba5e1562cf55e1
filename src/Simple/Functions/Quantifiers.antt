-- ===== src/Simple/Functions/Quantifiers.antt =====
-- Restriction and the quantifiers of the function interface of crates/oxidd-rules-bdd/src/simple/apply_rec.rs, and
-- the dispatch on the operator of crates/oxidd-core/src/function.rs.
use oxidd.Prelude.{ℕ, suc, ◌≡◌, refl, List, Bool, true, false, not, ◌&&◌, ◌||◌, if◌then◌else◌}
use oxidd.Tree.{BoolFn}
use oxidd.Outcome.{Run}
use oxidd.Manager.{Edge, num_levels}
use oxidd.Represents.{IsFun}
use oxidd.Cache.{ApplyCache}
use oxidd.Simple.{BddOp, and, or, nand, nor, xor, equiv, imp, imp_strict}
use oxidd.Simple.Apply.{St}
use oxidd.Simple.Meaning.{Literals, Substitutions, bin, is_bin, apply2, quantify, IsCube, positive}
use oxidd.Simple.Ensures.{IsValidState}
use oxidd.Simple.Quantify.{quant, apply_quant}
use oxidd.Simple.Quantify.Recursion.{quant-Ensures}
use oxidd.Simple.Quantify.Results.{apply_quant-Ensures}
use oxidd.Simple.Restrict.{apply_restrict}
use oxidd.Simple.Restrict.Inner.{restricted}
use oxidd.Simple.Restrict.Recursion.{apply_restrict-Ensures}
use oxidd.Simple.Functions.Connectives.{Fueled-levels, Makes}

pub data BooleanOperator : Type 0 where
  op_and op_or op_xor op_equiv op_nand op_nor op_imp op_imp_strict : BooleanOperator

-- The operator of the diagrams that the dispatch selects.
unfoldable pub dispatched : BooleanOperator → BddOp
dispatched op_and = and
dispatched op_or = or
dispatched op_xor = xor
dispatched op_equiv = equiv
dispatched op_nand = nand
dispatched op_nor = nor
dispatched op_imp = imp
dispatched op_imp_strict = imp_strict

module _ (A : ApplyCache BddOp) where
  unfoldable pub restrict_edge : Edge → Edge → Run (St A) Edge
  restrict_edge root vars s = apply_restrict A (suc (num_levels s.store)) root vars s

  unfoldable pub forall_edge : Edge → Edge → Run (St A) Edge
  forall_edge root vars s = quant A (suc (num_levels s.store)) and root vars s

  unfoldable pub exist_edge : Edge → Edge → Run (St A) Edge
  exist_edge root vars s = quant A (suc (num_levels s.store)) or root vars s

  unfoldable pub unique_edge : Edge → Edge → Run (St A) Edge
  unique_edge root vars s = quant A (suc (num_levels s.store)) xor root vars s

  unfoldable pub apply_quant_dispatch :
      BddOp → BooleanOperator → Edge → Edge → Edge → Run (St A) Edge
  apply_quant_dispatch q op f g vars s =
      apply_quant A (suc (num_levels s.store)) q (dispatched op) f g vars s

  unfoldable pub apply_forall_edge : BooleanOperator → Edge → Edge → Edge → Run (St A) Edge
  apply_forall_edge op lhs rhs vars = apply_quant_dispatch and op lhs rhs vars

  unfoldable pub apply_exist_edge : BooleanOperator → Edge → Edge → Edge → Run (St A) Edge
  apply_exist_edge op lhs rhs vars = apply_quant_dispatch or op lhs rhs vars

  unfoldable pub apply_unique_edge : BooleanOperator → Edge → Edge → Edge → Run (St A) Edge
  apply_unique_edge op lhs rhs vars = apply_quant_dispatch xor op lhs rhs vars

-- In a valid state, for an edge of `p` and a conjunction of literals, `restrict_edge` makes the
-- edge of `p` with the literals' values put in for their levels, in a valid state that keeps every
-- node and level; the only error is that the store is full.
pub restrict_edge-Makes :
    (A : ApplyCache BddOp) (σ : Substitutions) (s : St A) (f vars : Edge) (p : BoolFn)
    (ls : Literals)
    → IsValidState A σ s
    → IsFun s.store 0 f p
    → IsCube s.store 0 vars ls
    → Makes A σ s (restrict_edge A f vars s) (restricted ls p)
unfolding restrict_edge
restrict_edge-Makes A σ s f vars p ls v hf c =
    apply_restrict-Ensures A σ (suc (num_levels s.store)) 0 s f vars p ls v (Fueled-levels s.store)
      hf c

-- In a valid state, for an edge of `p` and the conjunction of the variables of the levels `ls`,
-- the three quantifiers make the edges of `p` with every level of `ls` quantified, by conjunction,
-- disjunction and exclusive or of both values, in a valid state that keeps every node and level;
-- the only error is that the store is full.
pub quantifiers-Makes :
    (A : ApplyCache BddOp) (σ : Substitutions) (s : St A) (f vars : Edge) (p : BoolFn) (ls : List ℕ)
    → IsValidState A σ s
    → IsFun s.store 0 f p
    → IsCube s.store 0 vars (positive ls)
    → Makes A σ s (forall_edge A f vars s) (quantify (bin and) ls p)
      × Makes A σ s (exist_edge A f vars s) (quantify (bin or) ls p)
      × Makes A σ s (unique_edge A f vars s) (quantify (bin xor) ls p)
unfolding forall_edge exist_edge unique_edge
quantifiers-Makes A σ s f vars p ls v hf c =
    let enough = Fueled-levels s.store in
    let k = suc (num_levels s.store) in
    (
      quant-Ensures A σ and k 0 s f vars p ls refl v enough hf c,
      quant-Ensures A σ or k 0 s f vars p ls refl v enough hf c,
      quant-Ensures A σ xor k 0 s f vars p ls refl v enough hf c,
    )

-- The truth table of an operator of the interface.
abbrev pub table : BooleanOperator → Bool → Bool → Bool
table op_and a b = a && b
table op_or a b = a || b
table op_xor a b = if a then not b else b
table op_equiv a b = if a then b else not b
table op_nand a b = not (a && b)
table op_nor a b = not (a || b)
table op_imp a b = if a then b else true
table op_imp_strict a b = if a then false else b

dispatched-is_bin : (op : BooleanOperator) → is_bin (dispatched op) ≡ true
unfolding dispatched
dispatched-is_bin op_and = refl
dispatched-is_bin op_or = refl
dispatched-is_bin op_xor = refl
dispatched-is_bin op_equiv = refl
dispatched-is_bin op_nand = refl
dispatched-is_bin op_nor = refl
dispatched-is_bin op_imp = refl
dispatched-is_bin op_imp_strict = refl

dispatched-table : (op : BooleanOperator) → bin (dispatched op) ≡ table op
unfolding dispatched
dispatched-table op_and = refl
dispatched-table op_or = refl
dispatched-table op_xor = refl
dispatched-table op_equiv = refl
dispatched-table op_nand = refl
dispatched-table op_nor = refl
dispatched-table op_imp = refl
dispatched-table op_imp_strict = refl

-- In a valid state, for edges of `p` and `u` and the conjunction of the variables of the levels
-- `ls`, quantification on top of each of the eight operators makes the edge of the operator's
-- function of `p` and `u` with every level of `ls` quantified; the only error is that the store
-- is full.
pub apply_quantifiers-Makes :
    (A : ApplyCache BddOp) (σ : Substitutions) (s : St A) (op : BooleanOperator) (f g vars : Edge)
    (p u : BoolFn) (ls : List ℕ)
    → IsValidState A σ s
    → IsFun s.store 0 f p
    → IsFun s.store 0 g u
    → IsCube s.store 0 vars (positive ls)
    → Makes A σ s
        (apply_forall_edge A op f g vars s)
        (quantify (bin and) ls (apply2 (table op) p u))
      × Makes A σ s
          (apply_exist_edge A op f g vars s)
          (quantify (bin or) ls (apply2 (table op) p u))
      × Makes A σ s
          (apply_unique_edge A op f g vars s)
          (quantify (bin xor) ls (apply2 (table op) p u))
unfolding apply_forall_edge apply_exist_edge apply_unique_edge apply_quant_dispatch
apply_quantifiers-Makes A σ s op f g vars p u ls v hf hg c =
    let enough = Fueled-levels s.store in
    let k = suc (num_levels s.store) in
    let isb = dispatched-is_bin op in
    rw (← dispatched-table op) (
      apply_quant-Ensures A σ and (dispatched op) k 0 s f g vars p u ls refl refl isb v enough hf hg
          c,
      apply_quant-Ensures A σ or (dispatched op) k 0 s f g vars p u ls refl refl isb v enough hf hg
          c,
      apply_quant-Ensures A σ xor (dispatched op) k 0 s f g vars p u ls refl refl isb v enough hf hg
          c,
    )
