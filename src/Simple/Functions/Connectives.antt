-- ===== src/Simple/Functions/Connectives.antt =====
-- The connectives of crates/oxidd-rules-bdd/src/simple/apply_rec.rs, on a valid state.
use oxidd.Prelude.{suc, ◌≡◌, refl, arith, true}
use oxidd.Tree.{BoolFn}
use oxidd.Outcome.{Result}
use oxidd.Manager.{Edge, Store, num_levels}
use oxidd.Represents.{IsFun}
use oxidd.Cache.{ApplyCache}
use oxidd.Simple.{BddOp, and, or, nand, nor, xor, equiv, imp, imp_strict}
use oxidd.Simple.Apply.{St}
use oxidd.Simple.Meaning.{Substitutions, bin, is_bin, apply2, negated, choose}
use oxidd.Simple.Ensures.{IsValidState, Ensures, Fueled}
use oxidd.Simple.Negation.{apply_not-Ensures}
use oxidd.Simple.Binary.{apply_bin-Ensures}
use oxidd.Simple.Ite.{apply_ite-Ensures}
use oxidd.Simple.Functions.{
  not_edge, and_edge, or_edge, nand_edge, nor_edge, xor_edge, equiv_edge, imp_edge, imp_strict_edge,
  ite_edge,
}

pub Fueled-levels : (s : Store) → Fueled (suc (num_levels s)) 0 s
Fueled-levels s = record { level = omega arith; fuel = omega arith }

module _ (A : ApplyCache BddOp) (σ : Substitutions) where
  -- The run ends in a valid state that keeps every node and level, and returns an edge of the
  -- function `p`, or the error of a full store.
  abbrev pub Makes : St A → Result Edge × St A → BoolFn → Type 0
  Makes s r p = Ensures A σ s r (λ h t. IsFun t 0 h p)

-- In a valid state, for edges of `p` and `q`, the nine connectives make the edges of the function
-- that has their truth table, in a valid state that keeps every node and level; the only error is
-- that the store is full.
pub connectives-Makes :
    (A : ApplyCache BddOp) (σ : Substitutions) (s : St A) (f g : Edge) (p q : BoolFn)
    → IsValidState A σ s
    → IsFun s.store 0 f p
    → IsFun s.store 0 g q
    → Makes A σ s (not_edge A f s) (negated p)
      × Makes A σ s (and_edge A f g s) (apply2 (bin and) p q)
      × Makes A σ s (or_edge A f g s) (apply2 (bin or) p q)
      × Makes A σ s (nand_edge A f g s) (apply2 (bin nand) p q)
      × Makes A σ s (nor_edge A f g s) (apply2 (bin nor) p q)
      × Makes A σ s (xor_edge A f g s) (apply2 (bin xor) p q)
      × Makes A σ s (equiv_edge A f g s) (apply2 (bin equiv) p q)
      × Makes A σ s (imp_edge A f g s) (apply2 (bin imp) p q)
      × Makes A σ s (imp_strict_edge A f g s) (apply2 (bin imp_strict) p q)
unfolding not_edge and_edge or_edge nand_edge nor_edge xor_edge equiv_edge imp_edge imp_strict_edge
connectives-Makes A σ s f g p q v hf hg =
    let enough = Fueled-levels s.store in
    let run = λ (op : BddOp) (b : is_bin op ≡ true).
      apply_bin-Ensures A σ (suc (num_levels s.store)) 0 op s f g p q b v enough hf hg in
    (
      apply_not-Ensures A σ (suc (num_levels s.store)) 0 s f p v enough hf,
      run and refl,
      run or refl,
      run nand refl,
      run nor refl,
      run xor refl,
      run equiv refl,
      run imp refl,
      run imp_strict refl,
    )

-- In a valid state, for edges of `p`, `q` and `u`, `ite_edge` makes the edge of the function that
-- is `q` where `p` is true and `u` elsewhere; the only error is that the store is full.
pub ite_edge-Makes :
    (A : ApplyCache BddOp) (σ : Substitutions) (s : St A) (f g h : Edge) (p q u : BoolFn)
    → IsValidState A σ s
    → IsFun s.store 0 f p
    → IsFun s.store 0 g q
    → IsFun s.store 0 h u
    → Makes A σ s (ite_edge A f g h s) (choose p q u)
unfolding ite_edge
ite_edge-Makes A σ s f g h p q u v hf hg hh =
    apply_ite-Ensures A σ (suc (num_levels s.store)) 0 s f g h p q u v (Fueled-levels s.store) hf hg
      hh
