-- ===== src/Simple/Terminal.antt =====
-- `terminal_bin` of crates/oxidd-rules-bdd/src/simple/mod.rs: what it decides is right, and it leaves
-- a pair of inner nodes.
pub mod Outcomes
pub mod Cases
use oxidd.Prelude.{
  ℕ, ◌≡◌, sym, refl, subst, Bool, true, false, not, ◌⊎◌, inl, inr, some, arith, ltb, ◌==◌,
  Bool-cases,
}
use oxidd.Tree.{Assignment, BoolFn}
use oxidd.Manager.{Edge, Node, inner, terminal, Store, get_node, get_terminal}
use oxidd.Manager.Valid.{IsValid}
use oxidd.Represents.{IsFun, IsFun-ext, IsFun-agree, get_terminal-IsFun, AtInner, view}
use oxidd.Simple.{
  BddOp, and, or, nand, nor, xor, equiv, imp, imp_strict, Operation, binary, negate, done,
  ordered_pair, and_nodes, or_nodes, nand_nodes, nor_nodes, xor_nodes, equiv_nodes, imp_nodes,
  imp_strict_nodes, op_nodes, op_same, terminal_bin,
}
use oxidd.Simple.Meaning.{bin, is_bin, apply2}
pub use oxidd.Simple.Terminal.Outcomes.{IsPair, Fits, AtNode}
use oxidd.Simple.Terminal.Outcomes.{Is, done_terminal, done_left, not_left}
use oxidd.Simple.Terminal.Cases.{
  and_nodes-Fits, or_nodes-Fits, nand_nodes-Fits, nor_nodes-Fits, xor_nodes-Fits, equiv_nodes-Fits,
  imp_nodes-Fits, imp_strict_nodes-Fits,
}

module _ {s : Store} {lo : ℕ} {f g : Edge} {p q : BoolFn} (hf : IsFun s lo f p)
    (hg : IsFun s lo g q) where
  op_nodes-Fits :
      (op : BddOp) (m n : Node)
      → is_bin op ≡ true
      → AtNode s lo f p m
      → AtNode s lo g q n
      → (o : Operation) × (op_nodes op m n f g ≡ some o) × Is hf hg op o
  unfolding op_nodes
  op_nodes-Fits and m n h a b = (_, refl, and_nodes-Fits hf hg m n a b)
  op_nodes-Fits or m n h a b = (_, refl, or_nodes-Fits hf hg m n a b)
  op_nodes-Fits nand m n h a b = (_, refl, nand_nodes-Fits hf hg m n a b)
  op_nodes-Fits nor m n h a b = (_, refl, nor_nodes-Fits hf hg m n a b)
  op_nodes-Fits xor m n h a b = (_, refl, xor_nodes-Fits hf hg m n a b)
  op_nodes-Fits equiv m n h a b = (_, refl, equiv_nodes-Fits hf hg m n a b)
  op_nodes-Fits imp m n h a b = (_, refl, imp_nodes-Fits hf hg m n a b)
  op_nodes-Fits imp_strict m n h a b = (_, refl, imp_strict_nodes-Fits hf hg m n a b)
  op_nodes-Fits _ m n h a b = cc

  op_same-Fits :
      (op : BddOp)
      → is_bin op ≡ true
      → ((r : Assignment) → p r ≡ q r)
      → (o : Operation) × (op_same op f ≡ some o) × Is hf hg op o
  unfolding op_same
  op_same-Fits and h e = (_, refl, done_left hf hg and (λ r. ground (arith, e r)))
  op_same-Fits or h e = (_, refl, done_left hf hg or (λ r. ground (arith, e r)))
  op_same-Fits nand h e = (_, refl, not_left hf hg nand (λ r. ground (arith, e r)))
  op_same-Fits nor h e = (_, refl, not_left hf hg nor (λ r. ground (arith, e r)))
  op_same-Fits xor h e = (_, refl, done_terminal hf hg false xor (λ r. ground (arith, e r)))
  op_same-Fits equiv h e = (_, refl, done_terminal hf hg true equiv (λ r. ground (arith, e r)))
  op_same-Fits imp h e = (_, refl, done_terminal hf hg true imp (λ r. ground (arith, e r)))
  op_same-Fits imp_strict h e =
      (_, refl, done_terminal hf hg false imp_strict (λ r. ground (arith, e r)))
  op_same-Fits _ h e = cc

pub at_node :
    {s : Store} {lo : ℕ} {e : Edge} {p : BoolFn}
    → IsValid s
    → IsFun s lo e p
    → (n : Node) × (get_node s e ≡ some n) × AtNode s lo e p n
at_node v h = elim (view v h) [
  | inl t ↦ (terminal t.value, t.at, t.constant)
  | inr i ↦ (inner i.n, i.at, (i, refl))
]

-- In a valid store, for edges of `p` and `q`, `terminal_bin` of a binary operator does not panic,
-- and what it leaves gives the operator's function of `p` and `q`: the finished edge has it, or
-- the complement of the edge to negate, or both operands are inner nodes, in an order that the
-- operator allows.
pub terminal_bin-Fits :
    {s : Store} {lo : ℕ} (op : BddOp) {f g : Edge} {p q : BoolFn}
    → IsValid s
    → is_bin op ≡ true
    → IsFun s lo f p
    → IsFun s lo g q
    → (o : Operation) × (terminal_bin s op f g ≡ some o) × Fits s lo op f g p q o
unfolding terminal_bin
terminal_bin-Fits {s} {lo} op {f} {g} {p} {q} v h a b = elim (Bool-cases (f == g)) [
  | inl same ↦
      let fg : f ≡ g = ground arith in
      let (o, run, fits) =
        op_same-Fits a b op h (IsFun-agree a (subst (λ k. IsFun s lo k q) (sym fg) b)) in
      (o, rw same run, fits)
  | inr apart ↦
      let (m, at_f, fm) = at_node v a in
      let (n, at_g, gn) = at_node v b in
      let (o, run, fits) = op_nodes-Fits a b op m n h fm gn in (o, rw (apart, at_f, at_g) run, fits)
]
