-- ===== src/Simple/Terminal/Cases.antt =====
-- `terminal_bin` of crates/oxidd-rules-bdd/src/simple/mod.rs: the terminal cases of each operator.
use oxidd.Prelude.{ℕ, true, false, arith}
use oxidd.Tree.{BoolFn}
use oxidd.Manager.{Edge, Node, inner, terminal, Store}
use oxidd.Represents.{IsFun}
use oxidd.Simple.{
  and, or, nand, nor, xor, equiv, imp, imp_strict, and_nodes, or_nodes, nand_nodes, nor_nodes,
  xor_nodes, equiv_nodes, imp_nodes, imp_strict_nodes,
}
use oxidd.Simple.Terminal.Outcomes.{
  AtNode, Is, done_terminal, done_left, done_right, not_left, not_right, kept, paired,
}

module _ {s : Store} {lo : ℕ} {f g : Edge} {p q : BoolFn} (hf : IsFun s lo f p)
    (hg : IsFun s lo g q) where
  pub and_nodes-Fits :
      (m n : Node) → AtNode s lo f p m → AtNode s lo g q n → Is hf hg and (and_nodes m n f g)
  unfolding and_nodes
  and_nodes-Fits (inner x) (inner y) a b = paired hf hg and (λ x y. ground arith) a.0 b.0
  and_nodes-Fits (inner x) (terminal true) a b = done_left hf hg and (λ r. ground (arith, b r))
  and_nodes-Fits (inner x) (terminal false) a b =
      done_terminal hf hg false and (λ r. ground (arith, b r))
  and_nodes-Fits (terminal true) (inner y) a b = done_right hf hg and (λ r. ground (arith, a r))
  and_nodes-Fits (terminal true) (terminal true) a b =
      done_right hf hg and (λ r. ground (arith, a r, b r))
  and_nodes-Fits (terminal true) (terminal false) a b =
      done_terminal hf hg false and (λ r. ground (arith, a r, b r))
  and_nodes-Fits (terminal false) (inner y) a b =
      done_terminal hf hg false and (λ r. ground (arith, a r))
  and_nodes-Fits (terminal false) (terminal true) a b =
      done_terminal hf hg false and (λ r. ground (arith, a r, b r))
  and_nodes-Fits (terminal false) (terminal false) a b =
      done_terminal hf hg false and (λ r. ground (arith, a r, b r))

  pub or_nodes-Fits :
      (m n : Node) → AtNode s lo f p m → AtNode s lo g q n → Is hf hg or (or_nodes m n f g)
  unfolding or_nodes
  or_nodes-Fits (inner x) (inner y) a b = paired hf hg or (λ x y. ground arith) a.0 b.0
  or_nodes-Fits (inner x) (terminal true) a b =
      done_terminal hf hg true or (λ r. ground (arith, b r))
  or_nodes-Fits (inner x) (terminal false) a b = done_left hf hg or (λ r. ground (arith, b r))
  or_nodes-Fits (terminal true) (inner y) a b =
      done_terminal hf hg true or (λ r. ground (arith, a r))
  or_nodes-Fits (terminal true) (terminal true) a b =
      done_terminal hf hg true or (λ r. ground (arith, a r, b r))
  or_nodes-Fits (terminal true) (terminal false) a b =
      done_terminal hf hg true or (λ r. ground (arith, a r, b r))
  or_nodes-Fits (terminal false) (inner y) a b = done_right hf hg or (λ r. ground (arith, a r))
  or_nodes-Fits (terminal false) (terminal true) a b =
      done_terminal hf hg true or (λ r. ground (arith, a r, b r))
  or_nodes-Fits (terminal false) (terminal false) a b =
      done_right hf hg or (λ r. ground (arith, a r, b r))

  pub nand_nodes-Fits :
      (m n : Node) → AtNode s lo f p m → AtNode s lo g q n → Is hf hg nand (nand_nodes m n f g)
  unfolding nand_nodes
  nand_nodes-Fits (inner x) (inner y) a b = paired hf hg nand (λ x y. ground arith) a.0 b.0
  nand_nodes-Fits (inner x) (terminal true) a b = not_left hf hg nand (λ r. ground (arith, b r))
  nand_nodes-Fits (inner x) (terminal false) a b =
      done_terminal hf hg true nand (λ r. ground (arith, b r))
  nand_nodes-Fits (terminal true) (inner y) a b = not_right hf hg nand (λ r. ground (arith, a r))
  nand_nodes-Fits (terminal true) (terminal true) a b =
      not_right hf hg nand (λ r. ground (arith, a r, b r))
  nand_nodes-Fits (terminal true) (terminal false) a b =
      done_terminal hf hg true nand (λ r. ground (arith, a r, b r))
  nand_nodes-Fits (terminal false) (inner y) a b =
      done_terminal hf hg true nand (λ r. ground (arith, a r))
  nand_nodes-Fits (terminal false) (terminal true) a b =
      done_terminal hf hg true nand (λ r. ground (arith, a r, b r))
  nand_nodes-Fits (terminal false) (terminal false) a b =
      done_terminal hf hg true nand (λ r. ground (arith, a r, b r))

  pub nor_nodes-Fits :
      (m n : Node) → AtNode s lo f p m → AtNode s lo g q n → Is hf hg nor (nor_nodes m n f g)
  unfolding nor_nodes
  nor_nodes-Fits (inner x) (inner y) a b = paired hf hg nor (λ x y. ground arith) a.0 b.0
  nor_nodes-Fits (inner x) (terminal true) a b =
      done_terminal hf hg false nor (λ r. ground (arith, b r))
  nor_nodes-Fits (inner x) (terminal false) a b = not_left hf hg nor (λ r. ground (arith, b r))
  nor_nodes-Fits (terminal true) (inner y) a b =
      done_terminal hf hg false nor (λ r. ground (arith, a r))
  nor_nodes-Fits (terminal true) (terminal true) a b =
      done_terminal hf hg false nor (λ r. ground (arith, a r, b r))
  nor_nodes-Fits (terminal true) (terminal false) a b =
      done_terminal hf hg false nor (λ r. ground (arith, a r, b r))
  nor_nodes-Fits (terminal false) (inner y) a b = not_right hf hg nor (λ r. ground (arith, a r))
  nor_nodes-Fits (terminal false) (terminal true) a b =
      done_terminal hf hg false nor (λ r. ground (arith, a r, b r))
  nor_nodes-Fits (terminal false) (terminal false) a b =
      not_right hf hg nor (λ r. ground (arith, a r, b r))

  pub xor_nodes-Fits :
      (m n : Node) → AtNode s lo f p m → AtNode s lo g q n → Is hf hg xor (xor_nodes m n f g)
  unfolding xor_nodes
  xor_nodes-Fits (inner x) (inner y) a b = paired hf hg xor (λ x y. ground arith) a.0 b.0
  xor_nodes-Fits (inner x) (terminal true) a b = not_left hf hg xor (λ r. ground (arith, b r))
  xor_nodes-Fits (inner x) (terminal false) a b = done_left hf hg xor (λ r. ground (arith, b r))
  xor_nodes-Fits (terminal true) (inner y) a b = not_right hf hg xor (λ r. ground (arith, a r))
  xor_nodes-Fits (terminal true) (terminal true) a b =
      not_right hf hg xor (λ r. ground (arith, a r, b r))
  xor_nodes-Fits (terminal true) (terminal false) a b =
      done_left hf hg xor (λ r. ground (arith, a r, b r))
  xor_nodes-Fits (terminal false) (inner y) a b = done_right hf hg xor (λ r. ground (arith, a r))
  xor_nodes-Fits (terminal false) (terminal true) a b =
      done_right hf hg xor (λ r. ground (arith, a r, b r))
  xor_nodes-Fits (terminal false) (terminal false) a b =
      done_right hf hg xor (λ r. ground (arith, a r, b r))

  pub equiv_nodes-Fits :
      (m n : Node) → AtNode s lo f p m → AtNode s lo g q n → Is hf hg equiv (equiv_nodes m n f g)
  unfolding equiv_nodes
  equiv_nodes-Fits (inner x) (inner y) a b = paired hf hg equiv (λ x y. ground arith) a.0 b.0
  equiv_nodes-Fits (inner x) (terminal true) a b = done_left hf hg equiv (λ r. ground (arith, b r))
  equiv_nodes-Fits (inner x) (terminal false) a b = not_left hf hg equiv (λ r. ground (arith, b r))
  equiv_nodes-Fits (terminal true) (inner y) a b = done_right hf hg equiv (λ r. ground (arith, a r))
  equiv_nodes-Fits (terminal true) (terminal true) a b =
      done_right hf hg equiv (λ r. ground (arith, a r, b r))
  equiv_nodes-Fits (terminal true) (terminal false) a b =
      done_right hf hg equiv (λ r. ground (arith, a r, b r))
  equiv_nodes-Fits (terminal false) (inner y) a b = not_right hf hg equiv (λ r. ground (arith, a r))
  equiv_nodes-Fits (terminal false) (terminal true) a b =
      done_left hf hg equiv (λ r. ground (arith, a r, b r))
  equiv_nodes-Fits (terminal false) (terminal false) a b =
      not_right hf hg equiv (λ r. ground (arith, a r, b r))

  pub imp_nodes-Fits :
      (m n : Node) → AtNode s lo f p m → AtNode s lo g q n → Is hf hg imp (imp_nodes m n f g)
  unfolding imp_nodes
  imp_nodes-Fits (inner x) (inner y) a b = kept hf hg imp a.0 b.0
  imp_nodes-Fits (inner x) (terminal true) a b =
      done_terminal hf hg true imp (λ r. ground (arith, b r))
  imp_nodes-Fits (inner x) (terminal false) a b = not_left hf hg imp (λ r. ground (arith, b r))
  imp_nodes-Fits (terminal true) (inner y) a b = done_right hf hg imp (λ r. ground (arith, a r))
  imp_nodes-Fits (terminal true) (terminal true) a b =
      done_terminal hf hg true imp (λ r. ground (arith, a r, b r))
  imp_nodes-Fits (terminal true) (terminal false) a b =
      done_right hf hg imp (λ r. ground (arith, a r, b r))
  imp_nodes-Fits (terminal false) (inner y) a b =
      done_terminal hf hg true imp (λ r. ground (arith, a r))
  imp_nodes-Fits (terminal false) (terminal true) a b =
      done_terminal hf hg true imp (λ r. ground (arith, a r, b r))
  imp_nodes-Fits (terminal false) (terminal false) a b =
      done_terminal hf hg true imp (λ r. ground (arith, a r, b r))

  pub imp_strict_nodes-Fits :
      (m n : Node)
      → AtNode s lo f p m
      → AtNode s lo g q n
      → Is hf hg imp_strict (imp_strict_nodes m n f g)
  unfolding imp_strict_nodes
  imp_strict_nodes-Fits (inner x) (inner y) a b = kept hf hg imp_strict a.0 b.0
  imp_strict_nodes-Fits (inner x) (terminal true) a b =
      not_left hf hg imp_strict (λ r. ground (arith, b r))
  imp_strict_nodes-Fits (inner x) (terminal false) a b =
      done_terminal hf hg false imp_strict (λ r. ground (arith, b r))
  imp_strict_nodes-Fits (terminal true) (inner y) a b =
      done_terminal hf hg false imp_strict (λ r. ground (arith, a r))
  imp_strict_nodes-Fits (terminal true) (terminal true) a b =
      done_terminal hf hg false imp_strict (λ r. ground (arith, a r, b r))
  imp_strict_nodes-Fits (terminal true) (terminal false) a b =
      done_terminal hf hg false imp_strict (λ r. ground (arith, a r, b r))
  imp_strict_nodes-Fits (terminal false) (inner y) a b =
      done_right hf hg imp_strict (λ r. ground (arith, a r))
  imp_strict_nodes-Fits (terminal false) (terminal true) a b =
      done_right hf hg imp_strict (λ r. ground (arith, a r, b r))
  imp_strict_nodes-Fits (terminal false) (terminal false) a b =
      done_terminal hf hg false imp_strict (λ r. ground (arith, a r, b r))
