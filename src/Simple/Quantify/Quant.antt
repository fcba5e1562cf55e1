-- ===== src/Simple/Quantify/Quant.antt =====
-- `quant` of crates/oxidd-rules-bdd/src/simple/apply_rec.rs quantifies over a set of variables.
use oxidd.Prelude.{
  ℕ, suc, ◌<◌, ◌≡◌, ◌∙◌, sym, ap, refl, subst, Bool, true, false, some, inl, inr, List, [], ◌∷◌,
  arith, ◌==◌, Bool-cases,
}
use oxidd.Tree.{Assignment, BoolFn}
use oxidd.Outcome.{Run, Result, pure}
use oxidd.Manager.{Edge, get_terminal}
use oxidd.Manager.Valid.{Extends, Extends-refl}
use oxidd.Represents.{
  IsFun, IsFun-Extends, IsFun-le, IsFun-ext, get_terminal-IsFun, branch, AtTerminal, AtInner,
}
use oxidd.Cache.{ApplyCache}
use oxidd.Simple.{BddOp, and, or, xor, forall, exist, unique}
use oxidd.Simple.Apply.{St, rec_binary}
use oxidd.Simple.Meaning.{
  Operand, Substitutions, bin, is_bin, sem, sem_quant, out_level, quantify, positive, IsCube,
  IsCube-Keeps,
}
use oxidd.Simple.Negation.{both-Ensures}
use oxidd.Simple.Binary.{apply_bin-Ensures}
use oxidd.Simple.Ensures.{
  IsValidState, Ensures, Ensures-pure, Ensures-weaken, Ensures-bind, read_node-Ensures,
  reduce-Ensures, Fueled,
}
use oxidd.Simple.Quantify.{quant_operator, is_unique, quant_terminal, quant_cofactors}
use oxidd.Simple.Quantify.Semantics.{
  Below, IsFun-Below, quantify_ext, quantify_unused, quantify-branch_below, quantify-branch,
}
use oxidd.Simple.Quantify.Cubes.{CubeAt, IsCube-CubeAt, IsCube-Grow, quantify_constant}

-- How a quantifier treats two equal operands.
abbrev pub Treats : Bool → BddOp → Type 0
Treats false q = (b : Bool) → bin q b b ≡ b
Treats true q = (b : Bool) → bin q b b ≡ false

-- The operator of a cache key that stands for the quantifier.
pub record IsQuantifier (σ : Substitutions) (q op : BddOp) : Type 0 where
  pub found : quant_operator q ≡ some op
  pub meaning : (vs : List Operand) → sem σ op [] vs ≡ sem_quant q vs
  pub level : (lo : ℕ) → out_level op lo ≡ lo
  pub is_binary : is_bin q ≡ true
  pub treats : Treats (is_unique op) q

abbrev pub is_quantifier : BddOp → Bool
is_quantifier and = true
is_quantifier or = true
is_quantifier xor = true
is_quantifier _ = false

pub quantifier :
    (σ : Substitutions) (q : BddOp) → is_quantifier q ≡ true → (op : BddOp) × IsQuantifier σ q op
unfolding quant_operator
quantifier σ and h = (
  forall,
  record {
    found = refl;
    meaning = λ vs. refl;
    level = λ lo. refl;
    is_binary = refl;
    treats = λ b. ground arith;
  },
)
quantifier σ or h = (
  exist,
  record {
    found = refl;
    meaning = λ vs. refl;
    level = λ lo. refl;
    is_binary = refl;
    treats = λ b. ground arith;
  },
)
quantifier σ xor h = (
  unique,
  record {
    found = refl;
    meaning = λ vs. refl;
    level = λ lo. refl;
    is_binary = refl;
    treats = λ b. ground arith;
  },
)
quantifier σ _ h = cc

module _ (A : ApplyCache BddOp) (σ : Substitutions) (q : BddOp) where
  -- The edge of the quantified function.
  abbrev pub Quantifies : St A → Result Edge × St A → ℕ → List ℕ → BoolFn → Type 0
  Quantifies s r lo ls p = Ensures A σ s r (λ h t. IsFun t lo h (quantify (bin q) ls p))

  -- A variable that does not occur under unique quantification.
  pub unused_false :
      {s : St A} (l lo from : ℕ) (ls : List ℕ) (p : BoolFn)
      → ((b : Bool) → bin q b b ≡ false)
      → IsValidState A σ s
      → Below from p
      → l < from
      → Quantifies s (pure (get_terminal false) s) lo (l ∷ ls) p
  unused_false {s} l lo from ls p nil v b h = Ensures-pure A σ (get_terminal false) v (
      IsFun-ext (get_terminal-IsFun s.store lo false)
        (λ r. sym (quantify_unused (bin q) l from ls p b h r ∙ nil (quantify (bin q) ls p r))))

  pub quant_terminal-Ensures :
      {s : St A} {lo : ℕ} {f : Edge} {p : BoolFn} (op : BddOp) (vs : Edge) (ls : List ℕ)
      → IsQuantifier σ q op
      → IsValidState A σ s
      → IsFun s.store lo f p
      → (t : AtTerminal s.store f p) → IsCube s.store lo vs (positive ls)
      → Quantifies s (quant_terminal A op f vs s) lo ls p
  unfolding quant_terminal
  quant_terminal-Ensures {s} {lo} {f} {p} op vs ls x v hf t c = go (is_unique op) refl ls x.treats c
    where
      constant : (k : ℕ) → Below k p
      constant k r r' a = t.constant r ∙ sym (t.constant r')

      go :
          (b : Bool)
          → is_unique op ≡ b
          → (ls : List ℕ) → Treats b q
          → IsCube s.store lo vs (positive ls)
          → Quantifies s (quant_terminal A op f vs s) lo ls p
      go false e ls idem c =
          rw (e, quant_terminal)
            (Ensures-pure A σ f v (
              IsFun-ext hf (λ r.
                t.constant r ∙ sym (quantify_constant (bin q) ls p t.value idem t.constant r))))
      go true e [] nil c =
          rw (e, quant_terminal) (read_node-Ensures A σ vs _ c.rep (Ensures-pure A σ f v hf))
      go true e (l ∷ ls) nil c =
          let x = IsCube-CubeAt l ls c in
          rw (e, quant_terminal)
            (read_node-Ensures A σ vs _ x.at
              (unused_false l lo (suc l) ls p nil v (constant (suc l)) (omega arith)))

  module _ {s : St A} {lo : ℕ} {f : Edge} {p : BoolFn} (k : ℕ)
      (again : Edge → Edge → Run (St A) Edge) (vs : Edge) (l : ℕ) (ls : List ℕ)
      (v : IsValidState A σ s) (u : Fueled (suc k) lo s.store) (i : AtInner s.store lo f p)
      (c : IsCube s.store i.n.level vs (positive (l ∷ ls))) (isb : is_bin q ≡ true)
      (sub : (a b : Edge) (x : BoolFn) (ms : List ℕ) (t : St A)
        → Extends s.store t.store
        → IsValidState A σ t
        → IsFun t.store (suc i.n.level) a x
        → IsCube t.store (suc i.n.level) b (positive ms)
        → Ensures A σ t
            (again a b t)
            (λ h w. IsFun w (suc i.n.level) h (quantify (bin q) ms x))) where
    both_cofactors :
        (e : Edge) (ms : List ℕ)
        → IsCube s.store (suc i.n.level) e (positive ms)
        → Ensures A σ s (rec_binary again (i.n.child0, e) (i.n.child1, e) s) (λ te t.
          IsFun t (suc i.n.level) te.0 (quantify (bin q) ms i.yes_fn)
          × IsFun t (suc i.n.level) te.1 (quantify (bin q) ms i.no_fn))
    unfolding rec_binary
    both_cofactors e ms d =
        both-Ensures A σ (again i.n.child0 e) (again i.n.child1 e)
          (sub i.n.child0 e i.yes_fn ms s (Extends-refl s.store) v i.yes_at d)
          (λ t x vt.
            sub i.n.child1 e i.no_fn ms t x vt (IsFun-Extends i.no_at x) (IsCube-Keeps x.keeps d))

    pub quant_cofactors-Ensures :
        (x : CubeAt s.store i.n.level vs l ls)
        → Quantifies s (quant_cofactors A (suc k) again q i.n vs x.n s) i.n.level (l ∷ ls) p
    unfolding quant_cofactors
    quant_cofactors-Ensures x = elim (Bool-cases (i.n.level == x.n.level)) [
      | inl here ↦
          let same : i.n.level ≡ l = ground (arith, x.level) in
          let turned : (x.n.level == i.n.level) ≡ true = ground arith in
          let rest : IsCube s.store (suc i.n.level) x.n.child0 (positive ls) =
            subst (λ m. IsCube s.store (suc m) x.n.child0 (positive ls)) (sym same) x.rest in
          let branches : (r : Assignment)
              → quantify (bin q) (l ∷ ls) p r
                ≡ bin q (quantify (bin q) ls i.yes_fn r) (quantify (bin q) ls i.no_fn r) =
            λ r.
              quantify_ext (bin q) (l ∷ ls) p (branch i.n.level i.yes_fn i.no_fn) i.branches r
              ∙ ap (λ m. quantify (bin q) (m ∷ ls) (branch i.n.level i.yes_fn i.no_fn) r) (sym same)
              ∙ quantify-branch (bin q) i.n.level ls i.yes_fn i.no_fn (IsCube-Grow ls rest)
                  (IsFun-Below i.yes_at) (IsFun-Below i.no_at) r in
          rw (turned, here)
            (Ensures-bind A σ (rec_binary again _ _) _ (both_cofactors x.n.child0 ls rest)
              (λ te t ext vt ab.
                Ensures-weaken A σ _
                  (apply_bin-Ensures A σ (suc k) (suc i.n.level) q t te.0 te.1 _ _ isb vt
                    (record {
                      level = rw ext.levels i.below;
                      fuel = omega (arith, ext.levels, u.fuel, i.above);
                    })
                    ab.0 ab.1)
                  (λ h d. IsFun-ext (IsFun-le d (omega arith)) (λ r. sym (branches r)))))
      | inr apart ↦
          let turned : (x.n.level == i.n.level) ≡ false = ground arith in
          let whole : IsCube s.store (suc i.n.level) vs (positive (l ∷ ls)) = record {
            rep = c.rep;
            ordered = (ground (arith, x.level, x.above), c.ordered.1, c.ordered.2, c.ordered.3);
          } in
          let branches : (r : Assignment)
              → quantify (bin q) (l ∷ ls) p r
                ≡ branch i.n.level (quantify (bin q) (l ∷ ls) i.yes_fn)
                    (quantify (bin q) (l ∷ ls) i.no_fn) r =
            λ r.
              quantify_ext (bin q) (l ∷ ls) p (branch i.n.level i.yes_fn i.no_fn) i.branches r
              ∙ quantify-branch_below (bin q) i.n.level (l ∷ ls) i.yes_fn i.no_fn
                  (IsCube-Grow (l ∷ ls) whole) r in
          rw (turned, apart)
            (Ensures-bind A σ (rec_binary again _ _) _ (both_cofactors vs (l ∷ ls) whole)
              (λ te t ext vt ab.
                Ensures-weaken A σ _ (reduce-Ensures A σ vt (rw ext.levels i.below) ab.0 ab.1)
                  (λ h d. IsFun-ext d (λ r. sym (branches r)))))
    ]
