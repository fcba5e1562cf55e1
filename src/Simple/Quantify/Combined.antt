-- ===== src/Simple/Quantify/Combined.antt =====
-- The cofactors of `apply_quant` of crates/oxidd-rules-bdd/src/simple/apply_rec.rs.
use oxidd.Prelude.{
  ℕ, suc, ◌≡◌, ◌∙◌, sym, ap, refl, subst, Bool, true, false, some, inl, inr, List, [], ◌∷◌, arith,
  ◌==◌, leb, Bool-cases, min,
}
use oxidd.Tree.{Assignment, BoolFn}
use oxidd.Outcome.{Run, Result}
use oxidd.Manager.{Edge, InnerNode}
use oxidd.Manager.Valid.{Extends, Extends-refl}
use oxidd.Represents.{IsFun, IsFun-Extends, IsFun-le, IsFun-ext, branch, AtInner}
use oxidd.Cache.{ApplyCache}
use oxidd.Simple.{
  BddOp, and, or, nand, nor, xor, equiv, imp, imp_strict, forall_and, forall_or, forall_nand,
  forall_nor, forall_xor, forall_equiv, forall_imp, forall_imp_strict, exist_and, exist_or,
  exist_nand, exist_nor, exist_xor, exist_equiv, exist_imp, exist_imp_strict, unique_and, unique_or,
  unique_nand, unique_nor, unique_xor, unique_equiv, unique_imp, unique_imp_strict,
  from_apply_quant,
}
use oxidd.Simple.Apply.{St, rec_ternary, cofactors_at}
use oxidd.Simple.Meaning.{
  Operand, Substitutions, bin, is_bin, apply2, sem, sem_apply_quant, out_level, quantify, positive,
  IsCube, IsCube-Keeps,
}
use oxidd.Simple.Negation.{both-Ensures}
use oxidd.Simple.Binary.{Splits, cofactors_at-Splits, apply_bin-Ensures}
use oxidd.Simple.Ensures.{
  IsValidState, Ensures, Ensures-weaken, Ensures-bind, reduce-Ensures, Fueled,
}
use oxidd.Simple.Quantify.{cofactors_if, apply_quant_cofactors}
use oxidd.Simple.Quantify.Semantics.{
  Below, IsFun-Below, quantify_ext, quantify-branch_below, quantify-branch,
}
use oxidd.Simple.Quantify.Cubes.{CubeAt, IsCube-Grow}
use oxidd.Simple.Quantify.Quant.{is_quantifier}

-- The operator of a cache key that stands for a quantifier on top of a binary operator.
pub record IsCombined (σ : Substitutions) (q op operator : BddOp) : Type 0 where
  pub found : from_apply_quant q op ≡ some operator
  pub meaning : (vs : List Operand) → sem σ operator [] vs ≡ sem_apply_quant q op vs
  pub level : (lo : ℕ) → out_level operator lo ≡ lo

IsCombined-and :
    (σ : Substitutions) (op : BddOp) → is_bin op ≡ true → (o : BddOp) × IsCombined σ and op o
unfolding from_apply_quant
IsCombined-and σ and h =
    (forall_and, record { found = refl; meaning = λ vs. refl; level = λ lo. refl })
IsCombined-and σ or h =
    (forall_or, record { found = refl; meaning = λ vs. refl; level = λ lo. refl })
IsCombined-and σ nand h =
    (forall_nand, record { found = refl; meaning = λ vs. refl; level = λ lo. refl })
IsCombined-and σ nor h =
    (forall_nor, record { found = refl; meaning = λ vs. refl; level = λ lo. refl })
IsCombined-and σ xor h =
    (forall_xor, record { found = refl; meaning = λ vs. refl; level = λ lo. refl })
IsCombined-and σ equiv h =
    (forall_equiv, record { found = refl; meaning = λ vs. refl; level = λ lo. refl })
IsCombined-and σ imp h =
    (forall_imp, record { found = refl; meaning = λ vs. refl; level = λ lo. refl })
IsCombined-and σ imp_strict h =
    (forall_imp_strict, record { found = refl; meaning = λ vs. refl; level = λ lo. refl })
IsCombined-and σ _ h = cc

IsCombined-or :
    (σ : Substitutions) (op : BddOp) → is_bin op ≡ true → (o : BddOp) × IsCombined σ or op o
unfolding from_apply_quant
IsCombined-or σ and h =
    (exist_and, record { found = refl; meaning = λ vs. refl; level = λ lo. refl })
IsCombined-or σ or h = (exist_or, record { found = refl; meaning = λ vs. refl; level = λ lo. refl })
IsCombined-or σ nand h =
    (exist_nand, record { found = refl; meaning = λ vs. refl; level = λ lo. refl })
IsCombined-or σ nor h =
    (exist_nor, record { found = refl; meaning = λ vs. refl; level = λ lo. refl })
IsCombined-or σ xor h =
    (exist_xor, record { found = refl; meaning = λ vs. refl; level = λ lo. refl })
IsCombined-or σ equiv h =
    (exist_equiv, record { found = refl; meaning = λ vs. refl; level = λ lo. refl })
IsCombined-or σ imp h =
    (exist_imp, record { found = refl; meaning = λ vs. refl; level = λ lo. refl })
IsCombined-or σ imp_strict h =
    (exist_imp_strict, record { found = refl; meaning = λ vs. refl; level = λ lo. refl })
IsCombined-or σ _ h = cc

IsCombined-xor :
    (σ : Substitutions) (op : BddOp) → is_bin op ≡ true → (o : BddOp) × IsCombined σ xor op o
unfolding from_apply_quant
IsCombined-xor σ and h =
    (unique_and, record { found = refl; meaning = λ vs. refl; level = λ lo. refl })
IsCombined-xor σ or h =
    (unique_or, record { found = refl; meaning = λ vs. refl; level = λ lo. refl })
IsCombined-xor σ nand h =
    (unique_nand, record { found = refl; meaning = λ vs. refl; level = λ lo. refl })
IsCombined-xor σ nor h =
    (unique_nor, record { found = refl; meaning = λ vs. refl; level = λ lo. refl })
IsCombined-xor σ xor h =
    (unique_xor, record { found = refl; meaning = λ vs. refl; level = λ lo. refl })
IsCombined-xor σ equiv h =
    (unique_equiv, record { found = refl; meaning = λ vs. refl; level = λ lo. refl })
IsCombined-xor σ imp h =
    (unique_imp, record { found = refl; meaning = λ vs. refl; level = λ lo. refl })
IsCombined-xor σ imp_strict h =
    (unique_imp_strict, record { found = refl; meaning = λ vs. refl; level = λ lo. refl })
IsCombined-xor σ _ h = cc

pub combined :
    (σ : Substitutions) (q op : BddOp)
    → is_quantifier q ≡ true
    → is_bin op ≡ true
    → (o : BddOp) × IsCombined σ q op o
combined σ and op h b = IsCombined-and σ op b
combined σ or op h b = IsCombined-or σ op b
combined σ xor op h b = IsCombined-xor σ op b
combined σ _ op h b = cc

cofactors_if-cofactors_at :
    (t : Bool) (m : ℕ) (e : Edge) (n : InnerNode)
    → (n.level == m) ≡ t
    → cofactors_if t e n ≡ cofactors_at m e n
unfolding cofactors_if cofactors_at
cofactors_if-cofactors_at true m e n h = rw h refl
cofactors_if-cofactors_at false m e n h = rw h refl

module _ (A : ApplyCache BddOp) (σ : Substitutions) (q op : BddOp) where
  -- The edge of the quantified result of the binary operator.
  abbrev pub Combines : St A → Result Edge × St A → ℕ → List ℕ → BoolFn → BoolFn → Type 0
  Combines s r lo ls x y =
      Ensures A σ s r (λ h t. IsFun t lo h (quantify (bin q) ls (apply2 (bin op) x y)))

  module _ {s : St A} {lo : ℕ} {f g : Edge} {x y : BoolFn} (k : ℕ)
      (again : Edge → Edge → Edge → Run (St A) Edge) (vs : Edge) (l : ℕ) (ls : List ℕ)
      (v : IsValidState A σ s) (u : Fueled (suc k) lo s.store) (i : AtInner s.store lo f x)
      (j : AtInner s.store lo g y) where
    abbrev top : ℕ
    top = min i.n.level j.n.level

    f-Splits : Splits s.store top (cofactors_if (leb i.n.level j.n.level) f i.n) x
    f-Splits =
        subst (λ e. Splits s.store top e x)
          (sym (cofactors_if-cofactors_at (leb i.n.level j.n.level) top f i.n (ground arith)))
          (cofactors_at-Splits i top (omega arith))

    g-Splits : Splits s.store top (cofactors_if (leb j.n.level i.n.level) g j.n) y
    g-Splits =
        subst (λ e. Splits s.store top e y)
          (sym (cofactors_if-cofactors_at (leb j.n.level i.n.level) top g j.n (ground arith)))
          (cofactors_at-Splits j top (omega arith))

    abbrev upper : BoolFn
    upper = apply2 (bin op) f-Splits.yes_fn g-Splits.yes_fn

    abbrev lower : BoolFn
    lower = apply2 (bin op) f-Splits.no_fn g-Splits.no_fn

    branches : (r : Assignment) → apply2 (bin op) x y r ≡ branch top upper lower r
    branches r = ground (arith, f-Splits.branches r, g-Splits.branches r)

    upper-Below : Below (suc top) upper
    upper-Below r r' a = cc (IsFun-Below f-Splits.yes_at r r' a, IsFun-Below g-Splits.yes_at r r' a)

    lower-Below : Below (suc top) lower
    lower-Below r r' a = cc (IsFun-Below f-Splits.no_at r r' a, IsFun-Below g-Splits.no_at r r' a)

    module _ (c : IsCube s.store top vs (positive (l ∷ ls))) (isb : is_bin q ≡ true)
        (sub : (a b e : Edge) (z w : BoolFn) (ms : List ℕ) (t : St A)
          → Extends s.store t.store
          → IsValidState A σ t
          → IsFun t.store (suc top) a z
          → IsFun t.store (suc top) b w
          → IsCube t.store (suc top) e (positive ms)
          → Combines t (again a b e t) (suc top) ms z w) where
      both_cofactors :
          (e : Edge) (ms : List ℕ)
          → IsCube s.store (suc top) e (positive ms)
          → Ensures A σ s
              (rec_ternary again
                (
                  (cofactors_if (leb i.n.level j.n.level) f i.n).0,
                  (cofactors_if (leb j.n.level i.n.level) g j.n).0,
                  e,
                )
                (
                  (cofactors_if (leb i.n.level j.n.level) f i.n).1,
                  (cofactors_if (leb j.n.level i.n.level) g j.n).1,
                  e,
                )
                s)
              (λ te t.
                IsFun t (suc top) te.0 (quantify (bin q) ms upper)
                × IsFun t (suc top) te.1 (quantify (bin q) ms lower))
      unfolding rec_ternary
      both_cofactors e ms d =
          both-Ensures A σ (again _ _ e) (again _ _ e)
            (sub _ _ e f-Splits.yes_fn g-Splits.yes_fn ms s (Extends-refl s.store) v f-Splits.yes_at
              g-Splits.yes_at d)
            (λ t x vt.
              sub _ _ e f-Splits.no_fn g-Splits.no_fn ms t x vt (IsFun-Extends f-Splits.no_at x)
                (IsFun-Extends g-Splits.no_at x) (IsCube-Keeps x.keeps d))

      pub apply_quant_cofactors-Ensures :
          (at : CubeAt s.store top vs l ls)
          → Combines s
              (apply_quant_cofactors A (suc k) again q f g i.n j.n vs at.n s)
              top
              (l ∷ ls)
              x
              y
      unfolding apply_quant_cofactors
      apply_quant_cofactors-Ensures at = elim (Bool-cases (top == at.n.level)) [
        | inl here ↦
            let same : top ≡ l = ground (arith, at.level) in
            let turned : (at.n.level == top) ≡ true = ground arith in
            let rest : IsCube s.store (suc top) at.n.child0 (positive ls) =
              subst (λ m. IsCube s.store (suc m) at.n.child0 (positive ls)) (sym same) at.rest in
            let splits : (r : Assignment)
                → quantify (bin q) (l ∷ ls) (apply2 (bin op) x y) r
                  ≡ bin q (quantify (bin q) ls upper r) (quantify (bin q) ls lower r) =
              λ r.
                quantify_ext (bin q) (l ∷ ls) (apply2 (bin op) x y) (branch top upper lower)
                  branches r
                ∙ ap (λ m. quantify (bin q) (m ∷ ls) (branch top upper lower) r) (sym same)
                ∙ quantify-branch (bin q) top ls upper lower (IsCube-Grow ls rest) upper-Below
                    lower-Below r in
            rw (turned, here)
              (Ensures-bind A σ (rec_ternary again _ _) _ (both_cofactors at.n.child0 ls rest)
                (λ te t ext vt ab.
                  Ensures-weaken A σ _
                    (apply_bin-Ensures A σ (suc k) (suc top) q t te.0 te.1 _ _ isb vt
                      (record {
                        level = rw ext.levels (omega (arith, i.below));
                        fuel = omega (arith, ext.levels, u.fuel, i.above, j.above);
                      })
                      ab.0 ab.1)
                    (λ h d. IsFun-ext (IsFun-le d (omega arith)) (λ r. sym (splits r)))))
        | inr apart ↦
            let turned : (at.n.level == top) ≡ false = ground arith in
            let whole : IsCube s.store (suc top) vs (positive (l ∷ ls)) = record {
              rep = c.rep;
              ordered = (ground (arith, at.level, at.above), c.ordered.1, c.ordered.2, c.ordered.3);
            } in
            let splits : (r : Assignment)
                → quantify (bin q) (l ∷ ls) (apply2 (bin op) x y) r
                  ≡ branch top (quantify (bin q) (l ∷ ls) upper) (quantify (bin q) (l ∷ ls) lower)
                      r =
              λ r.
                quantify_ext (bin q) (l ∷ ls) (apply2 (bin op) x y) (branch top upper lower)
                  branches r
                ∙ quantify-branch_below (bin q) top (l ∷ ls) upper lower
                    (IsCube-Grow (l ∷ ls) whole) r in
            rw (turned, apart)
              (Ensures-bind A σ (rec_ternary again _ _) _ (both_cofactors vs (l ∷ ls) whole)
                (λ te t ext vt ab.
                  Ensures-weaken A σ _
                    (reduce-Ensures A σ vt (rw ext.levels (omega (arith, i.below))) ab.0 ab.1)
                    (λ h d. IsFun-ext d (λ r. sym (splits r)))))
      ]
