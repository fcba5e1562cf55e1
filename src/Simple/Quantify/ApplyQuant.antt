-- ===== src/Simple/Quantify/ApplyQuant.antt =====
-- `apply_quant` of crates/oxidd-rules-bdd/src/simple/apply_rec.rs quantifies the result of a
-- binary operator.
use oxidd.Prelude.{
  ℕ, suc, ◌≤◌, ◌<◌, ◌≡◌, ◌∙◌, sym, ap, subst, true, false, ◌&&◌, some, inl, inr, List, [], ◌∷◌,
  arith, ltb, Bool-cases, min,
}
use oxidd.Tree.{BoolFn}
use oxidd.Outcome.{Run}
use oxidd.Manager.{Edge, Store}
use oxidd.Manager.Valid.{Extends, IsValid}
use oxidd.Represents.{IsFun, IsFun-le, IsFun-zero, IsFun-ext, IsFun-agree, IsFun-above, AtInner}
use oxidd.Cache.{ApplyCache}
use oxidd.Simple.{BddOp, and, or, xor, binary}
use oxidd.Simple.Apply.{St, unwrap_inner}
use oxidd.Simple.Meaning.{
  fn, vars, literals, KnownAll, Substitutions, bin, is_bin, apply2, same_fn, quantify, positive,
  IsCube,
}
use oxidd.Simple.Binary.{apply_bin-Ensures}
use oxidd.Simple.Ensures.{
  IsValidState, Ensures-weaken, read_node-Ensures, cached-Ensures, Means, Fueled,
}
use oxidd.Simple.Quantify.{
  is_xor, pop_unless, apply_quant_inner, apply_quant_vars, apply_quant_operation,
}
use oxidd.Simple.Quantify.Semantics.{Below, IsFun-Below, quantify_ext}
use oxidd.Simple.Quantify.Cubes.{
  IsCube-Known, IsCube-le, CubeAt, IsCube-CubeAt, IsCube-functional, popped, set_pop-IsCube,
  quantify-popped,
}
use oxidd.Simple.Quantify.Quant.{is_quantifier}
use oxidd.Simple.Quantify.Quant.{Treats, unused_false}
use oxidd.Simple.Quantify.Combined.{IsCombined, Combines, apply_quant_cofactors-Ensures}

Treats-xor : (q : BddOp) → is_quantifier q ≡ true → Treats (is_xor q) q
Treats-xor and h = λ b. ground arith
Treats-xor or h = λ b. ground arith
Treats-xor xor h = λ b. ground arith
Treats-xor _ h = cc

module _ (A : ApplyCache BddOp) (σ : Substitutions) (q op : BddOp) where
  Means-combined :
      {s t : Store} {lo from : ℕ} {f g vs h : Edge} {x y : BoolFn} (operator : BddOp) (ls : List ℕ)
      → IsCombined σ q op operator
      → IsValid s
      → (i : AtInner s lo f x) (j : AtInner s lo g y) → IsCube s from vs (positive ls)
      → IsFun t (min i.n.level j.n.level) h (quantify (bin q) ls (apply2 (bin op) x y))
      → Means A σ s t operator (f ∷ g ∷ vs ∷ []) [] h
  Means-combined {s} {f = f} {vs = vs} {x = x} {y} operator ls w v i j c hh lo'
        (fn z ∷ fn z' ∷ vars ms ∷ []) p' d e =
      let same : ls ≡ ms = IsCube-functional s vs ls ms c d.1.1.0 in
      let agree =
        quantify_ext (bin q) ls (apply2 (bin op) x y) (apply2 (bin op) z z')
          (λ r. cc (IsFun-agree i.self d.0 r, IsFun-agree j.self d.1.0 r)) in
      let e' : some (quantify (bin q) ms (apply2 (bin op) z z')) ≡ some p' =
        sym (w.meaning (fn z ∷ fn z' ∷ vars ms ∷ [])) ∙ e in
      rw (w.level lo') (
        IsFun-ext (IsFun-le hh (omega (arith, IsFun-above v d.0 i.at, IsFun-above v d.1.0 j.at)))
          (λ r.
            agree r
            ∙ ap (λ (k : List ℕ). quantify (bin q) k (apply2 (bin op) z z') r) same
            ∙ same_fn e' r))
  Means-combined operator ls w v i j c hh lo' (fn z ∷ fn z' ∷ vars ms ∷ o ∷ os) p' d e =
      absurd d.1.1.1
  Means-combined operator ls w v i j c hh lo' (fn z ∷ fn z' ∷ fn z'' ∷ os) p' d e =
      cc (w.meaning (fn z ∷ fn z' ∷ fn z'' ∷ os), e)
  Means-combined operator ls w v i j c hh lo' (fn z ∷ fn z' ∷ literals z'' ∷ os) p' d e =
      cc (w.meaning (fn z ∷ fn z' ∷ literals z'' ∷ os), e)
  Means-combined operator ls w v i j c hh lo' (fn z ∷ fn z' ∷ []) p' d e = absurd d.1.1
  Means-combined operator ls w v i j c hh lo' (fn z ∷ vars z' ∷ os) p' d e =
      cc (w.meaning (fn z ∷ vars z' ∷ os), e)
  Means-combined operator ls w v i j c hh lo' (fn z ∷ literals z' ∷ os) p' d e =
      cc (w.meaning (fn z ∷ literals z' ∷ os), e)
  Means-combined operator ls w v i j c hh lo' (fn z ∷ []) p' d e = absurd d.1
  Means-combined operator ls w v i j c hh lo' (vars z ∷ os) p' d e = cc (w.meaning (vars z ∷ os), e)
  Means-combined operator ls w v i j c hh lo' (literals z ∷ os) p' d e =
      cc (w.meaning (literals z ∷ os), e)
  Means-combined operator ls w v i j c hh lo' [] p' d e = absurd d

  module _ {s : St A} {lo : ℕ} {f g : Edge} {x y : BoolFn} (k : ℕ)
      (again : Edge → Edge → Edge → Run (St A) Edge) (operator : BddOp)
      (w : IsCombined σ q op operator) (isq : is_quantifier q ≡ true) (isb : is_bin q ≡ true)
      (iso : is_bin op ≡ true) (v : IsValidState A σ s) (u : Fueled (suc k) lo s.store)
      (hf : IsFun s.store lo f x) (hg : IsFun s.store lo g y) (i : AtInner s.store lo f x)
      (j : AtInner s.store lo g y)
      (sub : (a b e : Edge) (z z' : BoolFn) (ms : List ℕ) (t : St A)
        → Extends s.store t.store
        → IsValidState A σ t
        → IsFun t.store (suc (min i.n.level j.n.level)) a z
        → IsFun t.store (suc (min i.n.level j.n.level)) b z'
        → IsCube t.store (suc (min i.n.level j.n.level)) e (positive ms)
        → Combines A σ q op t (again a b e t) (suc (min i.n.level j.n.level)) ms z z') where
    result-Below : Below (min i.n.level j.n.level) (apply2 (bin op) x y)
    result-Below r r' a =
        let deep_f : IsFun s.store (min i.n.level j.n.level) f x = IsFun-le i.self (omega arith) in
        let deep_g : IsFun s.store (min i.n.level j.n.level) g y = IsFun-le j.self (omega arith) in
        cc (IsFun-Below deep_f r r' a, IsFun-Below deep_g r r' a)

    apply_quant_inner-Ensures :
        (vs : Edge) (l : ℕ) (ls : List ℕ) (c : IsCube s.store lo vs (positive (l ∷ ls)))
        → (at : CubeAt s.store lo vs l ls) → (is_xor q ≡ false → min i.n.level j.n.level ≤ l)
        → Combines A σ q op s
            (apply_quant_inner A (suc k) again q op operator f g i.n j.n vs at.n s)
            lo
            (l ∷ ls)
            x
            y
    unfolding apply_quant_inner
    apply_quant_inner-Ensures vs l ls c at deep =
        let top = min i.n.level j.n.level in
        elim (Bool-cases (ltb at.n.level top && is_xor q)) [
          | inl unused ↦
              let facts : (is_xor q ≡ true) × (at.n.level < top) = ground arith in
              rw unused (
                unused_false A σ q l lo top ls (apply2 (bin op) x y)
                  (subst (λ b. Treats b q) facts.0 (Treats-xor q isq)) v result-Below
                  (omega (arith, facts.1, at.level)))
          | inr used ↦
              let deeper : top ≤ l = elim (Bool-cases (is_xor q)) [
                | inl un ↦ ground (arith, at.level)
                | inr idem ↦ deep idem
              ] in
              let beyond : ltb at.n.level top ≡ false = ground (arith, at.level) in
              let d : IsCube s.store top vs (positive (l ∷ ls)) = record {
                rep = c.rep;
                ordered = (deeper, c.ordered.1, c.ordered.2, c.ordered.3);
              } in
              let at' : CubeAt s.store top vs l ls = record {
                n = at.n;
                at = at.at;
                level = at.level;
                above = deeper;
                rest = at.rest;
              } in
              let known : KnownAll s.store (f ∷ g ∷ vs ∷ []) = (
                (x, IsFun-zero hf),
                ((y, IsFun-zero hg), (IsCube-Known (positive (l ∷ ls)) c, tt)),
              ) in
              let run =
                Ensures-weaken A σ _
                  (apply_quant_cofactors-Ensures A σ q op k again vs l ls v u i j d isb sub at')
                  (λ h e. Means-combined {h = h} operator (l ∷ ls) w v.store_valid i j c e) in
              rw (used, beyond)
                (Ensures-weaken A σ _
                  (cached-Ensures A σ operator (f ∷ g ∷ vs ∷ []) [] _ v known run)
                  (λ h m.
                    IsFun-le
                      (m lo (fn x ∷ fn y ∷ vars (l ∷ ls) ∷ [])
                        (quantify (bin q) (l ∷ ls) (apply2 (bin op) x y)) (hf, (hg, (c, tt)))
                        (w.meaning _))
                      (omega (arith, w.level lo))))
        ]

    apply_quant_vars-Ensures :
        (vs : Edge) (ls : List ℕ)
        → IsCube s.store lo vs (positive ls)
        → (is_xor q ≡ false → IsCube s.store (min i.n.level j.n.level) vs (positive ls))
        → Combines A σ q op s
            (apply_quant_vars A (suc k) again q op operator f g i.n j.n vs s)
            lo
            ls
            x
            y
    unfolding apply_quant_vars
    apply_quant_vars-Ensures vs [] c deep =
        read_node-Ensures A σ vs _ c.rep
          (apply_bin-Ensures A σ (suc k) lo op s f g x y iso v u hf hg)
    apply_quant_vars-Ensures vs (l ∷ ls) c deep =
        let at = IsCube-CubeAt l ls c in
        read_node-Ensures A σ vs _ at.at
          (apply_quant_inner-Ensures vs l ls c at (λ h. (deep h).ordered.0))

    -- Both operands are inner nodes.
    pub apply_quant_binary-Ensures :
        (o : BddOp) (vs : Edge) (ls : List ℕ)
        → IsCube s.store lo vs (positive ls)
        → Combines A σ q op s
            (apply_quant_operation A (suc k) again q op operator vs (binary o f g) s)
            lo
            ls
            x
            y
    unfolding apply_quant_operation unwrap_inner pop_unless
    apply_quant_binary-Ensures o vs ls c =
        let top = min i.n.level j.n.level in
        read_node-Ensures A σ f _ i.at (
          read_node-Ensures A σ g _ j.at (elim (Bool-cases (is_xor q)) [
            | inl un ↦ rw un (apply_quant_vars-Ensures vs ls c (λ h. cc (h, un)))
            | inr idem ↦
                let (e, run, d) = set_pop-IsCube s.store (suc k) lo vs ls top v.store_valid u c in
                rw (idem, pop_unless)
                  (rw run (
                    Ensures-weaken A σ _
                      (apply_quant_vars-Ensures e (popped top ls)
                        (IsCube-le (positive (popped top ls)) (omega (arith, i.above, j.above)) d)
                        (λ h. d))
                      (λ h z. IsFun-ext z (
                        quantify-popped (bin q) top ls (apply2 (bin op) x y)
                          (subst (λ a. Treats a q) idem (Treats-xor q isq)) result-Below))))
          ]))
