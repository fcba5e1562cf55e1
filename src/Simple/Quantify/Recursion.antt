-- ===== src/Simple/Quantify/Recursion.antt =====
-- `quant` of crates/oxidd-rules-bdd/src/simple/apply_rec.rs: the cache, the popping and the recursion.
use oxidd.Prelude.{
  ℕ, zero, suc, ◌≤◌, ◌<◌, ◌≡◌, ◌∙◌, sym, ap, subst, true, false, ◌&&◌, some, inl, inr, List, [],
  ◌∷◌, arith, ltb, Bool-cases,
}
use oxidd.Tree.{BoolFn}
use oxidd.Outcome.{Run}
use oxidd.Manager.{Edge, Store}
use oxidd.Manager.Valid.{Extends, IsValid}
use oxidd.Represents.{
  IsFun, IsFun-le, IsFun-zero, IsFun-ext, IsFun-agree, IsFun-above, AtInner, view,
}
use oxidd.Cache.{ApplyCache}
use oxidd.Simple.{BddOp}
use oxidd.Simple.Apply.{St}
use oxidd.Simple.Meaning.{
  fn, vars, literals, KnownAll, Substitutions, bin, same_fn, quantify, positive, IsCube,
}
use oxidd.Simple.Ensures.{
  IsValidState, Ensures, Ensures-pure, Ensures-weaken, read_node-Ensures, cached-Ensures, Means,
  Fueled, Fueled-suc,
}
use oxidd.Simple.Quantify.{is_unique, pop_unless, quant_inner, quant_vars, quant}
use oxidd.Simple.Quantify.Semantics.{IsFun-Below, quantify_ext}
use oxidd.Simple.Quantify.Cubes.{
  IsCube-Known, IsCube-le, CubeAt, IsCube-CubeAt, IsCube-functional, popped, set_pop-IsCube,
  quantify-popped,
}
use oxidd.Simple.Quantify.Quant.{
  Treats, IsQuantifier, is_quantifier, quantifier, Quantifies, unused_false, quant_terminal-Ensures,
  quant_cofactors-Ensures,
}

module _ (A : ApplyCache BddOp) (σ : Substitutions) (q : BddOp) where
  Means-quant :
      {s t : Store} {lo from : ℕ} {f vs h : Edge} {p : BoolFn} (op : BddOp) (ls : List ℕ)
      → IsQuantifier σ q op
      → IsValid s
      → (i : AtInner s lo f p) → IsCube s from vs (positive ls)
      → IsFun t i.n.level h (quantify (bin q) ls p)
      → Means A σ s t op (f ∷ vs ∷ []) [] h
  Means-quant {s} {f = f} {vs = vs} {p = p} op ls x v i c hh lo' (fn y ∷ vars ms ∷ []) p' d e =
      let same : ls ≡ ms = IsCube-functional s vs ls ms c d.1.0 in
      let agree = quantify_ext (bin q) ls p y (IsFun-agree i.self d.0) in
      let e' : some (quantify (bin q) ms y) ≡ some p' = sym (x.meaning (fn y ∷ vars ms ∷ [])) ∙ e in
      rw (x.level lo') (
        IsFun-ext (IsFun-le hh (IsFun-above v d.0 i.at))
          (λ r. agree r ∙ ap (λ (k : List ℕ). quantify (bin q) k y r) same ∙ same_fn e' r))
  Means-quant op ls x v i c hh lo' (fn y ∷ fn z ∷ vs) p' d e = cc (x.meaning (fn y ∷ fn z ∷ vs), e)
  Means-quant op ls x v i c hh lo' (fn y ∷ literals z ∷ vs) p' d e =
      cc (x.meaning (fn y ∷ literals z ∷ vs), e)
  Means-quant op ls x v i c hh lo' (fn y ∷ vars ms ∷ z ∷ vs) p' d e = absurd d.1.1
  Means-quant op ls x v i c hh lo' (fn y ∷ []) p' d e = absurd d.1
  Means-quant op ls x v i c hh lo' [] p' d e = absurd d
  Means-quant op ls x v i c hh lo' (vars y ∷ vs) p' d e = cc (x.meaning (vars y ∷ vs), e)
  Means-quant op ls x v i c hh lo' (literals y ∷ vs) p' d e = cc (x.meaning (literals y ∷ vs), e)

  module _ {s : St A} {lo : ℕ} {f : Edge} {p : BoolFn} (k : ℕ)
      (again : Edge → Edge → Run (St A) Edge) (op : BddOp) (x : IsQuantifier σ q op)
      (v : IsValidState A σ s) (u : Fueled (suc k) lo s.store) (hf : IsFun s.store lo f p)
      (i : AtInner s.store lo f p)
      (sub : (a b : Edge) (y : BoolFn) (ms : List ℕ) (t : St A)
        → Extends s.store t.store
        → IsValidState A σ t
        → IsFun t.store (suc i.n.level) a y
        → IsCube t.store (suc i.n.level) b (positive ms)
        → Ensures A σ t
            (again a b t)
            (λ h w. IsFun w (suc i.n.level) h (quantify (bin q) ms y))) where
    quant_inner-Ensures :
        (vs : Edge) (l : ℕ) (ls : List ℕ) (c : IsCube s.store lo vs (positive (l ∷ ls)))
        → (at : CubeAt s.store lo vs l ls) → (is_unique op ≡ false → i.n.level ≤ l)
        → Quantifies A σ q s (quant_inner A (suc k) again q op f i.n vs at.n s) lo (l ∷ ls) p
    unfolding quant_inner
    quant_inner-Ensures vs l ls c at deep =
        elim (Bool-cases (is_unique op && ltb at.n.level i.n.level)) [
          | inl unused ↦
              let facts : (is_unique op ≡ true) × (at.n.level < i.n.level) = ground arith in
              rw unused (
                unused_false A σ q l lo i.n.level ls p (subst (λ b. Treats b q) facts.0 x.treats) v
                  (IsFun-Below i.self) (omega (arith, facts.1, at.level)))
          | inr used ↦
              let deeper : i.n.level ≤ l = elim (Bool-cases (is_unique op)) [
                | inl un ↦ ground (arith, at.level)
                | inr idem ↦ deep idem
              ] in
              let d : IsCube s.store i.n.level vs (positive (l ∷ ls)) = record {
                rep = c.rep;
                ordered = (deeper, c.ordered.1, c.ordered.2, c.ordered.3);
              } in
              let at' : CubeAt s.store i.n.level vs l ls = record {
                n = at.n;
                at = at.at;
                level = at.level;
                above = deeper;
                rest = at.rest;
              } in
              let known : KnownAll s.store (f ∷ vs ∷ []) =
                ((p, IsFun-zero hf), (IsCube-Known (positive (l ∷ ls)) c, tt)) in
              let run =
                Ensures-weaken A σ _
                  (quant_cofactors-Ensures A σ q k again vs l ls v u i d x.is_binary sub at')
                  (λ h e. Means-quant {h = h} op (l ∷ ls) x v.store_valid i c e) in
              rw used (
                Ensures-weaken A σ _ (cached-Ensures A σ op (f ∷ vs ∷ []) [] _ v known run) (λ h m.
                  IsFun-le
                    (m lo (fn p ∷ vars (l ∷ ls) ∷ []) (quantify (bin q) (l ∷ ls) p) (hf, (c, tt))
                      (x.meaning _))
                    (omega (arith, x.level lo))))
        ]

    pub quant_vars-Ensures :
        (vs : Edge) (ls : List ℕ)
        → IsCube s.store lo vs (positive ls)
        → (is_unique op ≡ false → IsCube s.store i.n.level vs (positive ls))
        → Quantifies A σ q s (quant_vars A (suc k) again q op f i.n vs s) lo ls p
    unfolding quant_vars
    quant_vars-Ensures vs [] c deep = read_node-Ensures A σ vs _ c.rep (Ensures-pure A σ f v hf)
    quant_vars-Ensures vs (l ∷ ls) c deep =
        let at = IsCube-CubeAt l ls c in
        read_node-Ensures A σ vs _ at.at
          (quant_inner-Ensures vs l ls c at (λ h. (deep h).ordered.0))

  -- In a valid state, with fuel for the levels below `lo`, `quant` of a quantifier over a set of
  -- variables returns the edge of the quantified function, or the store is full.
  pub quant-Ensures :
      (k lo : ℕ) (s : St A) (f vs : Edge) (p : BoolFn) (ls : List ℕ)
      → is_quantifier q ≡ true
      → IsValidState A σ s
      → Fueled k lo s.store
      → IsFun s.store lo f p
      → IsCube s.store lo vs (positive ls)
      → Quantifies A σ q s (quant A k q f vs s) lo ls p
  unfolding quant pop_unless
  quant-Ensures zero lo s f vs p ls b v u hf c = absurd (omega (arith, u.level, u.fuel))
  quant-Ensures (suc k) lo s f vs p ls b v u hf c =
      let (op, x) = quantifier σ q b in
      rw (x.found, quant)
        (elim (view v.store_valid hf) [
          | inl t ↦
              read_node-Ensures A σ f _ t.at (quant_terminal-Ensures A σ q op vs ls x v hf t c)
          | inr i ↦
              let sub =
                λ (a e : Edge) (y : BoolFn) (ms : List ℕ) (t : St A) (ext : Extends s.store t.store)
                    (vt : IsValidState A σ t) (ha : IsFun t.store (suc i.n.level) a y)
                    (he : IsCube t.store (suc i.n.level) e (positive ms)).
                  quant-Ensures k (suc i.n.level) t a e y ms b vt (Fueled-suc u i.above i.below ext)
                    ha he in
              read_node-Ensures A σ f _ i.at (elim (Bool-cases (is_unique op)) [
                | inl un ↦
                    rw un (
                      quant_vars-Ensures k (quant A k q) op x v u hf i sub vs ls c
                        (λ h. cc (h, un)))
                | inr idem ↦
                    let (e, run, d) =
                      set_pop-IsCube s.store (suc k) lo vs ls i.n.level v.store_valid u c in
                    rw (idem, pop_unless)
                      (rw run (
                        Ensures-weaken A σ _
                          (quant_vars-Ensures k (quant A k q) op x v u hf i sub e
                            (popped i.n.level ls)
                            (IsCube-le (positive (popped i.n.level ls)) i.above d) (λ h. d))
                          (λ h w. IsFun-ext w (
                            quantify-popped (bin q) i.n.level ls p
                              (subst (λ a. Treats a q) idem x.treats) (IsFun-Below i.self)))))
              ])
        ])
