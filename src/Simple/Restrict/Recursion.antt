-- ===== src/Simple/Restrict/Recursion.antt =====
-- `restrict` of crates/oxidd-rules-bdd/src/simple/apply_rec.rs: the cache and the recursion.
use oxidd.Prelude.{ℕ, zero, suc, ◌≤◌, ◌<◌, ◌≡◌, ◌∙◌, sym, ap, refl, subst, inl, inr, [], ◌∷◌, arith}
use oxidd.Tree.{BoolFn}
use oxidd.Outcome.{Run, Result}
use oxidd.Manager.{Edge, InnerNode, Store, num_levels}
use oxidd.Manager.Valid.{Extends, Extends-refl, IsValid}
use oxidd.Represents.{
  IsFun, IsFun-Extends, IsFun-le, IsFun-zero, IsFun-ext, IsFun-agree, IsFun-above, AtInner, view,
}
use oxidd.Cache.{ApplyCache}
use oxidd.Simple.{BddOp, restrict}
use oxidd.Simple.Apply.{St, rec_binary}
use oxidd.Simple.Meaning.{
  fn, vars, literals, KnownAll, Substitutions, same_fn, Literals, assign, IsCube, IsCube-Keeps,
}
use oxidd.Simple.Negation.{both-Ensures}
use oxidd.Simple.Ensures.{
  IsValidState, Ensures, Ensures-pure, Ensures-weaken, Ensures-bind, read_node-Ensures,
  cached-Ensures, reduce-Ensures, Means, Fueled, Fueled-suc,
}
use oxidd.Simple.Quantify.Cubes.{IsCube-Known, IsCube-le}
use oxidd.Simple.Restrict.{
  RestrictInnerResult, finished, recurse, run_restrict_inner, restrict_cofactors, restrict_result,
  restrict_nodes, apply_restrict,
}
use oxidd.Simple.Restrict.Literal.{IsCube-LiteralAt, assign-branch_below, IsCube-literals}
use oxidd.Simple.Restrict.Inner.{restricted, Leaves, restrict_inner-Leaves}

module _ (A : ApplyCache BddOp) (σ : Substitutions) where
  -- The edge of the restricted function.
  abbrev pub Restricts : St A → Result Edge × St A → ℕ → Literals → BoolFn → Type 0
  Restricts s r lo ls p = Ensures A σ s r (λ h t. IsFun t lo h (restricted ls p))

  Means-restrict :
      {s t : Store} {lo from : ℕ} {f vs h : Edge} {p : BoolFn} (ls : Literals)
      → IsValid s
      → (i : AtInner s lo f p) → IsCube s from vs ls
      → IsFun t i.n.level h (restricted ls p)
      → Means A σ s t restrict (f ∷ vs ∷ []) [] h
  Means-restrict {s} {vs = vs} ls v i c hh lo' (fn y ∷ literals ms ∷ []) p' d e =
      let same : ls ≡ ms = IsCube-literals s vs ls ms c d.1.0 in
      IsFun-ext (IsFun-le hh (IsFun-above v d.0 i.at)) (λ r.
        IsFun-agree i.self d.0 (assign ls r)
        ∙ ap (λ (k : Literals). y (assign k r)) same
        ∙ same_fn e r)
  Means-restrict ls v i c hh lo' (fn y ∷ literals ms ∷ z ∷ vs) p' d e = cc
  Means-restrict ls v i c hh lo' (fn y ∷ fn z ∷ vs) p' d e = cc
  Means-restrict ls v i c hh lo' (fn y ∷ vars z ∷ vs) p' d e = cc
  Means-restrict ls v i c hh lo' (fn y ∷ []) p' d e = cc
  Means-restrict ls v i c hh lo' (vars y ∷ vs) p' d e = cc
  Means-restrict ls v i c hh lo' (literals y ∷ vs) p' d e = cc
  Means-restrict ls v i c hh lo' [] p' d e = cc

  module _ {s : St A} {lo : ℕ} (again : Edge → Edge → Run (St A) Edge) (v : IsValidState A σ s)
      (sub : (l : ℕ) (a e : Edge) (x : BoolFn) (ms : Literals) (t : St A)
        → lo ≤ l
        → l < num_levels s.store
        → Extends s.store t.store
        → IsValidState A σ t
        → IsFun t.store (suc l) a x
        → IsCube t.store (suc l) e ms
        → Restricts t (again a e t) (suc l) ms x) where
    restrict_cofactors-Ensures :
        {f : Edge} {p : BoolFn} (vs : Edge) (ls : Literals) (i : AtInner s.store lo f p)
        → IsCube s.store (suc i.n.level) vs ls
        → Restricts s (restrict_cofactors A again vs i.n s) i.n.level ls p
    unfolding restrict_cofactors rec_binary
    restrict_cofactors-Ensures {p = p} vs ls i c =
        Ensures-bind A σ (rec_binary again _ _) _
          (both-Ensures A σ (again i.n.child0 vs) (again i.n.child1 vs)
            (sub i.n.level i.n.child0 vs i.yes_fn ls s i.above i.below (Extends-refl s.store) v
              i.yes_at c)
            (λ t x vt.
              sub i.n.level i.n.child1 vs i.no_fn ls t i.above i.below x vt
                (IsFun-Extends i.no_at x) (IsCube-Keeps x.keeps c)))
          (λ te t x vt ab.
            Ensures-weaken A σ _ (reduce-Ensures A σ vt (rw x.levels i.below) ab.0 ab.1) (λ h d.
              IsFun-ext d (λ r.
                assign-branch_below i.n.level ls i.yes_fn i.no_fn r c.ordered
                ∙ sym (i.branches (assign ls r)))))

    restrict_result-Ensures :
        (q : BoolFn) (res : RestrictInnerResult)
        → Leaves s.store lo q res
        → Ensures A σ s (restrict_result A again res s) (λ h t. IsFun t lo h q)
    unfolding restrict_result
    restrict_result-Ensures q (finished e) leaves = Ensures-pure A σ e v leaves
    restrict_result-Ensures q (recurse vs f fnode) (p, ls, i, same, c, agree) =
        let c' : IsCube s.store (suc i.n.level) vs ls =
          subst (λ (n : InnerNode). IsCube s.store (suc n.level) vs ls) (sym same) c in
        let known : KnownAll s.store (f ∷ vs ∷ []) =
          ((p, IsFun-zero i.self), (IsCube-Known ls c, tt)) in
        let run =
          Ensures-weaken A σ _ (restrict_cofactors-Ensures vs ls i c')
            (λ h e. Means-restrict {h = h} ls v.store_valid i c e) in
        rw (← same) (
          Ensures-weaken A σ _ (cached-Ensures A σ restrict (f ∷ vs ∷ []) [] _ v known run) (λ h m.
            IsFun-ext
              (m lo (fn p ∷ literals ls ∷ []) (restricted ls p)
                (IsFun-le i.self i.above, (IsCube-le ls (omega (arith, i.above)) c', tt)) refl)
              agree))

  -- In a valid state, with fuel for the levels below `lo`, `restrict` by a conjunction of literals
  -- returns the edge of the function with the literals' values put in, or the store is full.
  pub apply_restrict-Ensures :
      (k lo : ℕ) (s : St A) (f vs : Edge) (p : BoolFn) (ls : Literals)
      → IsValidState A σ s
      → Fueled k lo s.store
      → IsFun s.store lo f p
      → IsCube s.store lo vs ls
      → Restricts s (apply_restrict A k f vs s) lo ls p
  unfolding apply_restrict restrict_nodes run_restrict_inner
  apply_restrict-Ensures zero lo s f vs p ls v u hf c = absurd (omega (arith, u.level, u.fuel))
  apply_restrict-Ensures (suc k) lo s f vs p [] v u hf c = elim (view v.store_valid hf) [
    | inl t ↦
        read_node-Ensures A σ f _ t.at (read_node-Ensures A σ vs _ c.rep (Ensures-pure A σ f v hf))
    | inr i ↦
        read_node-Ensures A σ f _ i.at (read_node-Ensures A σ vs _ c.rep (Ensures-pure A σ f v hf))
  ]
  apply_restrict-Ensures (suc k) lo s f vs p ((l, b) ∷ ls) v u hf c =
      let at = IsCube-LiteralAt l b ls c in
      elim (view v.store_valid hf) [
        | inl t ↦ read_node-Ensures A σ f _ t.at (
            read_node-Ensures A σ vs _ at.at (
              Ensures-pure A σ f v
                (IsFun-ext hf (λ r. t.constant r ∙ sym (t.constant (assign ((l, b) ∷ ls) r))))))
        | inr i ↦
            let (res, run, leaves) =
              restrict_inner-Leaves s.store (suc k) lo lo v.store_valid u f vs p l b ls i c at in
            read_node-Ensures A σ f _ i.at (
              read_node-Ensures A σ vs _ at.at (
                rw (run, restrict_nodes, run_restrict_inner)
                  (restrict_result-Ensures (apply_restrict A k) v
                    (λ l' a e x ms t above below ext vt ha he.
                      apply_restrict-Ensures k (suc l') t a e x ms vt (Fueled-suc u above below ext)
                        ha he)
                    (restricted ((l, b) ∷ ls) p) res leaves)))
      ]
