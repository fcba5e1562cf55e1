-- ===== src/Simple/Negation.antt =====
-- `apply_not` of crates/oxidd-rules-bdd/src/simple/apply_rec.rs computes the complement.
use oxidd.Prelude.{ℕ, zero, suc, ◌≡◌, sym, ap, refl, not, some, inl, inr, [], ◌∷◌, arith}
use oxidd.Tree.{BoolFn}
use oxidd.Outcome.{Run, pure, ◌>>=◌}
use oxidd.Manager.{Edge, InnerNode, Store, inner, get_node, get_terminal}
use oxidd.Manager.Valid.{Extends, Extends-refl, IsValid}
use oxidd.Represents.{
  IsFun, IsFun-Extends, IsFun-le, IsFun-zero, IsFun-ext, IsFun-agree, IsFun-above,
  get_terminal-IsFun, view,
}
use oxidd.Cache.{ApplyCache}
use oxidd.Simple.{BddOp, negation}
use oxidd.Simple.Apply.{St, rec_unary, apply_not}
use oxidd.Simple.Meaning.{fn, Substitutions, negated, same_fn}
use oxidd.Simple.Ensures.{
  IsValidState, Ensures, Ensures-pure, Ensures-weaken, Ensures-bind, read_node-Ensures,
  cached-Ensures, reduce-Ensures, Means, Fueled, Fueled-suc,
}

module _ (A : ApplyCache BddOp) (σ : Substitutions) where
  abbrev both : Run (St A) Edge → Run (St A) Edge → Run (St A) (Edge × Edge)
  both m n = do ra ← m; rb ← n; pure (ra, rb)

  -- Two calls in a row, as every recursor makes them.
  pub both-Ensures :
      {s : St A} {l : ℕ} {p q : BoolFn} (m n : Run (St A) Edge)
      → Ensures A σ s (m s) (λ h t. IsFun t l h p)
      → ((t : St A)
          → Extends s.store t.store
          → IsValidState A σ t
          → Ensures A σ t (n t) (λ h u. IsFun u l h q))
      → Ensures A σ s (both m n s) (λ ab u. IsFun u l ab.0 p × IsFun u l ab.1 q)
  both-Ensures m n hm hn = Ensures-bind A σ m _ hm (λ ra t x vt a.
      Ensures-bind A σ n _ (hn t x vt)
        (λ rb u y vu b. Ensures-pure A σ (ra, rb) vu (IsFun-Extends a y, b)))

  Means-negation :
      {s t : Store} {f h : Edge} {n : InnerNode}
      → IsValid s
      → get_node s f ≡ some (inner n)
      → ((lo : ℕ) (q : BoolFn) → IsFun s lo f q → IsFun t n.level h (negated q))
      → Means A σ s t negation (f ∷ []) [] h
  Means-negation v at k lo [] p d e = cc
  Means-negation v at k lo (fn q ∷ []) p d e =
      IsFun-ext (IsFun-le (k lo q d.0) (IsFun-above v d.0 at)) (same_fn e)
  Means-negation v at k lo _ p d e = cc

  -- In a valid state, with fuel for the levels below `lo`, `apply_not` returns the edge of the
  -- complement, or the store is full.
  pub apply_not-Ensures :
      (k lo : ℕ) (s : St A) (f : Edge) (p : BoolFn)
      → IsValidState A σ s
      → Fueled k lo s.store
      → IsFun s.store lo f p
      → Ensures A σ s (apply_not A k f s) (λ h t. IsFun t lo h (negated p))
  unfolding apply_not rec_unary
  apply_not-Ensures zero lo s f p v u a = absurd (omega (arith, u.level, u.fuel))
  apply_not-Ensures (suc k) lo s f p v u a = elim (view v.store_valid a) [
    | inl t ↦ read_node-Ensures A σ f _ t.at (
        Ensures-pure A σ (get_terminal (not t.value)) v (
          IsFun-ext (get_terminal-IsFun s.store lo (not t.value))
            (λ r. sym (ap not (t.constant r)))))
    | inr i ↦
        let l = i.n.level in
        let sub =
          λ (e : Edge) (q : BoolFn) (t : St A) (x : Extends s.store t.store)
              (vt : IsValidState A σ t) (b : IsFun s.store (suc l) e q).
            apply_not-Ensures k (suc l) t e q vt (Fueled-suc u i.above i.below x)
              (IsFun-Extends b x) in
        let run =
          Ensures-bind A σ (rec_unary (apply_not A k) i.n.child0 i.n.child1) _
            (both-Ensures (apply_not A k i.n.child0) (apply_not A k i.n.child1)
              (sub i.n.child0 i.yes_fn s (Extends-refl s.store) v i.yes_at)
              (λ t x vt. sub i.n.child1 i.no_fn t x vt i.no_at))
            (λ te t x vt ab.
              Ensures-weaken A σ _ (reduce-Ensures A σ vt (rw x.levels i.below) ab.0 ab.1) (λ h c.
                Means-negation v.store_valid i.at (λ lo' q b.
                  IsFun-ext c (λ r. ground (arith, i.branches r, IsFun-agree a b r))))) in
        read_node-Ensures A σ f _ i.at (
          Ensures-weaken A σ _
            (cached-Ensures A σ negation (f ∷ []) [] _ v ((p, IsFun-zero a), tt) run)
            (λ h m. m lo (fn p ∷ []) (negated p) (a, tt) refl))
  ]
