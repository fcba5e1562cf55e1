-- ===== src/Simple/Ite.antt =====
-- `apply_ite` of crates/oxidd-rules-bdd/src/simple/apply_rec.rs computes if-then-else.
use oxidd.Prelude.{
  ℕ, zero, suc, ◌≤◌, ◌<◌, ◌≢◌, ◌≡◌, ◌∙◌, sym, refl, subst, inl, inr, [], ◌∷◌, arith, true, false,
  ◌==◌, Bool-cases, min,
}
use oxidd.Tree.{BoolFn}
use oxidd.Outcome.{Run, Result}
use oxidd.Manager.{Edge, Store, Node, inner, terminal, num_levels}
use oxidd.Manager.Valid.{Extends, Extends-refl, IsValid}
use oxidd.Represents.{
  IsFun, IsFun-Extends, IsFun-le, IsFun-zero, IsFun-ext, IsFun-agree, IsFun-above, IsFun-injective,
  AtInner,
}
use oxidd.Cache.{ApplyCache}
use oxidd.Simple.{BddOp, and, or, imp, imp_strict, ite}
use oxidd.Simple.Apply.{St, rec_ternary, ite_inner, ite_nodes, ite_first, apply_ite}
use oxidd.Simple.Meaning.{fn, KnownAll, Substitutions, choose, same_fn}
use oxidd.Simple.Terminal.{AtNode, at_node}
use oxidd.Simple.Binary.{cofactors_at-Splits, apply_bin-Ensures}
use oxidd.Simple.Negation.{both-Ensures, apply_not-Ensures}
use oxidd.Simple.Ensures.{
  IsValidState, Ensures, Ensures-pure, Ensures-weaken, Ensures-bind, read_node-Ensures,
  cached-Ensures, reduce-Ensures, Means, Fueled, Fueled-suc,
}

same_edge : {a b : Edge} → (a == b) ≡ true → b ≡ a
same_edge h = ground arith

module _ (A : ApplyCache BddOp) (σ : Substitutions) where
  -- Whatever functions the three operands are, with roots at inner nodes, `h` chooses by the first.
  Means-ite :
      {s t : Store} {lo : ℕ} {f g h e : Edge} {p q u : BoolFn}
      → IsValid s
      → (i : AtInner s lo f p) (j : AtInner s lo g q) (k : AtInner s lo h u)
      → IsFun t (min (min i.n.level j.n.level) k.n.level) e (choose p q u)
      → Means A σ s t ite (f ∷ g ∷ h ∷ []) [] e
  Means-ite v i j k c lo' (fn x ∷ fn y ∷ fn z ∷ []) p' d e =
      IsFun-ext
        (IsFun-le c (
          omega
            (arith, IsFun-above v d.0 i.at, IsFun-above v d.1.0 j.at, IsFun-above v d.1.1.0 k.at)))
        (λ r. ground (
          arith,
          IsFun-agree i.self d.0 r,
          IsFun-agree j.self d.1.0 r,
          IsFun-agree k.self d.1.1.0 r,
          same_fn e r,
        ))
  Means-ite v i j k c lo' _ p' d e = cc

  module _ (k lo : ℕ) (s : St A) (f g h : Edge) (p q u : BoolFn) (v : IsValidState A σ s)
      (enough : Fueled (suc k) lo s.store) (hf : IsFun s.store lo f p) (hg : IsFun s.store lo g q)
      (hh : IsFun s.store lo h u) (again : Edge → Edge → Edge → Run (St A) Edge)
      (sub : (l : ℕ) (a b c : Edge) (x y z : BoolFn) (t : St A)
        → lo ≤ l
        → l < num_levels s.store
        → Extends s.store t.store
        → IsValidState A σ t
        → IsFun t.store (suc l) a x
        → IsFun t.store (suc l) b y
        → IsFun t.store (suc l) c z
        → Ensures A σ t (again a b c t) (λ e w. IsFun w (suc l) e (choose x y z)))
      (apart : g ≢ h) where
    abbrev Chooses : Result Edge × St A → Type 0
    Chooses r = Ensures A σ s r (λ e t. IsFun t lo e (choose p q u))

    ite_inner-Ensures :
        (i : AtInner s.store lo f p) (j : AtInner s.store lo g q) (m : AtInner s.store lo h u)
        → Ensures A σ s
            (ite_inner A again f g h i.n j.n m.n s)
            (λ e t. IsFun t (min (min i.n.level j.n.level) m.n.level) e (choose p q u))
    unfolding ite_inner rec_ternary
    ite_inner-Ensures i j m =
        let l = min (min i.n.level j.n.level) m.n.level in
        let fs = cofactors_at-Splits i l (omega arith) in
        let gs = cofactors_at-Splits j l (omega arith) in
        let hs = cofactors_at-Splits m l (omega arith) in
        let above : lo ≤ l = omega (arith, i.above, j.above, m.above) in
        let below : l < num_levels s.store = omega (arith, i.below) in
        Ensures-bind A σ (rec_ternary again _ _) _
          (both-Ensures A σ (again _ _ _) (again _ _ _)
            (sub l _ _ _ fs.yes_fn gs.yes_fn hs.yes_fn s above below (Extends-refl s.store) v
              fs.yes_at gs.yes_at hs.yes_at)
            (λ t x vt.
              sub l _ _ _ fs.no_fn gs.no_fn hs.no_fn t above below x vt (IsFun-Extends fs.no_at x)
                (IsFun-Extends gs.no_at x) (IsFun-Extends hs.no_at x)))
          (λ te t x vt ab.
            Ensures-weaken A σ _ (reduce-Ensures A σ vt (rw x.levels below) ab.0 ab.1) (λ e c.
              IsFun-ext c (λ r. ground (arith, fs.branches r, gs.branches r, hs.branches r))))

    ite_nodes-Ensures :
        (i : AtInner s.store lo f p) (m n : Node)
        → AtNode s.store lo g q m
        → AtNode s.store lo h u n
        → Chooses (ite_nodes A (suc k) again f g h i.n m n s)
    unfolding ite_nodes
    ite_nodes-Ensures i (inner x) (inner y) a b =
        let (j, xj) = a in
        let (m, ym) = b in
        let known : KnownAll s.store (f ∷ g ∷ h ∷ []) =
          ((p, IsFun-zero hf), ((q, IsFun-zero hg), ((u, IsFun-zero hh), tt))) in
        let run =
          Ensures-weaken A σ _ (ite_inner-Ensures i j m)
            (λ e c. Means-ite {e = e} v.store_valid i j m c) in
        rw (← xj, ← ym)
          (Ensures-weaken A σ _ (cached-Ensures A σ ite (f ∷ g ∷ h ∷ []) [] _ v known run)
            (λ e m. m lo (fn p ∷ fn q ∷ fn u ∷ []) (choose p q u) (hf, (hg, (hh, tt))) refl))
    ite_nodes-Ensures i (terminal true) (inner y) a b =
        Ensures-weaken A σ _ (apply_bin-Ensures A σ (suc k) lo or s f h p u refl v enough hf hh)
          (λ e c. IsFun-ext c (λ r. ground (arith, a r)))
    ite_nodes-Ensures i (terminal false) (inner y) a b =
        Ensures-weaken A σ _
          (apply_bin-Ensures A σ (suc k) lo imp_strict s f h p u refl v enough hf hh)
          (λ e c. IsFun-ext c (λ r. ground (arith, a r)))
    ite_nodes-Ensures i (inner x) (terminal true) a b =
        Ensures-weaken A σ _ (apply_bin-Ensures A σ (suc k) lo imp s f g p q refl v enough hf hg)
          (λ e c. IsFun-ext c (λ r. ground (arith, b r)))
    ite_nodes-Ensures i (inner x) (terminal false) a b =
        Ensures-weaken A σ _ (apply_bin-Ensures A σ (suc k) lo and s f g p q refl v enough hf hg)
          (λ e c. IsFun-ext c (λ r. ground (arith, b r)))
    ite_nodes-Ensures i (terminal false) (terminal true) a b =
        Ensures-weaken A σ _ (apply_not-Ensures A σ (suc k) lo s f p v enough hf)
          (λ e c. IsFun-ext c (λ r. ground (arith, a r, b r)))
    ite_nodes-Ensures i (terminal true) (terminal false) a b =
        Ensures-pure A σ f v (IsFun-ext hf (λ r. ground (arith, a r, b r)))
    ite_nodes-Ensures i (terminal false) (terminal false) a b =
        absurd (apart (IsFun-injective v.store_valid hg hh (λ r. a r ∙ sym (b r))))
    ite_nodes-Ensures i (terminal true) (terminal true) a b =
        absurd (apart (IsFun-injective v.store_valid hg hh (λ r. a r ∙ sym (b r))))

    ite_first-Ensures :
        (n : Node) → AtNode s.store lo f p n → Chooses (ite_first A (suc k) again f g h n s)
    unfolding ite_first
    ite_first-Ensures (terminal true) a =
        Ensures-pure A σ g v (IsFun-ext hg (λ r. ground (arith, a r)))
    ite_first-Ensures (terminal false) a =
        Ensures-pure A σ h v (IsFun-ext hh (λ r. ground (arith, a r)))
    ite_first-Ensures (inner n) (i, same) =
        let (m, at_g, gm) = at_node v.store_valid hg in
        let (n', at_h, hn) = at_node v.store_valid hh in
        read_node-Ensures A σ g _ at_g
          (read_node-Ensures A σ h _ at_h (rw (← same) (ite_nodes-Ensures i m n' gm hn)))

  -- In a valid state, with fuel for the levels below `lo`, `apply_ite` returns the edge of
  -- if-then-else, or the store is full.
  pub apply_ite-Ensures :
      (k lo : ℕ) (s : St A) (f g h : Edge) (p q u : BoolFn)
      → IsValidState A σ s
      → Fueled k lo s.store
      → IsFun s.store lo f p
      → IsFun s.store lo g q
      → IsFun s.store lo h u
      → Ensures A σ s (apply_ite A k f g h s) (λ e t. IsFun t lo e (choose p q u))
  unfolding apply_ite
  apply_ite-Ensures zero lo s f g h p q u v enough hf hg hh =
      absurd (omega (arith, enough.level, enough.fuel))
  apply_ite-Ensures (suc k) lo s f g h p q u v enough hf hg hh = elim (Bool-cases (g == h)) [
    | inl gh ↦
        let agree = IsFun-agree hg (subst (λ e. IsFun s.store lo e u) (same_edge gh) hh) in
        rw gh (Ensures-pure A σ g v (IsFun-ext hg (λ r. ground (arith, agree r))))
    | inr g_h ↦ elim (Bool-cases (f == g)) [
      | inl fg ↦
          let agree = IsFun-agree hf (subst (λ e. IsFun s.store lo e q) (same_edge fg) hg) in
          rw (g_h, fg)
            (Ensures-weaken A σ _
              (apply_bin-Ensures A σ (suc k) lo or s f h p u refl v enough hf hh)
              (λ e c. IsFun-ext c (λ r. ground (arith, agree r))))
      | inr f_g ↦ elim (Bool-cases (f == h)) [
        | inl fh ↦
            let agree = IsFun-agree hf (subst (λ e. IsFun s.store lo e u) (same_edge fh) hh) in
            rw (g_h, f_g, fh)
              (Ensures-weaken A σ _
                (apply_bin-Ensures A σ (suc k) lo and s f g p q refl v enough hf hg)
                (λ e c. IsFun-ext c (λ r. ground (arith, agree r))))
        | inr f_h ↦
            let (n, at, fn') = at_node v.store_valid hf in
            let apart : g ≢ h = ground arith in
            rw (g_h, f_g, f_h)
              (read_node-Ensures A σ f _ at (
                ite_first-Ensures k lo s f g h p q u v enough hf hg hh (apply_ite A k)
                  (λ l a b c x y z t above below ext vt ha hb hc.
                    apply_ite-Ensures k (suc l) t a b c x y z vt (Fueled-suc enough above below ext)
                      ha hb hc)
                  apart n fn'))
      ]
    ]
  ]
