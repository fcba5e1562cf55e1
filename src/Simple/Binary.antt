-- ===== src/Simple/Binary.antt =====
-- `apply_bin` of crates/oxidd-rules-bdd/src/simple/apply_rec.rs computes the binary operators.
use oxidd.Prelude.{
  ℕ, zero, suc, ◌≤◌, ◌<◌, ◌≡◌, ◌∙◌, sym, subst, some, inl, inr, List, [], ◌∷◌, arith, true, ◌==◌,
  Bool-cases, min,
}
use oxidd.Tree.{Assignment, BoolFn}
use oxidd.Outcome.{Run, ◌>>=◌}
use oxidd.Manager.{Edge, Store, num_levels}
use oxidd.Manager.Valid.{Extends, Extends-refl, IsValid}
use oxidd.Represents.{
  IsFun, IsFun-Extends, IsFun-le, IsFun-zero, IsFun-ext, IsFun-agree, IsFun-above, branch, AtInner,
}
use oxidd.Cache.{ApplyCache}
use oxidd.Simple.{BddOp, Operation, binary, negate, done, terminal_bin}
use oxidd.Simple.Apply.{
  St, rec_binary, apply_bin, cofactors_at, read_terminal_bin, unwrap_inner, bin_inner,
  bin_operation,
}
use oxidd.Simple.Meaning.{
  Operand, fn, Denotes, DenotesAll, Known, KnownAll, Substitutions, bin, is_bin, apply2, sem,
  sem_bin, sem-is_bin, out_level, out_level-is_bin, same_fn,
}
use oxidd.Simple.Terminal.{Fits, IsPair, terminal_bin-Fits}
use oxidd.Simple.Negation.{both-Ensures, apply_not-Ensures}
use oxidd.Simple.Ensures.{
  IsValidState, Ensures, Ensures-pure, Ensures-weaken, Ensures-bind, read_node-Ensures,
  cached-Ensures, reduce-Ensures, Means, Fueled, Fueled-suc,
}

-- The two edges that stand for a function on either side of a level.
pub record Splits (s : Store) (l : ℕ) (es : Edge × Edge) (p : BoolFn) : Type 0 where
  pub yes_fn : BoolFn
  pub no_fn : BoolFn
  pub yes_at : IsFun s (suc l) es.0 yes_fn
  pub no_at : IsFun s (suc l) es.1 no_fn
  pub branches : (r : Assignment) → p r ≡ branch l yes_fn no_fn r

-- The cofactors at a level that is not below the node.
pub cofactors_at-Splits :
    {s : Store} {lo : ℕ} {f : Edge} {p : BoolFn} (i : AtInner s lo f p) (l : ℕ)
    → l ≤ i.n.level
    → Splits s l (cofactors_at l f i.n) p
unfolding cofactors_at
cofactors_at-Splits {s} {lo} {f} {p} i l h = elim (Bool-cases (i.n.level == l)) [
  | inl here ↦
      let e : i.n.level ≡ l = ground arith in
      rw here (record {
        yes_fn = i.yes_fn;
        no_fn = i.no_fn;
        yes_at = rw (← e) i.yes_at;
        no_at = rw (← e) i.no_at;
        branches = λ r. rw (← e) (i.branches r);
      })
  | inr below ↦
      let deeper : IsFun s (suc l) f p = IsFun-le i.self (ground arith) in
      rw below (record {
        yes_fn = p;
        no_fn = p;
        yes_at = deeper;
        no_at = deeper;
        branches = λ r. ground arith;
      })
]

module _ (A : ApplyCache BddOp) (σ : Substitutions) where
  pub read_terminal_bin-Ensures :
      {D : Type 0} {s : St A} {Q : D → Store → Type 0} (op : BddOp) (f g : Edge) {o : Operation}
      (k : Operation → Run (St A) D)
      → terminal_bin s.store op f g ≡ some o
      → Ensures A σ s (k o s) Q
      → Ensures A σ s ((read_terminal_bin op f g >>= k) s) Q
  unfolding read_terminal_bin
  read_terminal_bin-Ensures op f g k h e = rw h e

  -- An operator of the operands in the order of the cache key, which may be the other one.
  key_functions :
      {s : Store} {lo lo' : ℕ} {op op' : BddOp} {f g a b : Edge} {p q : BoolFn} (p' : BoolFn)
      (vs : List Operand)
      → IsValid s
      → is_bin op ≡ true
      → (pair : IsPair s lo op f g p q op' a b) → DenotesAll s lo' (a ∷ b ∷ []) vs
      → sem_bin op vs ≡ some p'
      → (lo' ≤ min pair.left.n.level pair.right.n.level)
        × ((r : Assignment) → apply2 (bin op) p q r ≡ p' r)
  key_functions {s = s} {lo' = lo'} {p = p} {q} p' (fn x ∷ fn y ∷ []) v isb pair d e =
      elim pair.pair [
        | inl (ea, eb) ↦
            let hx = subst (λ k. IsFun s lo' k x) ea d.0 in
            let hy = subst (λ k. IsFun s lo' k y) eb d.1.0 in
            (
              omega (arith, IsFun-above v hx pair.left.at, IsFun-above v hy pair.right.at),
              λ r.
                  cc (
                    IsFun-agree pair.left.self hx r,
                    IsFun-agree pair.right.self hy r,
                    same_fn e r,
                  ),
            )
        | inr (ea, eb, comm) ↦
            let hx = subst (λ k. IsFun s lo' k x) ea d.0 in
            let hy = subst (λ k. IsFun s lo' k y) eb d.1.0 in
            (
              omega (arith, IsFun-above v hx pair.right.at, IsFun-above v hy pair.left.at),
              λ r. cc (
                IsFun-agree pair.right.self hx r,
                IsFun-agree pair.left.self hy r,
                same_fn e r,
                comm (p r) (q r),
              ),
            )
      ]
  key_functions p' _ v isb pair d e = cc

  Means-binary :
      {s t : Store} {lo : ℕ} {op op' : BddOp} {f g a b h : Edge} {p q : BoolFn}
      → IsValid s
      → is_bin op ≡ true
      → (pair : IsPair s lo op f g p q op' a b)
      → IsFun t (min pair.left.n.level pair.right.n.level) h (apply2 (bin op) p q)
      → Means A σ s t op' (a ∷ b ∷ []) [] h
  Means-binary {op = op} v isb pair hh lo' vs p' d e =
      let e' : sem_bin op vs ≡ some p' = sym (sem-is_bin σ op vs isb) ∙ rw (← pair.same_op) e in
      let (level, agree) = key_functions p' vs v isb pair d e' in
      rw (pair.same_op, out_level-is_bin op lo' isb) (IsFun-ext (IsFun-le hh level) agree)

  -- What the cache answers for a pair is the operator's function.
  pair_function :
      {s t : Store} {lo : ℕ} {op op' : BddOp} {f g a b h : Edge} {p q : BoolFn}
      → is_bin op ≡ true
      → IsFun s lo f p
      → IsFun s lo g q
      → IsPair s lo op f g p q op' a b
      → Means A σ s t op' (a ∷ b ∷ []) [] h
      → IsFun t lo h (apply2 (bin op) p q)
  pair_function {s} {t} {lo} {op} {op'} {a = a} {b = b} {h = h} {p = p} {q} isb hf hg pair m =
      let sem_op = λ (vs : List Operand).
        subst (λ o. sem σ o [] vs ≡ sem_bin op vs) (sym pair.same_op) (sem-is_bin σ op vs isb) in
      let out : out_level op' lo ≡ lo = rw pair.same_op (out_level-is_bin op lo isb) in
      elim pair.pair [
        | inl (ea, eb) ↦
            let d : Denotes s lo a (fn p) × (Denotes s lo b (fn q) × Unit {0}) =
              rw (ea, eb) (hf, (hg, tt)) in
            subst (λ k. IsFun t k h (apply2 (bin op) p q)) out
              (m lo (fn p ∷ fn q ∷ []) (apply2 (bin op) p q) d (sem_op (fn p ∷ fn q ∷ [])))
        | inr (ea, eb, comm) ↦
            let d : Denotes s lo a (fn q) × (Denotes s lo b (fn p) × Unit {0}) =
              rw (ea, eb) (hg, (hf, tt)) in
            IsFun-ext
              (subst (λ k. IsFun t k h (apply2 (bin op) q p)) out
                (m lo (fn q ∷ fn p ∷ []) (apply2 (bin op) q p) d (sem_op (fn q ∷ fn p ∷ []))))
              (λ r. comm (q r) (p r))
      ]

  -- One unfolding of both functions at the top-most level, whatever is called on the cofactors.
  bin_inner-Ensures :
      {lo : ℕ} (op : BddOp) (s : St A) {f g : Edge} {p q : BoolFn}
      (again : Edge → Edge → Run (St A) Edge)
      → IsValidState A σ s
      → (i : AtInner s.store lo f p) (j : AtInner s.store lo g q)
      → ((a b : Edge) (x y : BoolFn) (t : St A)
          → Extends s.store t.store
          → IsValidState A σ t
          → IsFun t.store (suc (min i.n.level j.n.level)) a x
          → IsFun t.store (suc (min i.n.level j.n.level)) b y
          → Ensures A σ t
              (again a b t)
              (λ h u. IsFun u (suc (min i.n.level j.n.level)) h (apply2 (bin op) x y)))
      → Ensures A σ s
          (bin_inner A again f g s)
          (λ h t. IsFun t (min i.n.level j.n.level) h (apply2 (bin op) p q))
  unfolding bin_inner unwrap_inner rec_binary
  bin_inner-Ensures op s {f} {g} again v i j sub =
      let l = min i.n.level j.n.level in
      let fs = cofactors_at-Splits i l (omega arith) in
      let gs = cofactors_at-Splits j l (omega arith) in
      let below : l < num_levels s.store = omega (arith, i.below) in
      read_node-Ensures A σ f _ i.at (
        read_node-Ensures A σ g _ j.at (
          Ensures-bind A σ (rec_binary again _ _) _
            (both-Ensures A σ (again _ _) (again _ _)
              (sub _ _ fs.yes_fn gs.yes_fn s (Extends-refl s.store) v fs.yes_at gs.yes_at)
              (λ t x vt.
                sub _ _ fs.no_fn gs.no_fn t x vt (IsFun-Extends fs.no_at x)
                  (IsFun-Extends gs.no_at x)))
            (λ te t x vt ab.
              Ensures-weaken A σ _ (reduce-Ensures A σ vt (rw x.levels below) ab.0 ab.1)
                (λ h c. IsFun-ext c (λ r. ground (arith, fs.branches r, gs.branches r))))))

  module _ (k lo : ℕ) (op : BddOp) (s : St A) (f g : Edge) (p q : BoolFn) (isb : is_bin op ≡ true)
      (v : IsValidState A σ s) (u : Fueled (suc k) lo s.store) (hf : IsFun s.store lo f p)
      (hg : IsFun s.store lo g q) (again : Edge → Edge → Run (St A) Edge)
      (sub : (l : ℕ) (a b : Edge) (x y : BoolFn) (t : St A)
        → lo ≤ l
        → l < num_levels s.store
        → Extends s.store t.store
        → IsValidState A σ t
        → IsFun t.store (suc l) a x
        → IsFun t.store (suc l) b y
        → Ensures A σ t (again a b t) (λ h w. IsFun w (suc l) h (apply2 (bin op) x y))) where
    -- What `apply_bin` does with the operation that the terminal cases leave.
    bin_operation-Ensures :
        (o : Operation)
        → Fits s.store lo op f g p q o
        → Ensures A σ s
            (bin_operation A (suc k) again f g o s)
            (λ h t. IsFun t lo h (apply2 (bin op) p q))
    unfolding bin_operation
    bin_operation-Ensures (done e) fits = Ensures-pure A σ e v fits
    bin_operation-Ensures (negate e) (x, he, agree) =
        Ensures-weaken A σ _ (apply_not-Ensures A σ (suc k) lo s e x v u he)
          (λ h c. IsFun-ext c agree)
    bin_operation-Ensures (binary op' a b) pair =
        let known_f : Known s.store f = (p, IsFun-zero hf) in
        let known_g : Known s.store g = (q, IsFun-zero hg) in
        let known : KnownAll s.store (a ∷ b ∷ []) = elim pair.pair [
          | inl (ea, eb) ↦ rw (ea, eb) (known_f, (known_g, tt))
          | inr (ea, eb, comm) ↦ rw (ea, eb) (known_g, (known_f, tt))
        ] in
        let run = bin_inner-Ensures op s again v pair.left pair.right (λ x y x' y' t ext vt hx hy.
          sub (min pair.left.n.level pair.right.n.level) x y x' y' t
            (omega (arith, pair.left.above, pair.right.above)) (omega (arith, pair.left.below)) ext
            vt hx hy) in
        let means =
          λ (h : Edge) (t : Store)
              (c : IsFun t (min pair.left.n.level pair.right.n.level) h (apply2 (bin op) p q)).
            Means-binary {t = t} {a = a} {b = b} {h = h} v.store_valid isb pair c in
        Ensures-weaken A σ _
          (cached-Ensures A σ op' (a ∷ b ∷ []) [] _ v known
            (Ensures-weaken A σ _ run (λ h c. means h _ c)))
          (λ h m. pair_function isb hf hg pair m)

  -- In a valid state, with fuel for the levels below `lo`, `apply_bin` returns the edge of the
  -- operator's function, or the store is full.
  pub apply_bin-Ensures :
      (k lo : ℕ) (op : BddOp) (s : St A) (f g : Edge) (p q : BoolFn)
      → is_bin op ≡ true
      → IsValidState A σ s
      → Fueled k lo s.store
      → IsFun s.store lo f p
      → IsFun s.store lo g q
      → Ensures A σ s (apply_bin A k op f g s) (λ h t. IsFun t lo h (apply2 (bin op) p q))
  unfolding apply_bin
  apply_bin-Ensures zero lo op s f g p q b v u hf hg = absurd (omega (arith, u.level, u.fuel))
  apply_bin-Ensures (suc k) lo op s f g p q b v u hf hg =
      let (o, run, fits) = terminal_bin-Fits op v.store_valid b hf hg in
      read_terminal_bin-Ensures op f g _ run (
        bin_operation-Ensures k lo op s f g p q b v u hf hg (apply_bin A k op)
          (λ l x y x' y' t above below ext vt hx hy.
            apply_bin-Ensures k (suc l) op t x y x' y' b vt (Fueled-suc u above below ext) hx hy)
          o fits)
