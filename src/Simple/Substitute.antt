-- ===== src/Simple/Substitute.antt =====
-- `substitute` of crates/oxidd-rules-bdd/src/simple/apply_rec.rs replaces variables by functions.
use oxidd.Prelude.{
  ℕ, zero, suc, ◌≤◌, ◌≡◌, ◌∙◌, sym, refl, none, some, inl, inr, List, [], ◌∷◌, arith, Option-cases,
  length, get_elem?,
}
use oxidd.Tree.{Assignment, BoolFn}
use oxidd.Outcome.{Run, out_of_fuel, raise, pure, ◌>>=◌}
use oxidd.Manager.{Edge, InnerNode, Store, inner, terminal, num_levels}
use oxidd.Manager.Valid.{Extends, Extends-refl}
use oxidd.Represents.{IsFun, IsFun-Extends, IsFun-zero, IsFun-ext, IsFun-agree, AtInner, view}
use oxidd.Cache.{ApplyCache}
use oxidd.Simple.{BddOp, substitute}
use oxidd.Simple.Apply.{St, read_node, apply_ite, cached}
use oxidd.Simple.Meaning.{fn, vars, literals, Substitutions, same_fn}
use oxidd.Simple.Negation.{both-Ensures}
use oxidd.Simple.Ite.{apply_ite-Ensures}
use oxidd.Simple.Quantify.Semantics.{Below, IsFun-Below}
use oxidd.Simple.Ensures.{
  IsValidState, Ensures, Ensures-pure, Ensures-weaken, Ensures-bind, read_node-Ensures,
  cached-Ensures, Means, Fueled, Fueled-suc,
}
use oxidd.Simple.Functions.Connectives.{Fueled-levels}

module _ (A : ApplyCache BddOp) where
  -- The recursor's `subst`: both calls in order.
  unfoldable pub rec_subst : (Edge → Run (St A) Edge) → Edge → Edge → Run (St A) (Edge × Edge)
  rec_subst op a b = do ra ← op a; rb ← op b; pure (ra, rb)

  -- After the cache query; `again` is `substitute` on children.
  unfoldable pub substitute_inner : (Edge → Run (St A) Edge) → Edge → InnerNode → Run (St A) Edge
  substitute_inner again replacement node = do
    te ← rec_subst again node.child0 node.child1
    (λ (s : St A). apply_ite A (suc (num_levels s.store)) replacement te.0 te.1 s)

  -- `replacements` maps levels to edges; a level outside it is left alone.
  unfoldable pub apply_substitute : ℕ → List Edge → ℕ → Edge → Run (St A) Edge
  apply_substitute zero replacements cache_id f = raise out_of_fuel
  apply_substitute (suc k) replacements cache_id f = do
    m ← read_node f
    elim m [
      | terminal b ↦ pure f
      | inner node ↦ elim (get_elem? replacements node.level) [
        | none ↦ pure f
        | some replacement ↦
            cached A substitute (f ∷ []) (cache_id ∷ [])
              (substitute_inner (apply_substitute k replacements cache_id) replacement node)
      ]
    ]

-- The edges are those of the functions that the cache key's number stands for.
pub record Replaces (s : Store) (σ : Substitutions) (cache_id : ℕ) (replacements : List Edge)
    : Type 0 where
  pub at : (l : ℕ) (e : Edge) → get_elem? replacements l ≡ some e → IsFun s 0 e (σ cache_id l)
  pub beyond : (l : ℕ) (r : Assignment) → length replacements ≤ l → σ cache_id l r ≡ r l

pub Replaces-Extends :
    {s t : Store} {σ : Substitutions} {cache_id : ℕ} {replacements : List Edge}
    → Extends s t
    → Replaces s σ cache_id replacements
    → Replaces t σ cache_id replacements
Replaces-Extends x w = record { at = λ l e h. IsFun-Extends (w.at l e h) x; beyond = w.beyond }

-- The function with each level replaced.
abbrev pub composed : Substitutions → ℕ → BoolFn → BoolFn
composed σ cache_id p r = p (λ l. σ cache_id l r)

get_elem?-none : (xs : List Edge) (i : ℕ) → get_elem? xs i ≡ none → length xs ≤ i
get_elem?-none [] i h = omega arith
get_elem?-none (x ∷ xs) zero h = cc
get_elem?-none (x ∷ xs) (suc i) h = omega (arith, get_elem?-none xs i h)

module _ (A : ApplyCache BddOp) (σ : Substitutions) where
  Means-substitute :
      {s t : Store} {lo : ℕ} {f h : Edge} {p : BoolFn} (cache_id : ℕ)
      → IsFun s lo f p
      → IsFun t 0 h (composed σ cache_id p)
      → Means A σ s t substitute (f ∷ []) (cache_id ∷ []) h
  Means-substitute cache_id hf hh lo' (fn y ∷ []) p' d e =
      IsFun-ext hh (λ r. IsFun-agree hf d.0 (λ l. σ cache_id l r) ∙ same_fn e r)
  Means-substitute cache_id hf hh lo' (fn y ∷ z ∷ vs) p' d e = cc
  Means-substitute cache_id hf hh lo' [] p' d e = cc
  Means-substitute cache_id hf hh lo' (vars y ∷ vs) p' d e = cc
  Means-substitute cache_id hf hh lo' (literals y ∷ vs) p' d e = cc

  -- A function below all replacements.
  untouched :
      {s : St A} {lo : ℕ} {f : Edge} {p : BoolFn} (cache_id : ℕ) (replacements : List Edge)
      → IsValidState A σ s
      → Replaces s.store σ cache_id replacements
      → IsFun s.store lo f p
      → Below (length replacements) p
      → Ensures A σ s (pure f s) (λ h t. IsFun t 0 h (composed σ cache_id p))
  untouched {p = p} cache_id replacements v w hf b =
      Ensures-pure A σ _ v
        (IsFun-ext (IsFun-zero hf) (λ r. b r (λ l. σ cache_id l r) (λ l h. sym (w.beyond l r h))))

  substitute_inner-Ensures :
      {s : St A} {lo : ℕ} {f : Edge} {p : BoolFn} (again : Edge → Run (St A) Edge) (cache_id : ℕ)
      (replacements : List Edge) (e : Edge)
      → IsValidState A σ s
      → Replaces s.store σ cache_id replacements
      → (i : AtInner s.store lo f p) → get_elem? replacements i.n.level ≡ some e
      → ((a : Edge) (x : BoolFn) (t : St A)
          → Extends s.store t.store
          → IsValidState A σ t
          → IsFun t.store (suc i.n.level) a x
          → Ensures A σ t (again a t) (λ h u. IsFun u 0 h (composed σ cache_id x)))
      → Ensures A σ s
          (substitute_inner A again e i.n s)
          (λ h t. IsFun t 0 h (composed σ cache_id p))
  unfolding substitute_inner rec_subst
  substitute_inner-Ensures {s} {p = p} again cache_id replacements e v w i found sub =
      Ensures-bind A σ (rec_subst A again i.n.child0 i.n.child1) _
        (both-Ensures A σ (again i.n.child0) (again i.n.child1)
          (sub i.n.child0 i.yes_fn s (Extends-refl s.store) v i.yes_at)
          (λ t x vt. sub i.n.child1 i.no_fn t x vt (IsFun-Extends i.no_at x)))
        (λ te t x vt ab.
          Ensures-weaken A σ _
            (apply_ite-Ensures A σ (suc (num_levels t.store)) 0 t e te.0 te.1 (σ cache_id i.n.level)
              (composed σ cache_id i.yes_fn) (composed σ cache_id i.no_fn) vt
              (Fueled-levels t.store) (IsFun-Extends (w.at i.n.level e found) x) ab.0 ab.1)
            (λ h c. IsFun-ext c (λ r. sym (i.branches (λ l. σ cache_id l r)))))

  -- In a valid state, with fuel for the levels below `lo` and a number that stands for the
  -- replacements, `substitute` returns the edge of the function with every level replaced, or the
  -- store is full.
  pub apply_substitute-Ensures :
      (k lo : ℕ) (s : St A) (f : Edge) (p : BoolFn) (cache_id : ℕ) (replacements : List Edge)
      → IsValidState A σ s
      → Fueled k lo s.store
      → Replaces s.store σ cache_id replacements
      → IsFun s.store lo f p
      → Ensures A σ s
          (apply_substitute A k replacements cache_id f s)
          (λ h t. IsFun t 0 h (composed σ cache_id p))
  unfolding apply_substitute
  apply_substitute-Ensures zero lo s f p cache_id replacements v u w hf =
      absurd (omega (arith, u.level, u.fuel))
  apply_substitute-Ensures (suc k) lo s f p cache_id replacements v u w hf =
      elim (view v.store_valid hf) [
        | inl t ↦
            read_node-Ensures A σ f _ t.at (
              untouched cache_id replacements v w hf (λ r r' a. t.constant r ∙ sym (t.constant r')))
        | inr i ↦
            read_node-Ensures A σ f _ i.at (elim (Option-cases (get_elem? replacements i.n.level)) [
              | inl missing ↦
                  let bound = get_elem?-none replacements i.n.level missing in
                  rw missing (
                    untouched cache_id replacements v w hf
                      (λ r r' a. IsFun-Below i.self r r' (λ l h. a l (omega (arith, h, bound)))))
              | inr (e, found) ↦
                  let run =
                    substitute_inner-Ensures (apply_substitute A k replacements cache_id) cache_id
                      replacements e v w i found
                      (λ a x t ext vt ha.
                        apply_substitute-Ensures k (suc i.n.level) t a x cache_id replacements vt
                          (Fueled-suc u i.above i.below ext) (Replaces-Extends ext w) ha) in
                  rw found (
                    Ensures-weaken A σ _
                      (cached-Ensures A σ substitute (f ∷ []) (cache_id ∷ []) _ v
                        ((p, IsFun-zero hf), tt)
                        (Ensures-weaken A σ _ run (λ h c. Means-substitute {h = h} cache_id hf c)))
                      (λ h m. m 0 (fn p ∷ []) (composed σ cache_id p) (IsFun-zero hf, tt) refl))
            ])
      ]
