-- ===== src/Simple/Count/Laws.antt =====
-- `sat_count_edge` of crates/oxidd-rules-bdd/src/simple/apply_rec.rs with exact numbers counts the
-- satisfying assignments.
use mathlib.Core.Option.{some-injective}
use oxidd.Prelude.{
  ℕ, zero, suc, ◌+◌, ◌-◌, ◌*◌, ◌/◌, ◌≤◌, ◌<◌, ◌≡◌, ◌∙◌, ap, sym, refl, subst, true, false, some,
  List, ◌∷◌, arith, ◌==◌, ==_iff, Bool-cases, Option-cases, inl, inr,
}
use oxidd.Outcome.{Result, ok, err, and_then}
use oxidd.Tree.{Tree, leaf, node, BoolFn, eval, IsOrdered}
use oxidd.Table.Mask.{double}
use oxidd.Manager.{Edge, Store, num_levels}
use oxidd.Manager.Valid.{IsValid}
use oxidd.Represents.{Rep, Rep-functional, IsFun}
use oxidd.Simple.Count.{
  SatCountNumber, SatCountCache, map_get, clear_if_invalid, insert_count, count_inner,
  sat_count_edge,
}
use oxidd.Simple.Count.Models.{models, weight, Below, weight-models, models-ext}

-- Numbers that are natural numbers without a bound, such as the big integers.
pub record IsExact {N : Type 0} (num : SatCountNumber N) : Type 0 where
  pub value : N → ℕ
  pub from : (k : ℕ) → value (num.from k) ≡ k
  pub add : (a b : N) → value (num.add a b) ≡ value a + value b
  pub shl : (a : N) (k : ℕ) → value (num.shl a k) ≡ value a * double k
  pub shr : (a : N) (k : ℕ) → value (num.shr a k) ≡ value a / double k

Rep-Below : {s : Store} (e : Edge) (t : Tree) → IsValid s → Rep s e t → Below (num_levels s) t
Rep-Below e (leaf b) v h = tt
Rep-Below {s} e (node l t u) v (n, at, level, a, b) = (
  omega (arith, level, (v.stored e n at).below),
  Rep-Below n.child0 t v a,
  Rep-Below n.child1 u v b,
)

module _ {N : Type 0} {num : SatCountNumber N} (exact : IsExact num) (s : Store)
    (valid : IsValid s) where
  -- The counts in the cache are right.
  abbrev pub Known : ℕ → List (Edge × N) → Type 0
  Known vars map =
      (e : Edge) (n : N)
      → map_get map e ≡ some n
      → (t : Tree) × Rep s e t × (exact.value n ≡ weight vars t)

  abbrev pub Counts : ℕ → ℕ → Result N × SatCountCache N → Type 0
  Counts vars expected (ok n, cache) = (exact.value n ≡ expected) × Known vars cache.map
  Counts vars expected (err e, cache) = ⊥

  Known-insert :
      (vars : ℕ) (map : List (Edge × N)) (e : Edge) (n : N) (t : Tree)
      → Known vars map
      → Rep s e t
      → exact.value n ≡ weight vars t
      → Known vars ((e, n) ∷ map)
  Known-insert vars map e n t known rep counted f m h = elim (Bool-cases (f == e)) [
    | inl same ↦
        let there : n ≡ m = some-injective n m (sym (first same) ∙ h) in
        (
          t,
          subst (λ k. Rep s k t) (sym ((==_iff f e).0 same)) rep,
          ap exact.value (sym there) ∙ counted,
        )
    | inr other ↦ known f m (sym (later other) ∙ h)
  ]
    where
      first : (f == e) ≡ true → map_get ((e, n) ∷ map) f ≡ some n
      first same = rw (same, map_get) refl

      later : (f == e) ≡ false → map_get ((e, n) ∷ map) f ≡ map_get map f
      later other = rw (other, map_get) refl

  -- The count of a node from those of its children.
  joined :
      (vars : ℕ) (e : Edge) (l : ℕ) (t u : Tree)
      → Rep s e (node l t u)
      → (first : Result N × SatCountCache N)
      → (second : SatCountCache N → Result N × SatCountCache N) → Counts vars (weight vars t) first
      → ((cache : SatCountCache N)
          → Known vars cache.map
          → Counts vars (weight vars u) (second cache))
      → Counts vars (weight vars (node l t u)) (
          and_then first.0 first.1 λ n0 c.
            and_then
              (second c).0
              (second c).1
              λ n1. insert_count num s e (num.shr (num.add n0 n1) 1))
  unfolding insert_count
  joined vars e l t u rep (err x, c) second one other = absurd one
  joined vars e l t u rep (ok n0, c) second (left, known) other = both (second c) (other c known)
    where
      both :
          (r : Result N × SatCountCache N)
          → Counts vars (weight vars u) r
          → Counts vars
              (weight vars (node l t u))
              (and_then r.0 r.1 λ n1. insert_count num s e (num.shr (num.add n0 n1) 1))
      both (err x, c) h = absurd h
      both (ok n1, c) (right, known) =
          let half : exact.value (num.shr (num.add n0 n1) 1) ≡ weight vars (node l t u) =
            omega (arith, exact.shr (num.add n0 n1) 1, exact.add n0 n1, left, right) in
          (half, Known-insert vars c.map e (num.shr (num.add n0 n1) 1) (node l t u) known rep half)

  count_inner-Counts :
      (vars k lo : ℕ) (e : Edge) (t : Tree) (cache : SatCountCache N) (one : N)
      → exact.value one ≡ double vars
      → Rep s e t
      → IsOrdered lo t
      → lo ≤ num_levels s
      → num_levels s < k + lo
      → Known vars cache.map
      → Counts vars (weight vars t) (count_inner num s k one e cache)
  unfolding count_inner
  count_inner-Counts vars zero lo e t cache one top rep o bound enough known = absurd (omega arith)
  count_inner-Counts vars (suc k) lo e (leaf true) cache one top rep o bound enough known =
      rw (rep, count_inner) (top, known)
  count_inner-Counts vars (suc k) lo e (leaf false) cache one top rep o bound enough known =
      rw (rep, count_inner) (exact.from 0, known)
  count_inner-Counts vars (suc k) lo e (node l t u) cache one top (n, at, level, a, b) o bound
        enough known =
      let below = (valid.stored e n at).below in
      elim (Option-cases (map_get cache.map e)) [
        | inl miss ↦
            rw (at, count_inner, miss)
              (joined vars e l t u (n, at, level, a, b) _ _
                (count_inner-Counts vars k (suc l) n.child0 t cache one top a o.1
                  (omega (arith, level)) (omega (arith, o.0)) known)
                (λ c kn.
                  count_inner-Counts vars k (suc l) n.child1 u c one top b o.2
                    (omega (arith, level)) (omega (arith, o.0)) kn))
        | inr (m, hit) ↦
            rw (at, count_inner, hit)
              (let (w, there, counted) = known e m hit in
                (
                  counted
                      ∙ ap (weight vars)
                          (Rep-functional s e w (node l t u) there (n, at, level, a, b)),
                  known,
                ))
      ]

  -- The counts are right if the cache is of this epoch and of as many variables.
  abbrev pub KnownAt : ℕ → ℕ → SatCountCache N → Type 0
  KnownAt reorder_count vars cache =
      cache.epoch ≡ reorder_count → cache.vars ≡ vars → Known vars cache.map

  clear_if_invalid-Known :
      (reorder_count vars : ℕ) (cache : SatCountCache N)
      → KnownAt reorder_count vars cache
      → Known vars (clear_if_invalid reorder_count vars cache).map
  unfolding clear_if_invalid
  clear_if_invalid-Known reorder_count vars cache known =
      elim (Bool-cases (reorder_count == cache.epoch)) [
        | inr h ↦ rw (h, clear_if_invalid) (λ e n at. absurd (cc))
        | inl h ↦ elim (Bool-cases (vars == cache.vars)) [
          | inr k ↦ rw (h, clear_if_invalid, k) (λ e n at. absurd (cc))
          | inl k ↦ rw (h, clear_if_invalid, k) (known (ground arith) (ground arith))
        ]
      ]

  -- With exact numbers and a cache whose counts are right or out of date, the result for an edge of
  -- the function `p` and at least as many variables as there are levels is the number of the
  -- assignments to the levels that satisfy `p`, doubled for each further variable; and the counts
  -- that the cache then has are right.
  pub sat_count_edge-Counts :
      (reorder_count vars : ℕ) (e : Edge) (p : BoolFn) (cache : SatCountCache N)
      → IsFun s 0 e p
      → num_levels s ≤ vars
      → KnownAt reorder_count vars cache
      → Counts vars
          (double (vars - num_levels s) * models (num_levels s) 0 p (λ _. false))
          (sat_count_edge num s reorder_count e vars cache)
  unfolding sat_count_edge
  sat_count_edge-Counts reorder_count vars e p cache f enough known =
      let levels : num_levels s ≡ 0 + num_levels s = omega arith in
      let one = num.shl (num.from 1) vars in
      let top : exact.value one ≡ double vars =
        grind (arith, exact.shl (num.from 1) vars, exact.from 1) in
      subst (λ c. Counts vars c (sat_count_edge num s reorder_count e vars cache))
        (weight-models (num_levels s) 0 (vars - num_levels s) vars f.tree (λ _. false) (omega arith)
            f.ordered (subst (λ k. Below k f.tree) levels (Rep-Below e f.tree valid f.rep))
          ∙ ap (λ k. double (vars - num_levels s) * k)
              (models-ext (num_levels s) 0 (eval f.tree) p (λ _. false) (λ r _. f.computes r)))
        (count_inner-Counts vars (suc (num_levels s)) 0 e f.tree
          (clear_if_invalid reorder_count vars cache) one top f.rep f.ordered (omega arith)
          (omega arith) (clear_if_invalid-Known reorder_count vars cache known))
