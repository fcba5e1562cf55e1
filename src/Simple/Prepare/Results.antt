-- ===== src/Simple/Prepare/Results.antt =====
-- What `substitute_edge` of crates/oxidd-rules-bdd/src/simple/apply_rec.rs makes of its pairs.
use oxidd.Prelude.{
  ℕ, zero, suc, ◌+◌, ◌≤◌, ◌≡◌, ◌≢◌, ◌∙◌, ap, sym, refl, subst, Bool, true, false, Option, none,
  some, arith, List, [], ◌∷◌, inl, inr, length, get_elem?, get_elem?_bound, Has,
}
use mathlib.Core.Option.{some-injective}
use oxidd.Outcome.{Result, ok, err, out_of_memory, panic, out_of_fuel, and_then}
use oxidd.Tree.{Assignment, BoolFn}
use oxidd.Manager.{Edge, inner, get_node, Store, num_levels, get_terminal}
use oxidd.Manager.Valid.{Extends, Extends-refl, Extends-trans, IsValid, IsFull}
use oxidd.Manager.Insert.{get_or_insert-Inserts}
use oxidd.Represents.{IsFun, IsFun-Extends, IsFun-zero, IsFun-ext, get_terminal-IsFun, node-IsFun}
use oxidd.Simple.Functions.{var_node}
use oxidd.Simple.Prepare.{collect_pairs, fill_levels, substitute_prepare}
use oxidd.Simple.Prepare.{substitute_edge}
use oxidd.Cache.{ApplyCache}
use oxidd.Simple.{BddOp}
use oxidd.Simple.Apply.{St, on_store}
use oxidd.Simple.Meaning.{Substitutions}
use oxidd.Simple.Ensures.{IsValidState, IsSound-Keeps, Ensures, Ensures-bind}
use oxidd.Simple.Substitute.{Replaces, composed, apply_substitute-Ensures}
use oxidd.Simple.Functions.Connectives.{Fueled-levels, Makes}
use oxidd.Simple.Prepare.Collect.{PairsAt, Collected, Collects, collect_pairs-Collects}

terminals_differ : get_terminal true ≢ get_terminal false
unfolding get_terminal
terminals_differ h = absurd (ground arith)

step : (i j : ℕ) → i + suc j ≡ suc i + j
step i j = omega arith

start : (i : ℕ) → i ≡ i + 0
start i = omega arith

module _ (q : ℕ → Assignment → Bool) where
  -- The vector from the level `i` on: a replacement, or a level that stands for itself.
  pub record Open (s : Store) (i : ℕ) (xs : List (Option Edge)) : Type 0 where
    pub fits : (j : ℕ) (e : Edge) → get_elem? xs j ≡ some (some e) → IsFun s 0 e (q (i + j))
    pub itself : (j : ℕ) (r : Assignment) → get_elem? xs j ≡ some none → q (i + j) r ≡ r (i + j)
    pub short : i + length xs ≤ num_levels s

  pub record Filled (s : Store) (i : ℕ) (xs : List (Option Edge)) (res : List Edge) (u : Store)
      : Type 0 where
    pub extends : Extends s u
    pub valid : IsValid u
    pub same_length : length res ≡ length xs
    pub at : (j : ℕ) (e : Edge) → get_elem? res j ≡ some e → IsFun u 0 e (q (i + j))

  abbrev pub Fills : Store → ℕ → List (Option Edge) → Result (List Edge) × Store → Type 0
  Fills s i xs (ok res, u) = Filled s i xs res u
  Fills s i xs (err out_of_memory, u) = Extends s u × IsValid u × IsFull u
  Fills s i xs (err e, u) = ⊥

  Open-later :
      {s t : Store} {i : ℕ} {x : Option Edge} {xs : List (Option Edge)}
      → Extends s t
      → Open s i (x ∷ xs)
      → Open t (suc i) xs
  Open-later {s = s} {i = i} x o = record {
    fits =
        λ j e h. IsFun-Extends (subst (λ k. IsFun s 0 e (q k)) (step i j) (o.fits (suc j) e h)) x;
    itself = λ j r h. subst (λ k. q k r ≡ r k) (step i j) (o.itself (suc j) r h);
    short = omega (arith, o.short, x.levels);
  }

  Fills-cons :
      {s t : Store} {i : ℕ} (y : Option Edge) (xs : List (Option Edge)) (e : Edge)
      (r : Result (List Edge) × Store)
      → Extends s t
      → IsFun t 0 e (q i)
      → Fills t (suc i) xs r
      → Fills s i (y ∷ xs) (and_then r.0 r.1 (λ res u. (ok (e ∷ res), u)))
  Fills-cons {i = i} y xs e (ok res, u) x f m = record {
    extends = Extends-trans x m.extends;
    valid = m.valid;
    same_length = ap suc m.same_length;
    at = at;
  }
    where
      at : (j : ℕ) (d : Edge) → get_elem? (e ∷ res) j ≡ some d → IsFun u 0 d (q (i + j))
      at zero d h =
          subst (λ k. IsFun u 0 d (q k)) (start i)
            (subst (λ k. IsFun u 0 k (q i)) (some-injective e d h) (IsFun-Extends f m.extends))
      at (suc j) d h = subst (λ k. IsFun u 0 d (q k)) (sym (step i j)) (m.at j d h)
  Fills-cons y xs e (err out_of_memory, u) x f m = (Extends-trans x m.0, m.1, m.2)
  Fills-cons y xs e (err panic, u) x f m = m
  Fills-cons y xs e (err out_of_fuel, u) x f m = m

  var_node-IsFun :
      {s t : Store} {h : Edge} (i : ℕ)
      → IsValid s
      → Extends s t
      → get_node t h ≡ some (inner (var_node i))
      → IsFun t 0 h (λ r. r i)
  unfolding var_node
  var_node-IsFun {s} i v x at = IsFun-zero (
      IsFun-ext
        (node-IsFun v x.keeps (get_terminal-IsFun s (suc i) true)
          (get_terminal-IsFun s (suc i) false) terminals_differ at)
        (λ r. ground arith))

  fill_levels-Fills :
      (s : Store) (i : ℕ) (xs : List (Option Edge))
      → IsValid s
      → Open s i xs
      → Fills s i xs (fill_levels i xs s)
  unfolding fill_levels var_node
  fill_levels-Fills s i [] v o = record {
    extends = Extends-refl s;
    valid = v;
    same_length = refl;
    at = λ j e h. absurd (cc);
  }
  fill_levels-Fills s i (some e ∷ xs) v o =
      Fills-cons (some e) xs e (fill_levels (suc i) xs s) (Extends-refl s)
        (subst (λ k. IsFun s 0 e (q k)) (sym (start i)) (o.fits 0 e refl))
        (fill_levels-Fills s (suc i) xs v (Open-later (Extends-refl s) o))
  fill_levels-Fills s i (none ∷ xs) v o =
      elim (get_or_insert-Inserts s (var_node i) v (omega (arith, o.short)) terminals_differ) [
        | inl (h, t, run, x, vt, at) ↦ rw run (
            Fills-cons none xs h (fill_levels (suc i) xs t) x
              (IsFun-ext (var_node-IsFun i v x at)
                (λ r. sym (subst (λ k. q k r ≡ r k) (sym (start i)) (o.itself 0 r refl))))
              (fill_levels-Fills t (suc i) xs vt (Open-later x o)))
        | inr (run, full) ↦ rw run (Extends-refl s, v, full)
      ]

  -- The pairs are of all levels that the function changes.
  abbrev pub Prepares : Store → Result (List Edge) × Store → Type 0
  Prepares s (ok res, u) =
      Extends s u
      × IsValid u
      × ((l : ℕ) (e : Edge) → get_elem? res l ≡ some e → IsFun u 0 e (q l))
      × ((l : ℕ) (r : Assignment) → length res ≤ l → q l r ≡ r l)
  Prepares s (err out_of_memory, u) = Extends s u × IsValid u × IsFull u
  Prepares s (err e, u) = ⊥

  prepared :
      {s : Store} (xs : List (Option Edge))
      → Collected s q [] xs
      → (r : Result (List Edge) × Store) → Fills s 0 xs r
      → Prepares s r
  prepared xs c (ok res, u) m = (
    m.extends,
    m.valid,
    λ l e h. subst (λ k. IsFun u 0 e (q k)) (omega arith) (m.at l e h),
    λ l r h.
        c.other l r (λ none_left. none_left)
          (λ e there. absurd (omega (arith, m.same_length, get_elem?_bound xs l there))),
  )
  prepared xs c (err out_of_memory, u) m = m
  prepared xs c (err panic, u) m = m
  prepared xs c (err out_of_fuel, u) m = m

  pub substitute_prepare-Prepares :
      (s : Store) (pairs : List (Edge × Edge)) (ls : List ℕ)
      → IsValid s
      → PairsAt s q pairs ls
      → ((l : ℕ) (r : Assignment) → (Has l ls → ⊥) → q l r ≡ r l)
      → Prepares s (substitute_prepare pairs s)
  unfolding substitute_prepare
  substitute_prepare-Prepares s pairs ls v p other = go (collect_pairs s pairs []) (
      collect_pairs-Collects pairs ls [] v p record {
        fits = λ l e h. absurd (cc);
        fresh = λ l h e k. absurd (cc);
        other = λ l r h k. other l r h;
        short = omega arith;
      })
    where
      go :
          (r : Result (List (Option Edge)))
          → Collects s q r
          → Prepares s (and_then r s (fill_levels 0))
      go (ok xs) c = prepared xs c (fill_levels 0 xs s) (
          fill_levels-Fills s 0 xs v record {
            fits = λ j e h. subst (λ k. IsFun s 0 e (q k)) (omega arith) (c.fits j e h);
            itself = λ j r h.
                let no_entry : (e : Edge) → get_elem? xs j ≢ some (some e) = λ e there.
                  let clash : none ≡ some e = some-injective none (some e) (sym h ∙ there) in
                  absurd (cc) in
                subst (λ k. q k r ≡ r k) (omega arith)
                  (c.other j r (λ none_left. none_left) no_entry);
            short = omega (arith, c.short);
          })
      go (err e) c = absurd c

module _ (A : ApplyCache BddOp) (σ : Substitutions) where
  prepare-Ensures :
      (s : St A) (pairs : List (Edge × Edge)) (id : ℕ)
      → IsValidState A σ s
      → (r : Result (List Edge) × Store) → Prepares (σ id) s.store r
      → Ensures A σ s (r.0, record s { store = r.1 }) (λ res t. Replaces t σ id res)
  prepare-Ensures s pairs id v (ok res, u) (x, vu, at, beyond) = record {
    extends = x;
    valid = record { store_valid = vu; sound = IsSound-Keeps A σ x.keeps v.sound };
    post = record { at = at; beyond = beyond };
  }
  prepare-Ensures s pairs id v (err out_of_memory, u) (x, vu, full) = record {
    extends = x;
    valid = record { store_valid = vu; sound = IsSound-Keeps A σ x.keeps v.sound };
    post = full;
  }
  prepare-Ensures s pairs id v (err panic, u) m = absurd m
  prepare-Ensures s pairs id v (err out_of_fuel, u) m = absurd m

  -- In a valid state, for an edge of `p`, pairs of variables of different levels with edges of their
  -- replacements, and a number that stands for this substitution, `substitute_edge` makes the edge of
  -- `p` with every level of the pairs replaced, in a valid state that keeps every node and level; the
  -- only error is that of a full store.
  pub substitute_edge-Makes :
      (s : St A) (edge : Edge) (p : BoolFn) (pairs : List (Edge × Edge)) (ls : List ℕ) (id : ℕ)
      → IsValidState A σ s
      → IsFun s.store 0 edge p
      → PairsAt s.store (σ id) pairs ls
      → ((l : ℕ) (r : Assignment) → (Has l ls → ⊥) → σ id l r ≡ r l)
      → Makes A σ s (substitute_edge A edge pairs id s) (composed σ id p)
  unfolding substitute_edge on_store
  substitute_edge-Makes s edge p pairs ls id v f at other =
      Ensures-bind A σ (on_store (substitute_prepare pairs)) _
        (prepare-Ensures s pairs id v (substitute_prepare pairs s.store)
          (substitute_prepare-Prepares (σ id) s.store pairs ls v.store_valid at other))
        (λ res t x vt w.
          apply_substitute-Ensures A σ (suc (num_levels t.store)) 0 t edge p id res vt
            (Fueled-levels t.store) w (IsFun-Extends f x))
