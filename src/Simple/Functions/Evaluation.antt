-- ===== src/Simple/Functions/Evaluation.antt =====
-- `eval_edge` of crates/oxidd-rules-bdd/src/simple/apply_rec.rs.
use oxidd.Prelude.{
  ℕ, zero, suc, ◌+◌, ◌≤◌, ◌<◌, ◌≡◌, ◌∙◌, ap, refl, Bool, true, false, some, List, [], ◌∷◌, arith,
  ltb, if◌then◌else◌, length, set, get_elem?, get_elem?-set, length-set, replicate,
  length-replicate,
}
use oxidd.Tree.{Tree, leaf, node, Assignment, BoolFn, eval, IsOrdered, update}
use oxidd.Outcome.{ok}
use oxidd.Manager.{Edge, InnerNode, inner, Store, get_node, num_levels}
use oxidd.Manager.Valid.{IsValid}
use oxidd.Represents.{Rep, IsFun}
use oxidd.Simple.Meaning.{Literals}
use oxidd.Simple.Functions.{set_values, selected, eval_inner, eval_edge}

-- The assignment that the arguments make of `r`, the later ones overriding the earlier.
abbrev pub given : Literals → Assignment → Assignment
given [] r = r
given ((l, b) ∷ ls) r = given ls (update r l b)

-- Each argument is an edge to an inner node of the literal's level, with the literal's value.
abbrev pub ArgsAt : Store → List (Edge × Bool) → Literals → Type 0
ArgsAt s [] [] = Unit
ArgsAt s ((e, b) ∷ args) ((l, c) ∷ ls) =
    (n : InnerNode) × (get_node s e ≡ some (inner n)) × (n.level ≡ l) × (b ≡ c) × ArgsAt s args ls
ArgsAt s _ _ = ⊥

-- The vector has the values of the assignment.
record Holds (s : Store) (values : List Bool) (r : Assignment) : Type 0 where
  size : length values ≡ num_levels s
  value : (l : ℕ) → l < num_levels s → get_elem? values l ≡ some (r l)

Holds-set :
    {s : Store} {values : List Bool} {r : Assignment} (l : ℕ) (b : Bool)
    → l < num_levels s
    → Holds s values r
    → Holds s (set values l b) (update r l b)
Holds-set {s} {values} {r} l b below h = record {
  size = rw length-set h.size;
  value = λ k bound.
      ground (arith, get_elem?-set values l k b (omega (arith, h.size, below)), h.value k bound);
}

set_values-Holds :
    {s : Store} (args : List (Edge × Bool)) (ls : Literals) (values : List Bool) (r : Assignment)
    → IsValid s
    → ArgsAt s args ls
    → Holds s values r
    → (vs : List Bool) × (set_values s args values ≡ some vs) × Holds s vs (given ls r)
unfolding set_values
set_values-Holds [] [] values r v a h = (values, refl, h)
set_values-Holds [] (l ∷ ls) values r v a h = absurd a
set_values-Holds (e ∷ args) [] values r v a h = absurd a
set_values-Holds {s} ((e, b) ∷ args) ((l, c) ∷ ls) values r v (n, at, level, same, rest) h =
    let below = (v.stored e n at).below in
    let fits : ltb n.level (length values) ≡ true = ground (arith, h.size) in
    let later =
      set_values-Holds args ls (set values l c) (update r l c) v rest
        (Holds-set {s = s} l c (omega (arith, level, below)) h) in
    (later.0, rw (at, set_values, fits, level, same) later.1, later.2)

selected_child :
    (k : ℕ) (s : Store) (values : List Bool) {x y : Bool} (n : InnerNode) (b : Bool)
    → eval_inner k s n.child0 values ≡ ok x
    → eval_inner k s n.child1 values ≡ ok y
    → eval_inner k s (selected n b) values ≡ ok (if b then x else y)
selected_child k s values n true a b = a
selected_child k s values n false a b = b

eval_inner-eval :
    {s : Store} {values : List Bool} {r : Assignment} (k lo : ℕ) (t : Tree) (e : Edge)
    → IsValid s
    → Rep s e t
    → IsOrdered lo t
    → Holds s values r
    → lo ≤ num_levels s
    → num_levels s < k + lo
    → eval_inner k s e values ≡ ok (eval t r)
unfolding eval_inner
eval_inner-eval zero lo t e v h o w bound enough = absurd (omega (arith, bound, enough))
eval_inner-eval (suc k) lo (leaf b) e v h o w bound enough = rw (h, eval_inner) refl
eval_inner-eval {s} {values} {r} (suc k) lo (node l t u) e v (n, at, level, a, b) o w bound enough =
    let below = (v.stored e n at).below in
    let here : get_elem? values n.level ≡ some (r l) = rw (w.value n.level below) (rw level refl) in
    rw (at, eval_inner)
      (rw here (
        selected_child k s values n (r l)
          (eval_inner-eval k (suc l) t n.child0 v a o.1 w (omega (arith, level, below))
            (omega (arith, enough, o.0)))
          (eval_inner-eval k (suc l) u n.child1 v b o.2 w (omega (arith, level, below))
            (omega (arith, enough, o.0)))))

replicate-get : (n l : ℕ) → l < n → get_elem? (replicate n false) l ≡ some false
replicate-get zero l h = absurd (omega (arith, h))
replicate-get (suc n) zero h = refl
replicate-get (suc n) (suc l) h = replicate-get n l (omega (arith, h))

-- In a valid store, for an edge of the function `p` and arguments that are edges to inner nodes
-- of the literals' levels with the literals' values, `eval_edge` returns the value of `p` where
-- every level has the value of its last literal, or false if it has none.
pub eval_edge-eval :
    (s : Store) (e : Edge) (p : BoolFn) (args : List (Edge × Bool)) (ls : Literals)
    → IsValid s
    → IsFun s 0 e p
    → ArgsAt s args ls
    → eval_edge s e args ≡ ok (p (given ls (λ _. false)))
unfolding eval_edge
eval_edge-eval s e p args ls v f a =
    let (vs, run, h) =
      set_values-Holds args ls (replicate (num_levels s) false) (λ _. false) v a
        (record {
          size = length-replicate (num_levels s) false;
          value = replicate-get (num_levels s);
        }) in
    rw (run, eval_edge)
      (eval_inner-eval (suc (num_levels s)) 0 f.tree e v f.rep f.ordered h (omega arith)
          (omega arith)
        ∙ ap ok (f.computes (given ls (λ _. false))))
