-- ===== src/Simple/Pick/Cubes.antt =====
-- What `pick_cube_edge` of crates/oxidd-rules-bdd/src/simple/apply_rec.rs picks.
use oxidd.Prelude.{
  ℕ, zero, suc, ◌+◌, ◌≤◌, ◌<◌, ◌≡◌, ◌≢◌, ◌∙◌, ap, sym, refl, subst, Bool, true, false, Option, none,
  some, List, [], arith, ltb, Bool-cases, inl, inr, length, get_elem?, set, length-set,
  get_elem?-set_self, get_elem?-set_ne, replicate, length-replicate,
}
use mathlib.Core.Bool.{true≢false}
use oxidd.Outcome.{Result, ok, err}
use oxidd.Tree.{Tree, leaf, node, Assignment, BoolFn, eval, IsOrdered}
use oxidd.Manager.{Edge, InnerNode, terminal, Store, get_node, num_levels}
use oxidd.Manager.Valid.{IsValid}
use oxidd.Represents.{Rep, IsFun}
use oxidd.Simple.Pick.{Choice, is_terminal, picked, child, pick_inner, in_order, pick_cube_edge}

-- An assignment that the cube allows.
abbrev pub Allows : List (Option Bool) → Assignment → Type 0
Allows cube r = (l : ℕ) (b : Bool) → get_elem? cube l ≡ some (some b) → r l ≡ b

-- What is picked: a cube whose assignments all satisfy the function, or none if it is not satisfiable.
abbrev pub Picks : ℕ → BoolFn → Result (Option (List (Option Bool))) → Type 0
Picks levels p (ok (some cube)) =
    (length cube ≡ levels) × ((r : Assignment) → Allows cube r → p r ≡ true)
Picks levels p (ok none) = (r : Assignment) → p r ≡ false
Picks levels p (err e) = ⊥

abbrev pub branch_of : Tree → Tree → Bool → Tree
branch_of t u true = t
branch_of t u false = u

pub eval-branch_of :
    (l : ℕ) (t u : Tree) (c : Bool) (r : Assignment)
    → r l ≡ c
    → eval (branch_of t u c) r ≡ true
    → eval (node l t u) r ≡ true
eval-branch_of l t u true r h k = rw h k
eval-branch_of l t u false r h k = rw h k

pub branch_of-IsOrdered :
    (lo l : ℕ) (t u : Tree) (c : Bool)
    → IsOrdered lo (node l t u)
    → IsOrdered (suc l) (branch_of t u c)
branch_of-IsOrdered lo l t u true o = o.1
branch_of-IsOrdered lo l t u false o = o.2

-- The cube grows below the level `lo`, until it satisfies the tree.
abbrev pub Completes : ℕ → Tree → List (Option Bool) → Result (List (Option Bool)) → Type 0
Completes lo t cube (ok c) =
    (length c ≡ length cube)
    × ((l : ℕ) → l < lo → get_elem? c l ≡ get_elem? cube l)
    × ((r : Assignment) → Allows c r → eval t r ≡ true)
Completes lo t cube (err e) = ⊥

-- The value picked at a level, and the cube picked below it.
Completes-set :
    (lo l : ℕ) (t u : Tree) (c : Bool) (cube : List (Option Bool)) (r : Result (List (Option Bool)))
    → lo ≤ l
    → l < length cube
    → Completes (suc l) (branch_of t u c) (set cube l (some c)) r
    → Completes lo (node l t u) cube r
Completes-set lo l t u c cube (ok d) above inside (size, kept, sat) = (
  size ∙ length-set cube l (some c),
  λ k h. kept k (omega arith) ∙ get_elem?-set_ne cube {i = l} {j = k} (some c) (λ e. omega arith),
  λ r h.
      eval-branch_of l t u c r
        (h l c (kept l (omega arith) ∙ get_elem?-set_self cube l (some c) inside)) (sat r h),
)
Completes-set lo l t u c cube (err e) above inside h = absurd h

module _ (s : Store) where
  pub is_false :
      (e : Edge) (t : Tree) → Rep s e t → is_terminal (get_node s e) false ≡ true → t ≡ leaf false
  is_false e (leaf true) h k = absurd (true≢false (sym k ∙ ap (λ n. is_terminal n false) h))
  is_false e (leaf false) h k = refl
  is_false e (node l t u) (n, h, _, _, _) k =
      absurd (true≢false (sym k ∙ ap (λ n. is_terminal n false) h))

  pub not_false :
      (e : Edge) (t : Tree) → Rep s e t → is_terminal (get_node s e) false ≡ false → t ≢ leaf false
  not_false e t h k same =
      let at : get_node s e ≡ some (terminal false) = subst (Rep s e) same h in
      true≢false (ap (λ n. is_terminal n false) (sym at) ∙ k)

  pub branch_of-Rep :
      (n : InnerNode) (t u : Tree) (c : Bool)
      → Rep s n.child0 t
      → Rep s n.child1 u
      → Rep s (child n c) (branch_of t u c)
  branch_of-Rep n t u true a b = a
  branch_of-Rep n t u false a b = b

  -- The child that is picked is not ⊥.
  pub picked_open :
      (choice : Choice) (e : Edge) (n : InnerNode) (t u : Tree)
      → Rep s n.child0 t
      → Rep s n.child1 u
      → t ≢ u
      → branch_of t u (picked s choice e n) ≢ leaf false
  unfolding picked
  picked_open choice e n t u a b apart =
      elim (Bool-cases (is_terminal (get_node s n.child0) false)) [
        | inl h ↦ rw h (λ same. apart (is_false n.child0 t a h ∙ sym same))
        | inr h ↦ elim (Bool-cases (is_terminal (get_node s n.child1) false)) [
          | inl k ↦ rw (h, k) (not_false n.child0 t a h)
          | inr k ↦
              rw (h, k)
                (chosen (choice e n.level) (not_false n.child0 t a h) (not_false n.child1 u b k))
        ]
      ]
    where
      chosen : (c : Bool) → t ≢ leaf false → u ≢ leaf false → branch_of t u c ≢ leaf false
      chosen true x y = x
      chosen false x y = y

  pick_inner-Completes :
      (choice : Choice) (k lo : ℕ) (e : Edge) (t : Tree) (cube : List (Option Bool))
      → IsValid s
      → Rep s e t
      → IsOrdered lo t
      → t ≢ leaf false
      → length cube ≡ num_levels s
      → lo ≤ num_levels s
      → num_levels s < k + lo
      → Completes lo t cube (pick_inner k s choice e cube)
  unfolding pick_inner
  pick_inner-Completes choice zero lo e t cube v rep o live size bound enough = absurd (omega arith)
  pick_inner-Completes choice (suc k) lo e (leaf true) cube v rep o live size bound enough =
      rw (rep, pick_inner) (refl, λ l h. refl, λ r h. refl)
  pick_inner-Completes choice (suc k) lo e (leaf false) cube v rep o live size bound enough =
      absurd (live refl)
  pick_inner-Completes choice (suc k') lo e (node l t u) cube v (n, at, level, a, b) o live size
        bound enough =
      let below = (v.stored e n at).below in
      let c = picked s choice e n in
      let fits : ltb n.level (length cube) ≡ true = ground arith in
      let again =
        pick_inner-Completes choice k' (suc l) (child n c) (branch_of t u c)
          (set cube n.level (some c)) v (branch_of-Rep n t u c a b)
          (branch_of-IsOrdered lo l t u c o) (picked_open choice e n t u a b o.3)
          (length-set cube n.level (some c) ∙ size) (omega (arith, level)) (omega (arith, o.0)) in
      rw (at, pick_inner, fits)
        (subst
          (λ k.
            Completes lo (node l t u) cube
              (pick_inner k' s choice (child n c) (set cube k (some c))))
          (sym level)
          (Completes-set lo l t u c cube _ o.0 (omega (arith, level, below, size)) (
            subst
              (λ k.
                Completes (suc l) (branch_of t u c) (set cube k (some c))
                  (pick_inner k' s choice (child n c) (set cube k (some c))))
              level again)))

  -- With no order given, `pick_cube_edge` on an edge of the function `p` picks none exactly if `p` is
  -- not satisfiable, and else a cube, a value or don't care for each level, whose assignments all
  -- satisfy `p`, whatever the choice function answers.
  pub pick_cube_edge-Picks :
      (choice : Choice) (e : Edge) (p : BoolFn)
      → IsValid s
      → IsFun s 0 e p
      → Picks (num_levels s) p (pick_cube_edge s choice e [])
  unfolding pick_cube_edge
  pick_cube_edge-Picks choice e p v f = picks f.tree f.rep f.ordered f.computes
    where
      whole :
          (t : Tree) (r : Result (List (Option Bool)))
          → ((r : Assignment) → eval t r ≡ p r)
          → Completes 0 t (replicate (num_levels s) none) r
          → Picks (num_levels s) p (elim r [ err e ↦ err e | ok cube ↦ in_order s [] cube ])
      whole t (ok c) same (size, kept, sat) =
          (size ∙ length-replicate (num_levels s) none, λ r h. sym (same r) ∙ sat r h)
      whole t (err e) same h = absurd h

      picks :
          (t : Tree)
          → Rep s e t
          → IsOrdered 0 t
          → ((r : Assignment) → eval t r ≡ p r)
          → Picks (num_levels s) p (pick_cube_edge s choice e [])
      picks (leaf true) h o same =
          rw (h, pick_cube_edge) (length-replicate (num_levels s) none, λ r _. sym (same r))
      picks (leaf false) h o same = rw (h, pick_cube_edge) (λ r. sym (same r))
      picks (node l t u) (n, h, k, a, b) o same =
          rw (h, pick_cube_edge)
            (whole (node l t u)
              (pick_inner (suc (num_levels s)) s choice e (replicate (num_levels s) none)) same
              (pick_inner-Completes choice (suc (num_levels s)) 0 e (node l t u)
                (replicate (num_levels s) none) v (n, h, k, a, b) o (λ e. absurd (cc))
                (length-replicate (num_levels s) none) (omega arith) (omega arith)))
