-- ===== src/Simple/Pick/Symbolic.antt =====
-- What `pick_cube_symbolic_edge` of crates/oxidd-rules-bdd/src/simple/apply_rec.rs picks.
use oxidd.Prelude.{
  ℕ, zero, suc, ◌+◌, ◌≤◌, ◌<◌, ◌≡◌, ◌≢◌, ◌∙◌, sym, refl, subst, Bool, true, false, some, [], ◌∷◌,
  arith, if◌then◌else◌, Bool-cases, ◌⊎◌, inl, inr,
}
use oxidd.Outcome.{Result, ok, err, panic, out_of_fuel, out_of_memory, and_then}
use oxidd.Tree.{Tree, leaf, node, Assignment, BoolFn, eval, IsOrdered}
use oxidd.Manager.{Edge, InnerNode, inner, terminal, Store, get_node, get_terminal, num_levels}
use oxidd.Manager.Valid.{Extends, Extends-refl, Extends-trans, IsValid, IsFull}
use oxidd.Manager.Insert.{Inserts, get_or_insert-Inserts}
use oxidd.Represents.{Rep, Rep-Keeps, Rep-functional, IsFun, get_node-get_terminal}
use oxidd.Simple.Meaning.{Literals, cube_tree, IsCube}
use oxidd.Simple.Pick.{
  Choice, is_terminal, picked, child, cube_node, symbolic_inner, pick_cube_symbolic_edge,
}
use oxidd.Simple.Pick.Cubes.{branch_of, branch_of-Rep, branch_of-IsOrdered, picked_open, is_false}

-- The result is the conjunction of literals, in a store that keeps all it had.
pub record Picked (s : Store) (lo : ℕ) (t : Tree) (h : Edge) (u : Store) : Type 0 where
  literals : Literals
  extends : Extends s u
  valid : IsValid u
  cube : IsCube u lo h literals
  implies : (r : Assignment) → eval (cube_tree literals) r ≡ true → eval t r ≡ true

abbrev pub PicksCube : Store → ℕ → Tree → Result Edge × Store → Type 0
PicksCube s lo t (ok h, u) = Picked s lo t h u
PicksCube s lo t (err out_of_memory, u) = Extends s u × IsValid u × IsFull u
PicksCube s lo t (err e, u) = ⊥

cube_tree_open : (ls : Literals) → cube_tree ls ≢ leaf false
cube_tree_open [] e = absurd (cc)
cube_tree_open ((l, true) ∷ ls) e = absurd (cc)
cube_tree_open ((l, false) ∷ ls) e = absurd (cc)

-- The children of the node of a picked literal.
abbrev literal_node : ℕ → Bool → Edge → InnerNode
literal_node l c sub = record {
  level = l;
  child0 = if c then sub else get_terminal false;
  child1 = if c then get_terminal false else sub;
}

literal-IsCube :
    {u : Store} {lo l : ℕ} {h : Edge} (sub : Edge) (c : Bool) (ls : Literals)
    → lo ≤ l
    → Rep u sub (cube_tree ls)
    → IsOrdered (suc l) (cube_tree ls)
    → get_node u h ≡ some (inner (literal_node l c sub))
    → IsCube u lo h ((l, c) ∷ ls)
literal-IsCube {u} sub true ls above rep o at = record {
  rep = (literal_node _ true sub, at, refl, rep, get_node-get_terminal u false);
  ordered = (above, o, tt, cube_tree_open ls);
}
literal-IsCube {u} sub false ls above rep o at = record {
  rep = (literal_node _ false sub, at, refl, get_node-get_terminal u false, rep);
  ordered = (above, tt, o, λ e. cube_tree_open ls (sym e));
}

eval-cube_tree :
    (l : ℕ) (c : Bool) (ls : Literals) (t u : Tree) (r : Assignment)
    → (eval (cube_tree ls) r ≡ true → eval (branch_of t u c) r ≡ true)
    → eval (cube_tree ((l, c) ∷ ls)) r ≡ true
    → eval (node l t u) r ≡ true
eval-cube_tree l true ls t u r h k = ground arith
eval-cube_tree l false ls t u r h k = ground arith

apart :
    (c : Bool) (sub : Edge) (l : ℕ)
    → sub ≢ get_terminal false
    → (literal_node l c sub).child0 ≢ (literal_node l c sub).child1
apart true sub l h = h
apart false sub l h = λ e. h (sym e)

cube_node-PicksCube :
    {s u : Store} {lo : ℕ} (l : ℕ) (c : Bool) (sub : Edge) (t t' : Tree)
    → lo ≤ l
    → l < num_levels u
    → Picked s (suc l) (branch_of t t' c) sub u
    → PicksCube s lo (node l t t') (cube_node l c sub u)
unfolding cube_node
cube_node-PicksCube {s} {u} {lo} l c sub t t' above below p =
    elim (Bool-cases (is_terminal (get_node u sub) false)) [
      | inl h ↦
          absurd (cube_tree_open p.literals (is_false u sub (cube_tree p.literals) p.cube.rep h))
      | inr h ↦
          let ne : sub ≢ get_terminal false = λ e. cube_tree_open p.literals (
            Rep-functional u sub (cube_tree p.literals) (leaf false) p.cube.rep (
              subst (λ k. get_node u k ≡ some (terminal false)) (sym e)
                (get_node-get_terminal u false))) in
          rw h (
            inserted
              (get_or_insert-Inserts u (literal_node l c sub) p.valid below (apart c sub l ne)))
    ]
  where
    inserted :
        {r : Result Edge × Store}
        → Inserts u (literal_node l c sub) r
        → PicksCube s lo (node l t t') r
    inserted (inl (h, w, run, x, v, at)) = subst (PicksCube s lo (node l t t')) (sym run) record {
      literals = (l, c) ∷ p.literals;
      extends = Extends-trans p.extends x;
      valid = v;
      cube =
          literal-IsCube sub c p.literals above
            (Rep-Keeps sub (cube_tree p.literals) x.keeps p.cube.rep) p.cube.ordered at;
      implies = λ r k. eval-cube_tree l c p.literals t t' r (p.implies r) k;
    }
    inserted (inr (run, full)) =
        subst (PicksCube s lo (node l t t')) (sym run) (p.extends, p.valid, full)

symbolic_inner-PicksCube :
    (choice : Choice) (k lo : ℕ) (e : Edge) (t : Tree) (s : Store)
    → IsValid s
    → Rep s e t
    → IsOrdered lo t
    → t ≢ leaf false
    → lo ≤ num_levels s
    → num_levels s < k + lo
    → PicksCube s lo t (symbolic_inner k choice e s)
unfolding symbolic_inner
symbolic_inner-PicksCube choice zero lo e t s v rep o live bound enough = absurd (omega arith)
symbolic_inner-PicksCube choice (suc k) lo e (leaf true) s v rep o live bound enough =
    rw (rep, symbolic_inner)
      (record {
        literals = [];
        extends = Extends-refl s;
        valid = v;
        cube = record { rep = rep; ordered = tt };
        implies = λ r h. refl;
      })
symbolic_inner-PicksCube choice (suc k) lo e (leaf false) s v rep o live bound enough =
    absurd (live refl)
symbolic_inner-PicksCube choice (suc k) lo e (node l t t') s v (n, at, level, a, b) o live bound
      enough =
    let below = (v.stored e n at).below in
    let c = picked s choice e n in
    rw (at, symbolic_inner)
      (below_child (symbolic_inner k choice (child n c) s) (
        symbolic_inner-PicksCube choice k (suc l) (child n c) (branch_of t t' c) s v
          (branch_of-Rep s n t t' c a b) (branch_of-IsOrdered lo l t t' c o)
          (picked_open s choice e n t t' a b o.3) (omega (arith, level)) (omega (arith, o.0))))
  where
    below_child :
        (r : Result Edge × Store)
        → PicksCube s (suc l) (branch_of t t' (picked s choice e n)) r
        → PicksCube s lo
            (node l t t')
            (and_then r.0 r.1 (λ sub. cube_node n.level (picked s choice e n) sub))
    below_child (ok sub, u) p =
        subst (λ m. PicksCube s lo (node l t t') (cube_node m (picked s choice e n) sub u))
          (sym level)
          (cube_node-PicksCube l (picked s choice e n) sub t t' o.0
            (omega (arith, p.extends.levels, level, (v.stored e n at).below)) p)
    below_child (err out_of_memory, u) p = p
    below_child (err panic, u) p = absurd p
    below_child (err out_of_fuel, u) p = absurd p

-- Every outcome of a symbolic choice.
abbrev pub PicksSymbolic : Store → BoolFn → Edge → Result Edge × Store → Type 0
PicksSymbolic s p e (ok h, u) =
    ((h ≡ e) × (u ≡ s) × ((r : Assignment) → p r ≡ false))
    ⊎ ((ls : Literals) × Extends s u
        × IsValid u
        × IsCube u 0 h ls
        × ((r : Assignment) → eval (cube_tree ls) r ≡ true → p r ≡ true))
PicksSymbolic s p e (err out_of_memory, u) = Extends s u × IsValid u × IsFull u
PicksSymbolic s p e (err x, u) = ⊥

symbolic_result :
    (s : Store) (e : Edge) {p : BoolFn} (t : Tree) (r : Result Edge × Store)
    → ((r : Assignment) → eval t r ≡ p r)
    → PicksCube s 0 t r
    → PicksSymbolic s p e r
symbolic_result s e t (ok h, u) same k =
    inr (k.literals, k.extends, k.valid, k.cube, λ r m. sym (same r) ∙ k.implies r m)
symbolic_result s e t (err out_of_memory, u) same k = k
symbolic_result s e t (err panic, u) same k = k
symbolic_result s e t (err out_of_fuel, u) same k = k

-- `pick_cube_symbolic_edge` on an edge of the function `p` of a valid store returns the edge itself
-- if `p` is not satisfiable; else it returns the conjunction of literals each assignment of which
-- satisfies `p`, in a valid store that keeps all it had, or reports that the store is full.
pub pick_cube_symbolic_edge-PicksSymbolic :
    (choice : Choice) (e : Edge) (p : BoolFn) (s : Store)
    → IsValid s
    → IsFun s 0 e p
    → PicksSymbolic s p e (pick_cube_symbolic_edge choice e s)
unfolding pick_cube_symbolic_edge symbolic_inner
pick_cube_symbolic_edge-PicksSymbolic choice e p s v f = picks f.tree f.rep f.ordered f.computes
  where
    picks :
        (t : Tree)
        → Rep s e t
        → IsOrdered 0 t
        → ((r : Assignment) → eval t r ≡ p r)
        → PicksSymbolic s p e (symbolic_inner (suc (num_levels s)) choice e s)
    picks (leaf false) h o same = rw (h, symbolic_inner) (inl (refl, refl, λ r. sym (same r)))
    picks (leaf true) h o same =
        symbolic_result s e (leaf true) (symbolic_inner (suc (num_levels s)) choice e s) same (
          symbolic_inner-PicksCube choice (suc (num_levels s)) 0 e (leaf true) s v h o
            (λ k. absurd (cc)) (omega arith) (omega arith))
    picks (node l t u) h o same =
        symbolic_result s e (node l t u) (symbolic_inner (suc (num_levels s)) choice e s) same (
          symbolic_inner-PicksCube choice (suc (num_levels s)) 0 e (node l t u) s v h o
            (λ k. absurd (cc)) (omega arith) (omega arith))
