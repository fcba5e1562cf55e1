-- ===== src/Tests/Program.antt =====
-- A simple binary decision diagram manager after two new variables.
use oxidd.Prelude.{suc, ◌≡◌, refl, subst, true, inl, inr, arith, some}
use oxidd.Prelude.{if◌then◌else◌, ◌==◌, ◌∷◌, [], get_elem?, zero, ℕ}
use oxidd.Tree.{BoolFn}
use oxidd.Outcome.{Result, ok}
use oxidd.Manager.{
  Edge, InnerNode, get_node, inner, new_store, num_levels, place, add_node, push_level, add_level,
  get_terminal,
}
use oxidd.Represents.{IsFun, IsFun-zero, get_terminal-IsFun}
use oxidd.Cache.{ApplyCache}
use oxidd.Cache.Direct.{new_entry}
use oxidd.Simple.{BddOp}
use oxidd.Simple.Apply.{St, on_store}
use oxidd.Simple.Meaning.{Substitutions, IsCube, positive}
use oxidd.Simple.Ensures.{IsValidState}
use oxidd.Simple.Functions.{new_var, var_node}
use oxidd.Simple.Functions.Variables.{MakesVar, new_var-MakesVar, variable}
use oxidd.Simple.Substitute.{Replaces}
use mathlib.Core.Option.{some-injective}
use oxidd.Simple.Start.{simple_cache, new_state, new_state-IsValidState}

abbrev pub cache : ApplyCache BddOp
cache = simple_cache (λ op es. 0)

-- Every substitution exchanges the two variables.
abbrev pub swapped : Substitutions
swapped id l r = if l == 0 then r 1 else if l == 1 then r 0 else r l

-- What `new_var` gave, once it is known to have returned.
record Made (s : St cache) (e : Edge) (t : St cache) : Type 0 where
  pub valid : IsValidState cache swapped t
  pub levels : num_levels t.store ≡ suc (num_levels s.store)
  pub keeps : (f : Edge) (p : BoolFn) → IsFun s.store 0 f p → IsFun t.store 0 f p
  pub is_variable : IsFun t.store (num_levels s.store) e (variable (num_levels s.store))

Made-MakesVar :
    {s : St cache} {r : Result Edge × St cache} (e : Edge)
    → MakesVar cache swapped s r
    → r.0 ≡ ok e
    → Made s e r.1
Made-MakesVar {s} {r} e (inl (e', t, run, v, l, k, f)) h =
    let same : t ≡ r.1 = cc run in
    let edge : e' ≡ e = cc (run, h) in
    subst (Made s e) same (record { valid = v; levels = l; keeps = k; is_variable = rw (← edge) f })
Made-MakesVar e (inr (run, full)) h = cc

abbrev pub s0 : St cache
s0 = new_state (λ op es. 0) 16 4

abbrev pub s1 : St cache
s1 = (on_store new_var s0).1

abbrev pub s2 : St cache
s2 = (on_store new_var s1).1

program : Unit {0}
unfolding get_node new_store new_entry on_store new_var var_node add_level add_node place push_level
    get_terminal
program = tt

levels0 : num_levels s0.store ≡ 0
unfolding program
levels0 = refl

runs1 : (on_store new_var s0).0 ≡ ok 2
unfolding program
runs1 = refl

runs2 : (on_store new_var s1).0 ≡ ok 3
unfolding program
runs2 = refl

pub levels1 : num_levels s1.store ≡ 1
unfolding program
levels1 = refl

pub levels2 : num_levels s2.store ≡ 2
unfolding program
levels2 = refl

pub valid0 : IsValidState cache swapped s0
valid0 = new_state-IsValidState (λ op es. 0) swapped 16 4

made1 : Made s0 2 s1
made1 = Made-MakesVar 2 (new_var-MakesVar cache swapped s0 valid0 (rw levels0 (omega arith))) runs1

made2 : Made s1 3 s2
made2 =
    Made-MakesVar 3 (new_var-MakesVar cache swapped s1 made1.valid (rw levels1 (omega arith))) runs2

pub valid2 : IsValidState cache swapped s2
valid2 = made2.valid

-- Edge 2 is the upper variable, edge 3 the lower one.
pub upper : IsFun s2.store 0 2 (variable 0)
upper =
    made2.keeps 2 (variable 0)
      (subst (λ k. IsFun s1.store k 2 (variable k)) levels0 made1.is_variable)

pub lower : IsFun s2.store 1 3 (variable 1)
lower = subst (λ k. IsFun s2.store k 3 (variable k)) levels1 made2.is_variable

abbrev pub upper_node : InnerNode
upper_node = record { level = 0; child0 = 1; child1 = 0 }

abbrev pub lower_node : InnerNode
lower_node = record { level = 1; child0 = 1; child1 = 0 }

pub at_upper : get_node s2.store 2 ≡ some (inner upper_node)
unfolding program
at_upper = refl

pub at_lower : get_node s2.store 3 ≡ some (inner lower_node)
unfolding program
at_lower = refl

-- The edge of ⊤.
pub truth : IsFun s2.store 0 1 (λ _. true)
unfolding get_terminal
truth = get_terminal-IsFun s2.store 0 true

-- Edge 2 as the set of the upper variable.
pub upper_set : IsCube s2.store 0 2 (positive (0 ∷ []))
unfolding get_node
upper_set = record {
  rep = (upper_node, at_upper, refl, refl, refl);
  ordered = (omega arith, tt, tt, λ h. cc h);
}

-- The two variables in the other order are the replacements.
pub exchanges : Replaces s2.store swapped 5 (3 ∷ 2 ∷ [])
exchanges = record { at = found; beyond = λ l r h. ground (arith, h) }
  where
    found :
        (l : ℕ) (e : Edge) → get_elem? (3 ∷ 2 ∷ []) l ≡ some e → IsFun s2.store 0 e (swapped 5 l)
    found zero e h =
        subst (λ k. IsFun s2.store 0 k (variable 1)) (some-injective 3 e h) (IsFun-zero lower)
    found (suc zero) e h = subst (λ k. IsFun s2.store 0 k (variable 0)) (some-injective 2 e h) upper
    found (suc (suc l)) e h = cc h
