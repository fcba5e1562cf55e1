-- ===== src/Tests/Simple.antt =====
-- The theorems on simple binary decision diagrams, at the state with two variables.
use oxidd.Manager.{num_levels}
use oxidd.Prelude.{ℕ, ◌≡◌, refl, true, false, some, [], ◌∷◌, arith, ◌↔◌, not}
use oxidd.Tree.{Assignment}
use oxidd.Outcome.{ok}
use oxidd.Manager.{get_or_insert, add_level}
use oxidd.Manager.Insert.{Inserts, get_or_insert-Inserts}
use oxidd.Manager.Levels.{Grows, add_level-Grows}
use oxidd.Represents.{IsFun-zero, IsFun-ext, edge_equality}
use oxidd.Simple.{and, or, nand, nor, xor, equiv, imp, imp_strict, terminal_bin, Operation}
use oxidd.Simple.Apply.{on_store}
use oxidd.Simple.Meaning.{bin, apply2, negated, choose, quantify}
use oxidd.Simple.Terminal.{Fits, terminal_bin-Fits}
use oxidd.Simple.Functions.{
  new_var, not_edge, and_edge, or_edge, nand_edge, nor_edge, xor_edge, equiv_edge, imp_edge,
  imp_strict_edge, ite_edge, eval_edge,
}
use oxidd.Simple.Functions.Connectives.{Makes, connectives-Makes, ite_edge-Makes}
use oxidd.Simple.Functions.Variables.{MakesVar, new_var-MakesVar, variable}
use oxidd.Simple.Functions.Evaluation.{eval_edge-eval}
use oxidd.Simple.Functions.Quantifiers.{
  op_imp, forall_edge, exist_edge, unique_edge, apply_forall_edge, apply_exist_edge,
  apply_unique_edge, table, quantifiers-Makes, apply_quantifiers-Makes,
}
use oxidd.Simple.Substitute.{apply_substitute, composed, apply_substitute-Ensures}
use oxidd.Simple.Ensures.{Ensures}
use oxidd.Simple.Functions.Quantifiers.{restrict_edge, restrict_edge-Makes}
use oxidd.Simple.Restrict.Inner.{restricted}
use oxidd.Represents.{IsFun}
use oxidd.Prelude.{suc}
use oxidd.Represents.{get_terminal-IsFun}
use oxidd.Manager.{get_terminal}
use oxidd.Simple.Apply.{apply_bin, St}
use oxidd.Simple.Reachable.{Reaches, here, next, applies, negates, Preserves, Reaches-Preserves}
use oxidd.Tests.Program.{
  upper_set, exchanges, cache, swapped, s2, levels2, valid2, upper, lower, upper_node, lower_node,
  at_upper, at_lower, truth,
}

connectives_example :
    Makes cache swapped s2 (not_edge cache 2 s2) (negated (variable 0))
    × Makes cache swapped s2 (and_edge cache 2 3 s2) (apply2 (bin and) (variable 0) (variable 1))
    × Makes cache swapped s2 (or_edge cache 2 3 s2) (apply2 (bin or) (variable 0) (variable 1))
    × Makes cache swapped s2 (nand_edge cache 2 3 s2) (apply2 (bin nand) (variable 0) (variable 1))
    × Makes cache swapped s2 (nor_edge cache 2 3 s2) (apply2 (bin nor) (variable 0) (variable 1))
    × Makes cache swapped s2 (xor_edge cache 2 3 s2) (apply2 (bin xor) (variable 0) (variable 1))
    × Makes cache swapped s2
        (equiv_edge cache 2 3 s2)
        (apply2 (bin equiv) (variable 0) (variable 1))
    × Makes cache swapped s2 (imp_edge cache 2 3 s2) (apply2 (bin imp) (variable 0) (variable 1))
    × Makes cache swapped s2
        (imp_strict_edge cache 2 3 s2)
        (apply2 (bin imp_strict) (variable 0) (variable 1))
connectives_example =
    connectives-Makes cache swapped s2 2 3 (variable 0) (variable 1) valid2 upper (IsFun-zero lower)

ite_edge_example :
    Makes cache swapped s2 (ite_edge cache 2 3 1 s2) (choose (variable 0) (variable 1) (λ _. true))
ite_edge_example =
    ite_edge-Makes cache swapped s2 2 3 1 (variable 0) (variable 1) (λ _. true) valid2 upper
      (IsFun-zero lower) truth

new_var_example : MakesVar cache swapped s2 (on_store new_var s2)
new_var_example = new_var-MakesVar cache swapped s2 valid2 (rw levels2 (omega arith))

edge_equality_example : (◌≡◌ {A = ℕ} 2 2) ↔ ((r : Assignment) → r 0 ≡ not (not (r 0)))
edge_equality_example =
    edge_equality s2.store 2 2 (variable 0) (λ r. not (not (r 0))) valid2.store_valid upper
      (IsFun-ext upper (λ r. ground arith))

eval_edge_example : eval_edge s2.store 2 ((2, true) ∷ (3, false) ∷ []) ≡ ok true
eval_edge_example =
    eval_edge-eval s2.store 2 (variable 0) ((2, true) ∷ (3, false) ∷ [])
      ((0, true) ∷ (1, false) ∷ []) valid2.store_valid upper
      (upper_node, at_upper, refl, refl, (lower_node, at_lower, refl, refl, tt))

add_level_example :
    Grows s2.store
      (λ l. record { level = l; child0 = 0; child1 = 1 })
      (add_level (λ l. record { level = l; child0 = 0; child1 = 1 }) s2.store)
add_level_example =
    add_level-Grows s2.store (λ l. record { level = l; child0 = 0; child1 = 1 }) valid2.store_valid
      (rw levels2 (omega arith)) (λ l. refl) (λ l h. absurd (omega (arith, h)))

get_or_insert_example :
    Inserts s2.store
      (record { level = 0; child0 = 3; child1 = 0 })
      (get_or_insert 0 (record { level = 0; child0 = 3; child1 = 0 }) s2.store)
get_or_insert_example =
    get_or_insert-Inserts s2.store (record { level = 0; child0 = 3; child1 = 0 }) valid2.store_valid
      (rw levels2 (omega arith)) (λ h. absurd (omega (arith, h)))

terminal_bin_example :
    (o : Operation) × (terminal_bin s2.store and 2 3 ≡ some o)
    × Fits s2.store 0 and 2 3 (variable 0) (variable 1) o
terminal_bin_example = terminal_bin-Fits and valid2.store_valid refl upper (IsFun-zero lower)

quantifiers_example :
    Makes cache swapped s2 (forall_edge cache 3 2 s2) (quantify (bin and) (0 ∷ []) (variable 1))
    × Makes cache swapped s2 (exist_edge cache 3 2 s2) (quantify (bin or) (0 ∷ []) (variable 1))
    × Makes cache swapped s2 (unique_edge cache 3 2 s2) (quantify (bin xor) (0 ∷ []) (variable 1))
quantifiers_example =
    quantifiers-Makes cache swapped s2 3 2 (variable 1) (0 ∷ []) valid2 (IsFun-zero lower) upper_set

apply_quantifiers_example :
    Makes cache swapped s2
      (apply_forall_edge cache op_imp 2 3 2 s2)
      (quantify (bin and) (0 ∷ []) (apply2 (table op_imp) (variable 0) (variable 1)))
    × Makes cache swapped s2
        (apply_exist_edge cache op_imp 2 3 2 s2)
        (quantify (bin or) (0 ∷ []) (apply2 (table op_imp) (variable 0) (variable 1)))
    × Makes cache swapped s2
        (apply_unique_edge cache op_imp 2 3 2 s2)
        (quantify (bin xor) (0 ∷ []) (apply2 (table op_imp) (variable 0) (variable 1)))
apply_quantifiers_example =
    apply_quantifiers-Makes cache swapped s2 op_imp 2 3 2 (variable 0) (variable 1) (0 ∷ []) valid2
      upper (IsFun-zero lower) upper_set

substitute_example :
    Ensures cache swapped s2
      (apply_substitute cache 3 (3 ∷ 2 ∷ []) 5 2 s2)
      (λ h t. IsFun t 0 h (composed swapped 5 (variable 0)))
substitute_example =
    apply_substitute-Ensures cache swapped 3 0 s2 2 (variable 0) 5 (3 ∷ 2 ∷ []) valid2
      (record { level = omega arith; fuel = rw levels2 (omega arith) }) exchanges upper

restrict_edge_example :
    Makes cache swapped s2 (restrict_edge cache 2 2 s2) (restricted ((0, true) ∷ []) (variable 0))
restrict_edge_example =
    restrict_edge-Makes cache swapped s2 2 2 (variable 0) ((0, true) ∷ []) valid2 upper upper_set

abbrev after_xor : St cache
after_xor = (apply_bin cache (suc (num_levels s2.store)) xor 2 3 s2).1

abbrev after_not : St cache
after_not = (not_edge cache (get_terminal true) after_xor).1

calls : Reaches cache s2 after_not
calls =
    next (next here (applies s2 xor 2 3 (variable 0) (variable 1) refl upper (IsFun-zero lower))) (
      negates after_xor (get_terminal true) (λ _. true) (get_terminal-IsFun after_xor.store 0 true))

calls_example : Preserves cache swapped s2 after_not
calls_example = Reaches-Preserves cache swapped calls valid2
