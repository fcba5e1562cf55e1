-- ===== src/Tests/Choices.antt =====
-- Runs of counting, picking and preparing a substitution, at the state with two variables.
use oxidd.Prelude.{ℕ, ◌+◌, ◌-◌, ◌*◌, ◌/◌, true, false, [], arith, refl}
use oxidd.Table.Mask.{double}
use oxidd.Manager.{num_levels}
use oxidd.Simple.Count.{SatCountNumber, SatCountCache, sat_count_edge}
use oxidd.Simple.Count.Models.{models}
use oxidd.Simple.Count.Laws.{IsExact, Counts, sat_count_edge-Counts}
use oxidd.Simple.Functions.Variables.{variable}
use oxidd.Simple.Pick.{Choice, pick_cube_edge, pick_cube_symbolic_edge}
use oxidd.Simple.Pick.Cubes.{Picks, pick_cube_edge-Picks}
use oxidd.Simple.Pick.Symbolic.{PicksSymbolic, pick_cube_symbolic_edge-PicksSymbolic}
use oxidd.Tree.{Assignment, leaf}
use oxidd.Manager.{get_node}
use oxidd.Represents.{Rep, IsFun-zero}
use oxidd.Simple.Functions.Connectives.{Makes}
use oxidd.Simple.Substitute.{composed}
use oxidd.Simple.Prepare.{substitute_edge}
use oxidd.Simple.Prepare.Collect.{PairsAt}
use oxidd.Simple.Prepare.Results.{substitute_edge-Makes}
use oxidd.Prelude.{Has, zero, suc, inl, inr, ◌∷◌, ◌≡◌}
use oxidd.Tests.Program.{
  cache, swapped, lower, upper_node, lower_node, at_upper, at_lower, s2, levels2, valid2, upper,
}

abbrev big : SatCountNumber ℕ
big = record {
  from = λ k. k;
  add = λ a b. a + b;
  shl = λ a k. a * double k;
  shr = λ a k. a / double k;
}

big-IsExact : IsExact big
big-IsExact = record {
  value = λ n. n;
  from = λ k. refl;
  add = λ a b. refl;
  shl = λ a k. refl;
  shr = λ a k. refl;
}

abbrev no_counts : SatCountCache ℕ
no_counts = record { map = []; vars = 0; epoch = 0 }

-- Three variables, of which the third has no level.
sat_count_example :
    Counts big-IsExact s2.store valid2.store_valid 3
      (double (3 - num_levels s2.store) * models (num_levels s2.store) 0 (variable 0) (λ _. false))
      (sat_count_edge big s2.store 0 2 3 no_counts)
sat_count_example =
    sat_count_edge-Counts big-IsExact s2.store valid2.store_valid 0 3 2 (variable 0) no_counts upper
      (omega (arith, levels2)) (λ same_epoch same_vars e n at. absurd (cc))

abbrev always : Choice
always e level = true

pick_cube_example : Picks (num_levels s2.store) (variable 0) (pick_cube_edge s2.store always 2 [])
pick_cube_example = pick_cube_edge-Picks s2.store always 2 (variable 0) valid2.store_valid upper

pick_cube_symbolic_example :
    PicksSymbolic s2.store (variable 0) 2 (pick_cube_symbolic_edge always 2 s2.store)
pick_cube_symbolic_example =
    pick_cube_symbolic_edge-PicksSymbolic always 2 (variable 0) s2.store valid2.store_valid upper

truth-Rep : Rep s2.store 1 (leaf true)
unfolding get_node
truth-Rep = refl

falsity-Rep : Rep s2.store 0 (leaf false)
unfolding get_node
falsity-Rep = refl

-- The upper and the lower variable exchanged.
exchanged : PairsAt s2.store (swapped 5) ((2, 3) ∷ (3, 2) ∷ []) (0 ∷ 1 ∷ [])
exchanged = (
  (upper_node, at_upper, refl, truth-Rep, falsity-Rep),
  IsFun-zero lower,
  (λ h. elim h [ inl e ↦ absurd (omega (arith, e)) | inr e ↦ e ]),
  ((lower_node, at_lower, refl, truth-Rep, falsity-Rep), upper, (λ h. h), tt),
)

others_stay : (l : ℕ) (r : Assignment) → (Has l (0 ∷ 1 ∷ []) → ⊥) → swapped 5 l r ≡ r l
others_stay zero r h = absurd (h (inl refl))
others_stay (suc zero) r h = absurd (h (inr (inl refl)))
others_stay (suc (suc l)) r h = ground arith

substitute_edge_example :
    Makes cache swapped s2
      (substitute_edge cache 2 ((2, 3) ∷ (3, 2) ∷ []) 5 s2)
      (composed swapped 5 (variable 0))
substitute_edge_example =
    substitute_edge-Makes cache swapped s2 2 (variable 0) ((2, 3) ∷ (3, 2) ∷ []) (0 ∷ 1 ∷ []) 5
      valid2 upper exchanged others_stay
