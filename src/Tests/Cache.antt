-- ===== src/Tests/Cache.antt =====
-- Runs of the direct mapped apply cache, with one bucket for all keys.
use oxidd.Prelude.{◌≡◌, refl, ap, true, false, ◌⊎◌, some, none, [], ◌∷◌, arith, replicate}
use oxidd.Cache.Direct.{
  Entry, Entries, new_entry, get_with_numeric, add_with_numeric, clear, pre_gc, post_gc, get_at,
  add_at, set_entry, clear_entry, entry_get, fits, bucket, match_from, write_from, with_capacity,
}
use oxidd.Cache.Direct.Laws.{SameKey, get_with_numeric-add_with_numeric, replicate-get}
use oxidd.Cache.Direct.Collection.{IsEmptied, cleared_answers_nothing}
use oxidd.Cache.Direct.Answers.{IsFree, add_with_numeric-hit}
use oxidd.Cache.Direct.Capacity.{Buckets, with_capacity-Buckets}
use oxidd.Simple.{BddOp, and, xor}
use oxidd.Simple.Key.{discriminant, op_eq}

abbrev small : Entries BddOp
small = add_with_numeric op_eq 3 (λ op es. 5) (replicate 8 new_entry) and (2 ∷ 3 ∷ []) [] 4

cache_program : Unit {0}
unfolding new_entry get_with_numeric add_with_numeric get_at add_at set_entry clear_entry entry_get
    fits bucket match_from write_from discriminant
cache_program = tt

hit : get_with_numeric op_eq 3 (λ op es. 5) small and (2 ∷ 3 ∷ []) [] ≡ some 4
unfolding cache_program
hit = refl

cache_example :
    SameKey and and (2 ∷ 3 ∷ []) (2 ∷ 3 ∷ []) [] [] 4 4
    ⊎ (get_with_numeric op_eq 3 (λ op es. 5) (replicate 8 new_entry) and (2 ∷ 3 ∷ []) [] ≡ some 4)
cache_example =
    get_with_numeric-add_with_numeric op_eq 3 (λ op es. 5) (omega arith) (replicate 8 new_entry) and
      and (2 ∷ 3 ∷ []) (2 ∷ 3 ∷ []) [] [] 4 4 hit

cleared_example :
    IsEmptied false small (clear small)
    × (get_with_numeric op_eq 3 (λ op es. 5) (clear small) and (2 ∷ 3 ∷ []) [] ≡ none)
    × IsEmptied true small (pre_gc small)
    × (get_with_numeric op_eq 3 (λ op es. 5) (pre_gc small) and (2 ∷ 3 ∷ []) [] ≡ none)
    × (add_with_numeric op_eq 3 (λ op es. 5) (pre_gc small) and (2 ∷ 3 ∷ []) [] 4 ≡ pre_gc small)
    × IsEmptied false small (post_gc (pre_gc small))
    × (get_with_numeric op_eq 3 (λ op es. 5) (post_gc (pre_gc small)) and (2 ∷ 3 ∷ []) [] ≡ none)
cleared_example = cleared_answers_nothing op_eq 3 (λ op es. 5) small and (2 ∷ 3 ∷ []) [] 4

replicate-IsFree : IsFree op_eq 3 (λ op es. 5) (replicate 8 new_entry)
unfolding new_entry
replicate-IsFree i e at = ap (λ (x : Entry _). x.locked) (replicate-get 8 i new_entry e at)

remembers_example :
    get_with_numeric op_eq 3
      (λ op es. 5)
      (add_with_numeric op_eq 3 (λ op es. 5) (replicate 8 new_entry) xor (2 ∷ 3 ∷ []) (1 ∷ []) 4)
      xor
      (2 ∷ 3 ∷ [])
      (1 ∷ [])
    ≡ some 4
unfolding cache_program
remembers_example =
    add_with_numeric-hit op_eq 3 (λ op es. 5) (replicate 8 new_entry) 3 xor (2 ∷ 3 ∷ []) (1 ∷ []) 4
      refl replicate-IsFree (omega arith) refl refl

capacity_example : Buckets op_eq 3 (λ op es. 5) 100 (with_capacity 100)
capacity_example = with_capacity-Buckets op_eq 3 (λ op es. 5) 100
