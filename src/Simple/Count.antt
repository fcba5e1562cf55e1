-- ===== src/Simple/Count.antt =====
-- `sat_count_edge` of crates/oxidd-rules-bdd/src/simple/apply_rec.rs, with the `SatCountCache` of
-- crates/oxidd-core/src/util/mod.rs. The number type is a parameter, the trait `SatCountNumber` of
-- which is a record; a hash map is a list of its entries, the last one inserted first.
pub mod Models
pub mod Laws
use oxidd.Prelude.{
  ℕ, zero, suc, ◌≡◌, Bool, true, false, not, ◌||◌, Option, none, some, List, [], ◌∷◌, ◌==◌,
  if◌then◌else◌,
}
use oxidd.Outcome.{Result, ok, err, panic, out_of_fuel, Run, pure, raise, ◌>>=◌, ◌>>◌}
use oxidd.Manager.{Edge, InnerNode, Node, inner, terminal, Store, get_node, num_levels}

pub record SatCountNumber (N : Type 0) : Type 0 where
  pub from : ℕ → N
  pub add : N → N → N
  pub shl : N → ℕ → N
  pub shr : N → ℕ → N

pub record SatCountCache (N : Type 0) : Type 0 where
  pub map : List (Edge × N)
  pub vars : ℕ
  pub epoch : ℕ

abbrev pub map_get : {N : Type 0} → List (Edge × N) → Edge → Option N
map_get [] e = none
map_get ((k, n) ∷ map) e = if e == k then some n else map_get map e

-- The first argument is `manager.reorder_count()`.
unfoldable pub clear_if_invalid : {N : Type 0} → ℕ → ℕ → SatCountCache N → SatCountCache N
clear_if_invalid reorder_count vars cache =
    if not (reorder_count == cache.epoch) || not (vars == cache.vars)
    then record { map = []; vars = vars; epoch = reorder_count }
    else cache

module _ {N : Type 0} (num : SatCountNumber N) (s : Store) where
  unfoldable pub insert_count : Edge → N → Run (SatCountCache N) N
  insert_count e n cache = (ok n, record cache { map = (e, n) ∷ cache.map })

  unfoldable pub count_inner : ℕ → N → Edge → Run (SatCountCache N) N
  count_inner zero terminal_val e cache = raise out_of_fuel cache
  count_inner (suc k) terminal_val e cache = elim (get_node s e) [
    | none ↦ raise panic cache
    | some m ↦ elim m [
      | terminal t ↦ pure (if t then terminal_val else num.from 0) cache
      | inner node ↦ elim (map_get cache.map e) [
        | some n ↦ pure n cache
        | none ↦
            (do
              n0 ← count_inner k terminal_val node.child0
              n1 ← count_inner k terminal_val node.child1
              insert_count e (num.shr (num.add n0 n1) 1))
              cache
      ]
    ]
  ]

  unfoldable pub sat_count_edge : ℕ → Edge → ℕ → Run (SatCountCache N) N
  sat_count_edge reorder_count edge vars cache =
      count_inner (suc (num_levels s)) (num.shl (num.from 1) vars) edge
        (clear_if_invalid reorder_count vars cache)
