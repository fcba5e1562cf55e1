-- ===== src/Simple/Start.antt =====
-- The state in which a manager for simple binary decision diagrams starts: an empty store and a
-- new direct mapped apply cache.
use oxidd.Prelude.{ℕ, arith, List, replicate}
use oxidd.Manager.{Edge, new_store}
use oxidd.Manager.Levels.{new_store-IsValid}
use oxidd.Cache.{ApplyCache}
use oxidd.Cache.Direct.{new_entry}
use oxidd.Cache.Direct.Laws.{direct_cache, with_capacity-none}
use oxidd.Simple.{BddOp}
use oxidd.Simple.Key.{op_eq}
use oxidd.Simple.Apply.{St}
use oxidd.Simple.Meaning.{Substitutions}
use oxidd.Simple.Ensures.{IsValidState}

module _ (hash : BddOp → List Edge → ℕ) where
  -- The apply cache of the simple diagrams holds up to three operands in an entry.
  abbrev pub simple_cache : ApplyCache BddOp
  simple_cache = direct_cache op_eq 3 hash (omega arith)

  -- A new state with `buckets` entries in the apply cache.
  abbrev pub new_state : ℕ → ℕ → St simple_cache
  new_state capacity buckets = record {
    store = new_store capacity;
    cache = replicate buckets new_entry;
  }

  -- The state of a new manager is valid.
  pub new_state-IsValidState :
      (σ : Substitutions) (capacity buckets : ℕ)
      → IsValidState simple_cache σ (new_state capacity buckets)
  new_state-IsValidState σ capacity buckets = record {
    store_valid = new_store-IsValid capacity;
    sound = λ op es ns h e. cc (with_capacity-none op_eq 3 hash buckets op es ns);
  }
