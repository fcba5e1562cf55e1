-- ===== src/Cache.antt =====
-- The trait `ApplyCache` of crates/oxidd-core/src/lib.rs: a lossy map from an operator, edge
-- operands and numeric operands to an edge. What was added may be forgotten at any time.
pub mod Direct
use oxidd.Prelude.{ℕ, ◌≡◌, ◌⊎◌, Option, some, List}
use oxidd.Manager.{Edge}

pub record ApplyCache (O : Type 0) : Type 1 where
  pub Cache : Type 0
  pub get : Cache → O → List Edge → List ℕ → Option Edge
  pub add : Cache → O → List Edge → List ℕ → Edge → Cache
  -- A query after `add` answers what was added under the very same key, or what it answered before.
  pub get-add :
      (c : Cache) (o o' : O) (es es' : List Edge) (ns ns' : List ℕ) (v w : Edge)
      → get (add c o es ns v) o' es' ns' ≡ some w
      → ((o' ≡ o) × (es' ≡ es) × (ns' ≡ ns) × (w ≡ v)) ⊎ (get c o' es' ns' ≡ some w)
