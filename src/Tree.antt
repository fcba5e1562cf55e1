-- ===== src/Tree.antt =====
-- Decision trees: what an edge of a binary decision diagram stands for, the sharing forgotten.
-- The tests stand at levels, and a tree is read under an assignment of truth values to levels.
pub mod Canonical
use oxidd.Prelude.{ℕ, suc, ◌≤◌, ◌≢◌, ◌≡◌, Bool, true, false, arith, ◌==◌, if◌then◌else◌}

pub data Tree : Type 0 where
  leaf : Bool → Tree
  node : ℕ → Tree → Tree → Tree

abbrev pub Assignment : Type 0
Assignment = ℕ → Bool

-- A Boolean function of the levels' values.
abbrev pub BoolFn : Type 0
BoolFn = Assignment → Bool

abbrev pub eval : Tree → BoolFn
eval (leaf b) r = b
eval (node l t u) r = if r l then eval t r else eval u r

-- Every test stands at level `lo` or below, levels grow downwards, and no test is redundant.
abbrev pub IsOrdered : ℕ → Tree → Type 0
IsOrdered lo (leaf b) = Unit
IsOrdered lo (node l t u) = (lo ≤ l) × IsOrdered (suc l) t × IsOrdered (suc l) u × (t ≢ u)

pub IsOrdered-le : {lo lo' : ℕ} (t : Tree) → lo' ≤ lo → IsOrdered lo t → IsOrdered lo' t
IsOrdered-le (leaf b) h o = tt
IsOrdered-le (node l t u) h o = (omega arith, o.1, o.2, o.3)

abbrev pub node_then : Tree → Tree → Tree
node_then d (leaf b) = d
node_then d (node l t u) = t

abbrev pub node_else : Tree → Tree → Tree
node_else d (leaf b) = d
node_else d (node l t u) = u

abbrev pub update : Assignment → ℕ → Bool → Assignment
update r l b k = if k == l then b else r k
