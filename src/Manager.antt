-- ===== src/Manager.antt =====
-- The node store and the unique tables of crates/oxidd-manager-index/src/manager.rs, for diagrams
-- with two terminals and binary inner nodes that know their level (node/fixed_arity.rs).
-- An edge is the `u32` that the code stores: 0 and 1 are the terminals ⊥ and ⊤ (the static
-- terminal manager numbers them by `as_usize`), and `i + 2` is the inner node in slot `i`.
-- Reference counts are left out here: no slot is freed while an operation runs, and cloning or
-- dropping an edge changes nothing else. A level's hash set is the list of its edges.
pub mod Valid
pub mod Placed
pub mod Insert
pub mod Levels
use oxidd.Prelude.{
  ℕ, zero, suc, ◌+◌, ◌-◌, ◌%◌, ◌^◌, Bool, true, false, ◌&&◌, Option, none, some, List, [], ◌∷◌,
  ◌++◌, ltb, ◌==◌, if◌then◌else◌, length, get_elem?, set, min,
}
use oxidd.Outcome.{Result, ok, err, out_of_memory, panic, Run, pure, raise, ◌>>=◌, ◌>>◌}

abbrev pub Edge : Type 0
Edge = ℕ

-- ⊥ is `false`, ⊤ is `true`.
abbrev pub BddTerminal : Type 0
BddTerminal = Bool

pub record InnerNode : Type 0 where
  pub level : ℕ
  pub child0 : Edge
  pub child1 : Edge

pub data Node : Type 0 where
  inner : InnerNode → Node
  terminal : BddTerminal → Node

pub record Store : Type 0 where
  -- a slot that holds no node is `none`
  pub slots : List (Option InnerNode)
  -- the free slots, the next one first
  pub free : List Edge
  pub capacity : ℕ
  pub unique_table : List (List Edge)

-- The store of `new_manager`: edges have 32 bits, of which none is a tag, and there are two
-- terminals.
unfoldable pub new_store : ℕ → Store
new_store inner_node_capacity = record {
  slots = [];
  free = [];
  capacity = min inner_node_capacity (2 ^ 32 - 2);
  unique_table = [];
}

abbrev pub slot_node : Option (Option InnerNode) → Option Node
slot_node none = none
slot_node (some none) = none
slot_node (some (some n)) = some (inner n)

-- `none` where the code would read outside the slots or a slot without a node.
unfoldable pub get_node : Store → Edge → Option Node
get_node s zero = some (terminal false)
get_node s (suc zero) = some (terminal true)
get_node s (suc (suc i)) = slot_node (get_elem? s.slots i)

unfoldable pub get_terminal : BddTerminal → Edge
get_terminal false = 0
get_terminal true = 1

abbrev pub num_levels : Store → ℕ
num_levels s = length s.unique_table

-- A free slot if there is one, else the next slot that was never used. The lists of free slots of
-- the threads are one list, which just ends; a thread without a list of its own that takes the last
-- slot of a list leaves an entry 0 in the code.
unfoldable pub place : List Edge → InnerNode → Run Store Edge
place (id ∷ rest) n s = (ok id, record s { slots = set s.slots (id - 2) (some n); free = rest })
place [] n s =
    if ltb (length s.slots) s.capacity
    then (ok (length s.slots + 2), record s { slots = s.slots ++ some n ∷ [] })
    else (err out_of_memory, s)

unfoldable pub add_node : InnerNode → Run Store Edge
add_node n s = place s.free n s

-- Nodes are compared by their children alone.
unfoldable pub same_children : InnerNode → InnerNode → Bool
same_children m n = m.child0 == n.child0 && m.child1 == n.child1

unfoldable pub matches : Store → InnerNode → Edge → Bool
matches s n e = elim (get_node s e) [
  | none ↦ false
  | some m ↦ elim m [ inner m ↦ same_children m n | terminal b ↦ false ]
]

-- The entry of a level's set whose node equals `n`.
unfoldable pub find : Store → InnerNode → List Edge → Option Edge
find s n [] = none
find s n (e ∷ es) = if matches s n e then some e else find s n es

unfoldable pub insert_edge : ℕ → List Edge → Edge → Run Store Edge
insert_edge level es e s = (ok e, record s { unique_table = set s.unique_table level (e ∷ es) })

-- `get_or_insert` of a level's set.
unfoldable pub set_get_or_insert : ℕ → List Edge → InnerNode → Run Store Edge
set_get_or_insert level es n s = elim (find s n es) [
  | some e ↦ (ok e, s)
  | none ↦ (do e ← add_node n; insert_edge level es e) s
]

-- `manager.level(level).get_or_insert(n)`: both the index and the level of the node are asserted.
unfoldable pub get_or_insert : ℕ → InnerNode → Run Store Edge
get_or_insert level n s = elim (get_elem? s.unique_table level) [
  | none ↦ (err panic, s)
  | some es ↦ if n.level == level then set_get_or_insert level es n s else (err panic, s)
]

unfoldable pub push_level : Edge → Run Store Edge
push_level e s = (ok e, record s { unique_table = s.unique_table ++ (e ∷ []) ∷ [] })

-- `add_level`: a new set at the end, with one node that `f` makes for the new level number.
unfoldable pub add_level : (ℕ → InnerNode) → Run Store Edge
add_level f s =
    let no = length s.unique_table % 2 ^ 32 in
    if no == 2 ^ 32 - 1 then (err panic, s) else (do e ← add_node (f no); push_level e) s
