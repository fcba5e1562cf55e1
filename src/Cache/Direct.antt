-- ===== src/Cache/Direct.antt =====
-- crates/oxidd-cache/src/direct.rs: the direct mapped apply cache, one entry for each bucket.
-- The hasher is a parameter; `try_lock` fails on an entry whose mutex is held.
pub mod Operands
pub mod Laws
pub mod Collection
pub mod Answers
pub mod Capacity
use Prim.Native.Nat.{bit_and}
use oxidd.Prelude.{
  ℕ, zero, suc, ◌+◌, ◌-◌, ◌*◌, ◌%◌, ◌^◌, ◌≡◌, Bool, true, false, not, ◌&&◌, ◌||◌, Option, none,
  some, List, [], ◌∷◌, leb, ltb, ◌==◌, if◌then◌else◌, length, get_elem?, set, replicate,
}
use oxidd.Manager.{Edge}

-- `Eq` of the operators.
pub record OperatorEq (O : Type 0) : Type 0 where
  pub same : O → O → Bool
  pub same_sound : (a b : O) → same a b ≡ true → a ≡ b

-- The operand array is indexed from 0; an operand is an edge or a number, both `u32`.
pub record Entry (O : Type 0) : Type 0 where
  pub locked : Bool
  pub edge_operands : ℕ
  pub numeric_operands : ℕ
  pub operator : Option O
  pub operands : ℕ → ℕ
  pub value : Option Edge

abbrev pub Entries : Type 0 → Type 0
Entries O = List (Entry O)

-- The array with the items written from index `i` on.
unfoldable pub write_from : ℕ → List ℕ → (ℕ → ℕ) → ℕ → ℕ
write_from i [] a j = a j
write_from i (x ∷ xs) a j = if j == i then x else write_from (suc i) xs a j

-- The items are those that the array has from index `i` on.
unfoldable pub match_from : ℕ → List ℕ → (ℕ → ℕ) → Bool
match_from i [] a = true
match_from i (x ∷ xs) a = x == a i && match_from (suc i) xs a

module _ {O : Type 0} where
  -- `Entry::new`
  unfoldable pub new_entry : Entry O
  new_entry = record {
    locked = false;
    edge_operands = 0;
    numeric_operands = 0;
    operator = none;
    operands = λ _. 0;
    value = none;
  }

  -- `EntryGuard::clear`
  unfoldable pub clear_entry : Entry O → Entry O
  clear_entry e = record e { edge_operands = 0 }

  -- `EntryGuard::set`; the counts are stored as `u8`.
  unfoldable pub set_entry : Entry O → O → List Edge → List ℕ → Edge → Entry O
  set_entry e op es ns v = record (clear_entry e) {
    edge_operands = length es % 2 ^ 8;
    numeric_operands = length ns % 2 ^ 8;
    operator = some op;
    operands = write_from (length es) ns (write_from 0 es e.operands);
    value = some v;
  }

  unfoldable pub lock_entry : Entry O → Entry O
  lock_entry e = record e { locked = true }

  unfoldable pub unlock_entry : Entry O → Entry O
  unlock_entry e = record e { locked = false }

  unfoldable pub map_entries : (Entry O → Entry O) → Entries O → Entries O
  map_entries f [] = []
  map_entries f (e ∷ es) = f e ∷ map_entries f es

  -- `clear`: each entry is locked, cleared and unlocked.
  unfoldable pub clear : Entries O → Entries O
  clear = map_entries (λ e. unlock_entry (clear_entry (lock_entry e)))

  -- `pre_gc`: the entries stay locked.
  unfoldable pub pre_gc : Entries O → Entries O
  pre_gc = map_entries (λ e. clear_entry (lock_entry e))

  unfoldable pub post_gc : Entries O → Entries O
  post_gc = map_entries unlock_entry

-- The least power of two that is at least `n`, tried from `p` on.
unfoldable pub power_of_two_from : ℕ → ℕ → ℕ → ℕ
power_of_two_from zero p n = p
power_of_two_from (suc k) p n =
    let rest = power_of_two_from k (2 * p) n in if leb n p then p else rest

-- `checked_next_power_of_two` of a `usize`; `none` is the panic.
unfoldable pub next_power_of_two : ℕ → Option ℕ
next_power_of_two n = let p = power_of_two_from 64 1 n in if ltb p (2 ^ 64) then some p else none

-- The memory for the entries is taken to be there.
unfoldable pub with_capacity : {O : Type 0} → ℕ → Option (Entries O)
with_capacity capacity = elim (next_power_of_two capacity) [
  | none ↦ none
  | some n ↦ some (replicate n new_entry)
]

module _ {O : Type 0} (eq : OperatorEq O) where
  -- `EntryGuard::get`
  unfoldable pub entry_get : Entry O → O → List Edge → List ℕ → Option Edge
  entry_get e op es ns =
      if not (length es == e.edge_operands) || not (length ns == e.numeric_operands)
      then none
      else elim e.operator [
        | none ↦ none
        | some op' ↦
            if not (eq.same op op')
            then none
            else if match_from 0 es e.operands && match_from (length es) ns e.operands
            then e.value
            else none
      ]

  unfoldable pub get_at : Option (Entry O) → O → List Edge → List ℕ → Option Edge
  get_at none op es ns = none
  get_at (some e) op es ns = if e.locked then none else entry_get e op es ns

unfoldable pub add_at :
    {O : Type 0} → Entries O → ℕ → Option (Entry O) → O → List Edge → List ℕ → Edge → Entries O
add_at c i none op es ns v = c
add_at c i (some e) op es ns v = if e.locked then c else set c i (set_entry e op es ns v)

-- The guard on the operands: at least one edge, and no more operands than an entry holds.
unfoldable pub fits : ℕ → List Edge → List ℕ → Bool
fits arity es ns = not (length es == 0) && leb (length es + length ns) arity

module _ {O : Type 0} (eq : OperatorEq O) (arity : ℕ) (hash : O → List Edge → ℕ) where
  -- `bucket`: the bucket count is a power of two.
  unfoldable pub bucket : Entries O → O → List Edge → ℕ
  bucket c op es = bit_and (hash op es) (length c - 1)

  unfoldable pub get_with_numeric : Entries O → O → List Edge → List ℕ → Option Edge
  get_with_numeric c op es ns =
      if fits arity es ns then get_at eq (get_elem? c (bucket c op es)) op es ns else none

  unfoldable pub add_with_numeric : Entries O → O → List Edge → List ℕ → Edge → Entries O
  add_with_numeric c op es ns v =
      if fits arity es ns
      then add_at c (bucket c op es) (get_elem? c (bucket c op es)) op es ns v
      else c
