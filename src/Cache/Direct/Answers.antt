-- ===== src/Cache/Direct/Answers.antt =====
-- The cache of crates/oxidd-cache/src/direct.rs remembers: what is added to a free entry is answered.
use Prim.Native.Nat.{bit_and}
use native.Mathlib.Nat.{mod-lt, mod-eq_of_lt}
use oxidd.Prelude.{
  ℕ, ◌+◌, ◌-◌, ◌%◌, ◌^◌, ◌<◌, ◌≡◌, ◌∙◌, ap, refl, true, false, some, none, List, arith,
  if◌then◌else◌, length, get_elem?, get_elem?-some, get_elem?-set_self, length-set, set, ==_iff,
}
use oxidd.Table.Mask.{double, double_pos, bit_and_ones}
use oxidd.Manager.{Edge}
use oxidd.Cache.Direct.{
  OperatorEq, Entry, Entries, write_from, set_entry, clear_entry, entry_get, bucket, fits, get_at,
  get_with_numeric, add_at, add_with_numeric,
}
use oxidd.Cache.Direct.Operands.{match_from_written, match_from-write_from_after}

module _ {O : Type 0} (eq : OperatorEq O) where
  -- An entry answers what it was set to.
  set_entry-hit :
      (e : Entry O) (op : O) (es : List Edge) (ns : List ℕ) (v : Edge)
      → eq.same op op ≡ true
      → length es + length ns < 2 ^ 8
      → entry_get eq (set_entry e op es ns v) op es ns ≡ some v
  unfolding entry_get set_entry clear_entry
  set_entry-hit e op es ns v same small =
      let edges =
        match_from-write_from_after 0 (length es) es ns (write_from 0 es e.operands) (omega arith)
        ∙ match_from_written 0 es e.operands in
      let numbers = match_from_written (length es) ns (write_from 0 es e.operands) in
      let few_edges : length es % 2 ^ 8 ≡ length es = mod-eq_of_lt (omega arith) in
      let few_numbers : length ns % 2 ^ 8 ≡ length ns = mod-eq_of_lt (omega arith) in
      rw
        (
          few_edges,
          few_numbers,
          (==_iff (length es) (length es)).1 refl,
          (==_iff (length ns) (length ns)).1 refl,
          same,
          edges,
          numbers,
        )
        refl

module _ {O : Type 0} (eq : OperatorEq O) (arity : ℕ) (hash : O → List Edge → ℕ) where
  -- The bucket exists, where the number of entries is a power of two.
  pub bucket_bound :
      (c : Entries O) (k : ℕ) (op : O) (es : List Edge)
      → length c ≡ double k
      → bucket eq arity hash c op es < length c
  unfolding bucket
  bucket_bound c k op es h =
      rw (h, bit_and_ones (hash op es) k) (mod-lt (hash op es) {m = double k} (double_pos k))

  -- All entries are free.
  abbrev pub IsFree : Entries O → Type 0
  IsFree c = (i : ℕ) (e : Entry O) → get_elem? c i ≡ some e → e.locked ≡ false

  -- In a cache of a power of two of entries, none of which is locked, what is added for a key that
  -- fits an entry is what the next query for the key answers.
  pub add_with_numeric-hit :
      (c : Entries O) (k : ℕ) (op : O) (es : List Edge) (ns : List ℕ) (v : Edge)
      → length c ≡ double k
      → IsFree c
      → arity < 2 ^ 8
      → eq.same op op ≡ true
      → fits arity es ns ≡ true
      → get_with_numeric eq arity hash (add_with_numeric eq arity hash c op es ns v) op es ns
        ≡ some v
  unfolding get_with_numeric add_with_numeric bucket
  add_with_numeric-hit c k op es ns v size free byte same fit =
      let i = bit_and (hash op es) (length c - 1) in
      let inside : i < length c = (unfold bucket in bucket_bound c k op es size) in
      let (e, found) = get_elem?-some c i inside in
      let small : length es + length ns < 2 ^ 8 = (unfold fits in ground arith) in
      let unlocked : e.locked ≡ false = free i e found in
      let hit = set_entry-hit eq e op es ns v same small in
      let e' = set_entry e op es ns v in
      let kept : e'.locked ≡ false = (unfold set_entry in unfold clear_entry in unlocked) in
      let added : add_at c i (get_elem? c i) op es ns v ≡ set c i e' =
        (unfold add_at in rw (found, unlocked) refl) in
      let answer : get_at eq (some e') op es ns ≡ some v =
        (unfold get_at in ap (λ b. if b then none else entry_get eq e' op es ns) kept ∙ hit) in
      rw (fit, added, length-set, get_elem?-set_self c i e' inside) answer
