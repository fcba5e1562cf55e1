-- ===== src/Cache/Direct/Capacity.antt =====
-- `with_capacity` of crates/oxidd-cache/src/direct.rs: the number of entries of a new cache.
use mathlib.Core.Option
use oxidd.Prelude.{
  if◌then◌else◌, ℕ, zero, suc, ◌+◌, ◌*◌, ◌^◌, ◌≤◌, ◌<◌, ◌≡◌, ◌⊎◌, inl, inr, refl, sym, ap, subst,
  true, false, Option, none, some, List, arith, leb, ltb, length, Bool-cases, replicate,
  length-replicate,
}
use oxidd.Table.Mask.{double, double_mono}
use oxidd.Manager.{Edge}
use oxidd.Cache.Direct.{
  Entry, Entries, OperatorEq, new_entry, power_of_two_from, next_power_of_two, with_capacity,
  bucket, get_with_numeric,
}
use oxidd.Cache.Direct.Laws.{replicate-get, with_capacity-none}
use oxidd.Cache.Direct.Answers.{IsFree, bucket_bound}

-- No power of two below it reaches `n`.
abbrev IsLeast : ℕ → ℕ → Type 0
IsLeast n j = (i : ℕ) → n ≤ double i → j ≤ i

suc-IsLeast : (n j : ℕ) → IsLeast n j → leb n (double j) ≡ false → IsLeast n (suc j)
suc-IsLeast n j least apart i h = elim (Bool-cases (leb (suc j) i)) [
  | inl above ↦ ground arith
  | inr here ↦
      let same : i ≡ j = (let after = least i h in ground arith) in
      absurd (let reach : n ≤ double j = subst (λ k. n ≤ double k) same h in ground arith)
]

-- The search ends with the least power of two that reaches `n`, or at the end of its steps.
power_of_two_from-IsLeast :
    (k j n : ℕ)
    → IsLeast n j
    → (m : ℕ) × (power_of_two_from k (double j) n ≡ double m)
      × (m ≤ k + j)
      × IsLeast n m
      × ((n ≤ double m) ⊎ (m ≡ k + j))
unfolding power_of_two_from
power_of_two_from-IsLeast zero j n least = (j, refl, omega arith, least, inr (omega arith))
power_of_two_from-IsLeast (suc k) j n least = elim (Bool-cases (leb n (double j))) [
  | inl reached ↦ (j, rw reached refl, omega arith, least, inl (ground arith))
  | inr short ↦
      let next : 2 * double j ≡ double (suc j) = omega arith in
      let (m, run, bound, smallest, done) =
        power_of_two_from-IsLeast k (suc j) n (suc-IsLeast n j least short) in
      (
        m,
        rw (short, next) run,
        omega (arith, bound),
        smallest,
        elim done [ inl h ↦ inl h | inr h ↦ inr (omega (arith, h)) ],
      )
]

-- A cache of the least power of two of entries that is at least `capacity`, each of them free, which
-- answers nothing and has a bucket for each key; no cache only where `usize` has no such number.
abbrev pub Buckets :
    {O : Type 0} → OperatorEq O → ℕ → (O → List Edge → ℕ) → ℕ → Option (Entries O) → Type 0
Buckets eq arity hash capacity none = 2 ^ 63 < capacity
Buckets {O} eq arity hash capacity (some c) =
    (k : ℕ) × (length c ≡ double k)
    × (capacity ≤ length c)
    × IsLeast capacity k
    × IsFree eq arity hash c
    × ((op : O) (es : List Edge) → bucket eq arity hash c op es < length c)
    × ((op : O) (es : List Edge) (ns : List ℕ) → get_with_numeric eq arity hash c op es ns ≡ none)

made_entries :
    {O : Type 0} (eq : OperatorEq O) (arity : ℕ) (hash : O → List Edge → ℕ) (capacity m : ℕ)
    → IsLeast capacity m
    → capacity ≤ double m
    → Buckets eq arity hash capacity (some (replicate (double m) new_entry))
unfolding new_entry
made_entries eq arity hash capacity m least enough =
    let size = length-replicate (double m) new_entry in
    (
      m,
      size,
      omega (arith, enough, size),
      least,
      (λ i e at. ap (λ (x : Entry _). x.locked) (replicate-get (double m) i new_entry e at)),
      (λ op es. bucket_bound eq arity hash (replicate (double m) new_entry) m op es size),
      with_capacity-none eq arity hash (double m),
    )

next_power_of_two_found :
    (capacity m : ℕ)
    → power_of_two_from 64 1 capacity ≡ double m
    → next_power_of_two capacity ≡ (if ltb (double m) (2 ^ 64) then some (double m) else none)
unfolding next_power_of_two
next_power_of_two_found capacity m h = ap (λ p. if ltb p (2 ^ 64) then some p else none) h

with_capacity_found :
    {O : Type 0} (capacity : ℕ) (n : Option ℕ)
    → next_power_of_two capacity ≡ n
    → with_capacity {O = O} capacity ≡ Option.map (λ k. replicate k new_entry) n
unfolding with_capacity
with_capacity_found capacity none h = rw (with_capacity, h) refl
with_capacity_found capacity (some n) h = rw (with_capacity, h) refl

-- The search ends below the limit only with a number that reaches `capacity`.
reached :
    (capacity m : ℕ)
    → ltb (double m) (2 ^ 64) ≡ true
    → (capacity ≤ double m) ⊎ (m ≡ 64 + 0)
    → capacity ≤ double m
reached capacity m small (inl h) = h
reached capacity m small (inr h) =
    let limit : double m ≡ 2 ^ 64 = subst (λ k. double k ≡ 2 ^ 64) (sym h) refl in
    absurd (ground arith)

exceeded :
    (capacity m : ℕ) → ltb (double m) (2 ^ 64) ≡ false → IsLeast capacity m → 2 ^ 63 < capacity
exceeded capacity m large least = elim (Bool-cases (leb capacity (2 ^ 63))) [
  | inr above ↦ ground arith
  | inl below ↦
      let half : double 63 ≡ 2 ^ 63 = refl in
      let small = double_mono m 63 (least 63 (ground arith)) in absurd (ground arith)
]

-- With a `usize` of 64 bits and enough memory, `with_capacity` makes a cache of free entries that
-- answers nothing, the number of which is the least power of two that is at least `capacity`;
-- every key has a bucket in it. It panics only where `capacity` is above `2^63`.
pub with_capacity-Buckets :
    {O : Type 0} (eq : OperatorEq O) (arity : ℕ) (hash : O → List Edge → ℕ) (capacity : ℕ)
    → Buckets eq arity hash capacity (with_capacity capacity)
with_capacity-Buckets eq arity hash capacity =
    let (m, run, bound, least, done) =
      power_of_two_from-IsLeast 64 0 capacity (λ i h. omega arith) in
    let sized = next_power_of_two_found capacity m run in
    elim (Bool-cases (ltb (double m) (2 ^ 64))) [
      | inl small ↦
          subst (Buckets eq arity hash capacity)
            (sym (with_capacity_found capacity (some (double m)) (rw small at sized)))
            (made_entries eq arity hash capacity m least (reached capacity m small done))
      | inr large ↦
          subst (Buckets eq arity hash capacity)
            (sym (with_capacity_found capacity none (rw large at sized)))
            (exceeded capacity m large least)
    ]
