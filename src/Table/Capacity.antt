-- ===== src/Table/Capacity.antt =====
-- `next_capacity` of crates/linear-hashtbl/src/raw.rs: a power of two with room for the elements and
-- a quarter of spare slots.
use oxidd.Prelude.{
  ℕ, zero, suc, ◌+◌, ◌*◌, ◌/◌, ◌^◌, ◌≤◌, ◌<◌, ◌≡◌, sym, refl, subst, arith, true, false, Option,
  none, some, ◌==◌, leb, leb→le, if◌then◌else◌, Bool-cases, ◌⊎◌, inl, inr,
}
use oxidd.Outcome.{Result, ok, err, panic, out_of_memory, out_of_fuel}
use oxidd.Table.{power_from, next_power_of_two, capacity_of, next_capacity}
use oxidd.Table.Statuses.{Status}
use oxidd.Table.Mask.{double}
use oxidd.Table.Probe.{IsSize}

-- The sizes of a table with slots.
pub record IsCapacity (S : Status) (n : ℕ) : Type 0 where
  pub size : IsSize n
  pub least : 16 ≤ n
  pub checked : S.check_capacity n ≡ true

double_quarters : (k : ℕ) → 16 ≤ double k → double k ≡ double k / 4 * 4
double_quarters zero h = absurd (omega arith)
double_quarters (suc zero) h = absurd (omega arith)
double_quarters (suc (suc k)) h = omega arith

pub IsCapacity-quarters : {S : Status} {n : ℕ} → IsCapacity S n → n ≡ n / 4 * 4
IsCapacity-quarters {n = n} c =
    let (k, e) = c.size in
    subst (λ m. m ≡ m / 4 * 4) (sym e) (double_quarters k (omega (arith, c.least)))

-- The search for a power of two, from one that is known.
data PowerFrom (k p n : ℕ) : Option ℕ → Type 0 where
  found : (q : ℕ) → IsSize q → n ≤ q → q < n * 2 → PowerFrom k p n (some q)
  overflow : double k * p < n * 2 → PowerFrom k p n none

PowerFrom-suc : {k p n : ℕ} (o : Option ℕ) → PowerFrom k (p * 2) n o → PowerFrom (suc k) p n o
PowerFrom-suc _ (found q size above below) = found q size above below
PowerFrom-suc {k} {p} {n} _ (overflow h) = overflow (grind (arith, h))

power_from-PowerFrom : (k p n : ℕ) → IsSize p → p < n * 2 → PowerFrom k p n (power_from k p n)
unfolding power_from
power_from-PowerFrom zero p n size h = overflow (omega arith)
power_from-PowerFrom (suc k) p n size h = elim (Bool-cases (leb n p)) [
  | inl t ↦ rw t (found p size (leb→le n p t) h)
  | inr t ↦ rw t (
      PowerFrom-suc (power_from k (p * 2) n)
        (power_from-PowerFrom k (p * 2) n (suc size.0, omega (arith, size.1)) (ground arith)))
]

-- Room for the requested elements beside the spare quarter, in less than twice the space needed.
pub record Suits (S : Status) (requested c : ℕ) : Type 0 where
  pub fits : IsCapacity S c
  pub roomy : requested + c / 4 ≤ c
  pub tight : (c ≡ 16) ⊎ (c * 3 < requested * 8)

module _ (S : Status) (requested : ℕ) where
  -- Every outcome of `next_capacity`.
  abbrev pub Capacity : Result ℕ → Type 0
  Capacity (ok c) = ((requested ≡ 0) × (c ≡ 0)) ⊎ ((1 ≤ requested) × Suits S requested c)
  Capacity (err panic) =
      (2 ^ 62 ≤ requested)
      ⊎ ((c : ℕ) × (S.check_capacity c ≡ false) × ((c ≡ 16) ⊎ (c * 3 < requested * 8)))
  Capacity (err out_of_memory) = ⊥
  Capacity (err out_of_fuel) = ⊥

  capacity_of-Capacity :
      (o : Option ℕ)
      → 1 ≤ requested
      → PowerFrom 64 1 (requested * 4 / 3) o
      → Capacity (capacity_of S o)
  capacity_of-Capacity _ some_requested (overflow h) = inl (omega arith)
  capacity_of-Capacity _ some_requested (found q size above below) = elim (Bool-cases (leb q 16)) [
    | inl t ↦ rw t (checked 16 (4, refl) (omega arith) (leb→le q 16 t) (inl refl))
    | inr t ↦ rw t (checked q size (ground arith) (omega arith) (inr (omega arith)))
  ]
    where
      checked :
          (c : ℕ)
          → IsSize c
          → 16 ≤ c
          → q ≤ c
          → (c ≡ 16) ⊎ (c * 3 < requested * 8)
          → Capacity (if S.check_capacity c then ok c else err panic)
      checked c size least covers tight = elim (Bool-cases (S.check_capacity c)) [
        | inl t ↦
            let fits : IsCapacity S c = record { size = size; least = least; checked = t } in
            rw t (
              inr (
                some_requested,
                record {
                  fits = fits;
                  roomy = omega (arith, IsCapacity-quarters fits);
                  tight = tight;
                },
              ))
        | inr t ↦ rw t (inr (c, t, tight))
      ]

  -- A capacity is 0 for no elements; else it is a power of two that the statuses can address, with
  -- room for the elements beside a quarter of spare slots, and it is 16 or less than 8/3 of what was
  -- asked. It panics only at 2 ^ 62 elements, or when the statuses cannot address such a capacity.
  pub next_capacity-Capacity : Capacity (next_capacity S requested)
  unfolding next_capacity
  next_capacity-Capacity = elim (Bool-cases (requested == 0)) [
    | inl t ↦ rw t (inl (ground arith, refl))
    | inr t ↦ elim (Bool-cases (leb (2 ^ 64) (requested * 4))) [
      | inl u ↦ rw (t, u) (inl (ground arith))
      | inr u ↦
          rw (t, u)
            (capacity_of-Capacity (next_power_of_two (requested * 4 / 3)) (ground arith)
              (power_from-PowerFrom 64 1 (requested * 4 / 3) (0, refl) (ground arith)))
    ]
  ]
