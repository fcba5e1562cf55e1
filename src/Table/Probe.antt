-- ===== src/Table/Probe.antt =====
-- The order in which a search of crates/linear-hashtbl/src/raw.rs visits the slots.
use Prim.Native.Nat.{bit_and}
use native.Mathlib.Nat.{mod-lt, mod-eq_of_lt, mod_self}
use oxidd.Prelude.{
  ℕ, suc, ◌+◌, ◌-◌, ◌%◌, ◌≤◌, ◌<◌, ◌≡◌, arith, ltb, ltb→lt, ◌⊎◌, if◌then◌else◌, Bool-cases, inl,
  inr,
}
use oxidd.Table.Mask.{double, double_pos, bit_and_ones}

abbrev pub wrap : ℕ → ℕ → ℕ
wrap n x = if ltb x n then x else x - n

-- The slot visited after `d` steps from `home`, in a table of `n` slots.
unfoldable pub visited : ℕ → ℕ → ℕ → ℕ
visited n home d = wrap n (home + d)

abbrev pub IsSize : ℕ → Type 0
IsSize n = (k : ℕ) × (n ≡ double k)

pub IsSize-pos : {n : ℕ} → IsSize n → 1 ≤ n
IsSize-pos (k, e) = omega (arith, double_pos k)

pub masked_lt : {n : ℕ} → IsSize n → (h : ℕ) → bit_and h (n - 1) < n
masked_lt {n} (k, e) h = rw e (rw (bit_and_ones h k) (mod-lt h {m = double k} (double_pos k)))

pub next-wrap : {n : ℕ} → IsSize n → (i : ℕ) → i < n → bit_and (i + 1) (n - 1) ≡ wrap n (suc i)
next-wrap {n} (k, e) i h =
    rw (e, bit_and_ones (i + 1) k)
      (step (elim (Bool-cases (ltb (suc i) (double k))) [
        | inl t ↦ inl (ltb→lt _ _ t)
        | inr t ↦ inr (ground arith)
      ]))
  where
    step : (suc i < double k) ⊎ (suc i ≡ double k) → (i + 1) % double k ≡ wrap (double k) (suc i)
    step (inl lt) = ground (arith, mod-eq_of_lt lt)
    step (inr eq) = ground (arith, eq, mod_self (double k))

pub visited_lt : {n home : ℕ} (d : ℕ) → home < n → d ≤ n → visited n home d < n
unfolding visited
visited_lt d h k = ground arith

pub next-visited :
    {n home : ℕ}
    → IsSize n
    → (d : ℕ) → home < n
    → d < n
    → bit_and (visited n home d + 1) (n - 1) ≡ visited n home (suc d)
unfolding visited
next-visited {n} {home} size d h k =
    ground (arith, next-wrap size (wrap n (home + d)) (ground arith))

-- Every slot is visited.
pub visited_onto : {n home i : ℕ} → home < n → i < n → (d : ℕ) × (d < n) × (visited n home d ≡ i)
unfolding visited
visited_onto {n} {home} {i} h k = elim (Bool-cases (ltb i home)) [
  | inl t ↦ (n - home + i, ground arith, ground arith)
  | inr t ↦ (i - home, ground arith, ground arith)
]

pub visited_once :
    {n home d e : ℕ} → home < n → d < n → e < n → visited n home d ≡ visited n home e → d ≡ e
unfolding visited
visited_once h k l m = ground arith

pub origin : {n home : ℕ} → home < n → visited n home 0 ≡ home
unfolding visited
origin h = ground arith
