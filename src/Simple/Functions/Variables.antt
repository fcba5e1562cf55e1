-- ===== src/Simple/Functions/Variables.antt =====
-- `new_var` of crates/oxidd-rules-bdd/src/simple/apply_rec.rs adds a level and keeps the rest.
use oxidd.Prelude.{ℕ, suc, ◌-◌, ◌^◌, ◌<◌, ◌≢◌, ◌≡◌, refl, true, false, ◌⊎◌, inl, inr, arith}
use oxidd.Tree.{BoolFn}
use oxidd.Outcome.{Result, ok, err, out_of_memory}
use oxidd.Manager.{Edge, get_terminal, num_levels}
use oxidd.Manager.Valid.{IsFull}
use oxidd.Manager.Levels.{add_level-Grows}
use oxidd.Represents.{IsFun, IsFun-ext, IsFun-Keeps, get_terminal-IsFun, node-IsFun}
use oxidd.Cache.{ApplyCache}
use oxidd.Simple.{BddOp}
use oxidd.Simple.Apply.{St, on_store}
use oxidd.Simple.Meaning.{Substitutions}
use oxidd.Simple.Ensures.{IsValidState, IsSound-Keeps}
use oxidd.Simple.Functions.{new_var, var_node}

-- The variable at a level.
abbrev pub variable : ℕ → BoolFn
variable l r = r l

-- What a new variable promises: the state stays valid and keeps every edge's function, there is
-- one more level, and the returned edge is the variable of that level; a full store is left as
-- it was.
abbrev pub MakesVar : (A : ApplyCache BddOp) → Substitutions → St A → Result Edge × St A → Type 0
MakesVar A σ s r =
    ((e : Edge) × (t : St A) × (r ≡ (ok e, t))
      × IsValidState A σ t
      × (num_levels t.store ≡ suc (num_levels s.store))
      × ((f : Edge) (p : BoolFn) → IsFun s.store 0 f p → IsFun t.store 0 f p)
      × IsFun t.store (num_levels s.store) e (variable (num_levels s.store)))
    ⊎ ((r ≡ (err out_of_memory, s)) × IsFull s.store)

terminals_apart : get_terminal true ≢ get_terminal false
unfolding get_terminal
terminals_apart h = absurd (omega (arith, h))

-- In a valid state with fewer than 2^32 - 1 levels, `new_var` returns the edge of a variable that
-- no earlier edge depends on: every edge keeps its function, the cache stays sound, and the only
-- error is that the store is full, which is then left as it was.
pub new_var-MakesVar :
    (A : ApplyCache BddOp) (σ : Substitutions) (s : St A)
    → IsValidState A σ s
    → num_levels s.store < 2 ^ 32 - 1
    → MakesVar A σ s (on_store new_var s)
unfolding on_store new_var var_node
new_var-MakesVar A σ s v room =
    let l = num_levels s.store in
    elim (add_level-Grows s.store var_node v.store_valid room (λ _. refl) (λ _. terminals_apart)) [
      | inl (e, t, run, keeps, vt, levels, at) ↦ inl (
        e,
        record s { store = t },
        rw run refl,
        record { store_valid = vt; sound = IsSound-Keeps A σ keeps v.sound },
        levels,
        (λ f p h. IsFun-Keeps h keeps),
        IsFun-ext
            (node-IsFun v.store_valid keeps (get_terminal-IsFun s.store (suc l) true)
              (get_terminal-IsFun s.store (suc l) false) terminals_apart at)
            (λ r. ground arith),
      )
      | inr (run, full) ↦ inr (rw run refl, full)
    ]
