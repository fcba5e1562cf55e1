-- ===== src/Simple/Quantify/Results.antt =====
-- The recursion of `apply_quant` of crates/oxidd-rules-bdd/src/simple/apply_rec.rs.
use oxidd.Prelude.{ℕ, zero, suc, ◌≤◌, ◌<◌, ◌≡◌, refl, true, inl, inr, List, arith, min}
use oxidd.Tree.{Assignment, BoolFn}
use oxidd.Outcome.{Run}
use oxidd.Manager.{Edge, Store, num_levels}
use oxidd.Manager.Valid.{Extends}
use oxidd.Represents.{IsFun, IsFun-ext, AtInner}
use oxidd.Cache.{ApplyCache}
use oxidd.Simple.{BddOp, Operation, binary, negate, done}
use oxidd.Simple.Apply.{St, apply_not}
use oxidd.Simple.Meaning.{Substitutions, bin, is_bin, apply2, positive, IsCube, IsCube-Keeps}
use oxidd.Simple.Binary.{read_terminal_bin-Ensures}
use oxidd.Simple.Ensures.{IsValidState, Ensures-weaken, Ensures-bind, Fueled, Fueled-suc}
use oxidd.Simple.Quantify.{apply_quant_operation, apply_quant}
use oxidd.Simple.Quantify.Semantics.{quantify_ext}
use oxidd.Simple.Quantify.Quant.{is_quantifier}
use oxidd.Simple.Quantify.Recursion.{quant-Ensures}
use oxidd.Simple.Quantify.Combined.{IsCombined, combined, Combines}
use oxidd.Simple.Terminal.{Fits, IsPair, terminal_bin-Fits}
use oxidd.Simple.Negation.{apply_not-Ensures}
use oxidd.Simple.Quantify.ApplyQuant.{apply_quant_binary-Ensures}

module _ (A : ApplyCache BddOp) (σ : Substitutions) (q op : BddOp) where
  -- The same function from the operands in the order that the terminal cases chose.
  pair_operands :
      {s : Store} {lo : ℕ} {o : BddOp} {f g a b : Edge} {x y : BoolFn}
      → IsFun s lo f x
      → IsFun s lo g y
      → IsPair s lo op f g x y o a b
      → (z z' : BoolFn) × IsFun s lo a z
        × IsFun s lo b z'
        × AtInner s lo a z
        × AtInner s lo b z'
        × ((r : Assignment) → apply2 (bin op) z z' r ≡ apply2 (bin op) x y r)
  pair_operands {s} {lo} {x = x} {y} hf hg pair = elim pair.pair [
    | inl (ea, eb) ↦ rw (ea, eb) (x, y, hf, hg, pair.left, pair.right, λ r. refl)
    | inr (ea, eb, comm) ↦ rw (ea, eb) (y, x, hg, hf, pair.right, pair.left, λ r. comm (y r) (x r))
  ]

  apply_quant_operation-Ensures :
      (k lo : ℕ) (s : St A) (f g vs : Edge) (x y : BoolFn) (ls : List ℕ)
      (again : Edge → Edge → Edge → Run (St A) Edge) (operator : BddOp) (o : Operation)
      → IsCombined σ q op operator
      → is_quantifier q ≡ true
      → is_bin q ≡ true
      → is_bin op ≡ true
      → IsValidState A σ s
      → Fueled (suc k) lo s.store
      → IsFun s.store lo f x
      → IsFun s.store lo g y
      → IsCube s.store lo vs (positive ls)
      → ((l : ℕ) (a b e : Edge) (z z' : BoolFn) (ms : List ℕ) (t : St A)
          → lo ≤ l
          → l < num_levels s.store
          → Extends s.store t.store
          → IsValidState A σ t
          → IsFun t.store (suc l) a z
          → IsFun t.store (suc l) b z'
          → IsCube t.store (suc l) e (positive ms)
          → Combines A σ q op t (again a b e t) (suc l) ms z z')
      → Fits s.store lo op f g x y o
      → Combines A σ q op s (apply_quant_operation A (suc k) again q op operator vs o s) lo ls x y
  unfolding apply_quant_operation
  apply_quant_operation-Ensures k lo s f g vs x y ls again operator (done h) w isq isb iso v u hf hg
        c sub fits =
      quant-Ensures A σ q (suc k) lo s h vs (apply2 (bin op) x y) ls isq v u fits c
  apply_quant_operation-Ensures k lo s f g vs x y ls again operator (negate h) w isq isb iso v u hf
        hg c sub (z, hz, agree) =
      Ensures-bind A σ (apply_not A (suc k) h) _ (apply_not-Ensures A σ (suc k) lo s h z v u hz)
        (λ e t ext vt he.
          quant-Ensures A σ q (suc k) lo t e vs (apply2 (bin op) x y) ls isq vt
            (record { level = rw ext.levels u.level; fuel = rw ext.levels u.fuel })
            (IsFun-ext he agree) (IsCube-Keeps ext.keeps c))
  apply_quant_operation-Ensures k lo s f g vs x y ls again operator (binary o a b) w isq isb iso v u
        hf hg c sub fits =
      let (z, z', ha, hb, i, j, agree) = pair_operands hf hg fits in
      Ensures-weaken A σ _
        (apply_quant_binary-Ensures A σ q op k again operator w isq isb iso v u ha hb i j
          (λ a' b' e y' y'' ms t ext vt ha' hb' he.
            sub (min i.n.level j.n.level) a' b' e y' y'' ms t (omega (arith, i.above, j.above))
              (omega (arith, i.below)) ext vt ha' hb' he)
          o vs ls c)
        (λ h m.
          IsFun-ext m (quantify_ext (bin q) ls (apply2 (bin op) z z') (apply2 (bin op) x y) agree))

  -- In a valid state, with fuel for the levels below `lo`, `apply_quant` returns the edge of the
  -- quantified result of the operator, or the store is full.
  pub apply_quant-Ensures :
      (k lo : ℕ) (s : St A) (f g vs : Edge) (x y : BoolFn) (ls : List ℕ)
      → is_quantifier q ≡ true
      → is_bin q ≡ true
      → is_bin op ≡ true
      → IsValidState A σ s
      → Fueled k lo s.store
      → IsFun s.store lo f x
      → IsFun s.store lo g y
      → IsCube s.store lo vs (positive ls)
      → Combines A σ q op s (apply_quant A k q op f g vs s) lo ls x y
  unfolding apply_quant
  apply_quant-Ensures zero lo s f g vs x y ls isq isb iso v u hf hg c =
      absurd (omega (arith, u.level, u.fuel))
  apply_quant-Ensures (suc k) lo s f g vs x y ls isq isb iso v u hf hg c =
      let (operator, w) = combined σ q op isq iso in
      let (o, run, fits) = terminal_bin-Fits op v.store_valid iso hf hg in
      rw (w.found, apply_quant)
        (read_terminal_bin-Ensures A σ op f g _ run (
          apply_quant_operation-Ensures k lo s f g vs x y ls (apply_quant A k q op) operator o w isq
            isb iso v u hf hg c
            (λ l a b e z z' ms t above below ext vt ha hb he.
              apply_quant-Ensures k (suc l) t a b e z z' ms isq isb iso vt
                (Fueled-suc u above below ext) ha hb he)
            fits))
