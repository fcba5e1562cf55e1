-- ===== src/Simple/Reachable.antt =====
-- Sequences of calls on the function interface of crates/oxidd-rules-bdd/src/simple/apply_rec.rs,
-- whether they succeed or run out of memory.
use oxidd.Prelude.{ℕ, suc, ◌-◌, ◌^◌, ◌<◌, ◌≡◌, inl, inr, true, List}
use oxidd.Tree.{BoolFn}
use oxidd.Outcome.{Result}
use oxidd.Manager.{Edge, num_levels}
use oxidd.Represents.{IsFun, IsFun-Extends}
use oxidd.Cache.{ApplyCache}
use oxidd.Simple.{BddOp}
use oxidd.Simple.Apply.{St, on_store, apply_bin}
use oxidd.Simple.Meaning.{Substitutions, is_bin, IsCube, positive, Literals}
use oxidd.Simple.Ensures.{IsValidState}
use oxidd.Simple.Functions.{new_var, not_edge, ite_edge}
use oxidd.Simple.Functions.Connectives.{Makes, connectives-Makes, ite_edge-Makes, Fueled-levels}
use oxidd.Simple.Functions.Variables.{MakesVar, new_var-MakesVar}
use oxidd.Simple.Functions.Quantifiers.{
  BooleanOperator, restrict_edge, forall_edge, exist_edge, apply_exist_edge, restrict_edge-Makes,
  quantifiers-Makes, apply_quantifiers-Makes,
}
use oxidd.Simple.Binary.{apply_bin-Ensures}

-- The state after one call on edges of functions.
pub data Call (A : ApplyCache BddOp) : St A → St A → Type 0 where
  adds : (s : St A) → num_levels s.store < 2 ^ 32 - 1 → Call A s (on_store new_var s).1
  negates : (s : St A) (f : Edge) (p : BoolFn) → IsFun s.store 0 f p → Call A s (not_edge A f s).1
  applies :
      (s : St A) (op : BddOp) (f g : Edge) (p q : BoolFn)
      → is_bin op ≡ true
      → IsFun s.store 0 f p
      → IsFun s.store 0 g q
      → Call A s (apply_bin A (suc (num_levels s.store)) op f g s).1
  chooses :
      (s : St A) (f g h : Edge) (p q u : BoolFn)
      → IsFun s.store 0 f p
      → IsFun s.store 0 g q
      → IsFun s.store 0 h u
      → Call A s (ite_edge A f g h s).1
  restricts :
      (s : St A) (f vars : Edge) (p : BoolFn) (ls : Literals)
      → IsFun s.store 0 f p
      → IsCube s.store 0 vars ls
      → Call A s (restrict_edge A f vars s).1
  for_all :
      (s : St A) (f vars : Edge) (p : BoolFn) (ls : List ℕ)
      → IsFun s.store 0 f p
      → IsCube s.store 0 vars (positive ls)
      → Call A s (forall_edge A f vars s).1
  exists :
      (s : St A) (f vars : Edge) (p : BoolFn) (ls : List ℕ)
      → IsFun s.store 0 f p
      → IsCube s.store 0 vars (positive ls)
      → Call A s (exist_edge A f vars s).1
  applies_exists :
      (s : St A) (op : BooleanOperator) (f g vars : Edge) (p u : BoolFn) (ls : List ℕ)
      → IsFun s.store 0 f p
      → IsFun s.store 0 g u
      → IsCube s.store 0 vars (positive ls)
      → Call A s (apply_exist_edge A op f g vars s).1

pub data Reaches (A : ApplyCache BddOp) (s : St A) : St A → Type 0 where
  here : Reaches A s s
  next : {t u : St A} → Reaches A s t → Call A t u → Reaches A s u

module _ (A : ApplyCache BddOp) (σ : Substitutions) where
  -- The state is valid, and every edge of the earlier state has its function.
  pub record Preserves (s t : St A) : Type 0 where
    pub valid : IsValidState A σ t
    pub functions : (f : Edge) (p : BoolFn) → IsFun s.store 0 f p → IsFun t.store 0 f p

  Preserves-Makes :
      {s : St A} (r : Result Edge × St A) (p : BoolFn) → Makes A σ s r p → Preserves s r.1
  Preserves-Makes r p m = record { valid = m.valid; functions = λ f q h. IsFun-Extends h m.extends }

  Preserves-MakesVar :
      {s : St A} (r : Result Edge × St A) → IsValidState A σ s → MakesVar A σ s r → Preserves s r.1
  Preserves-MakesVar r v (inl (e, t, run, vt, _, keeps, _)) =
      rw run (record { valid = vt; functions = keeps })
  Preserves-MakesVar r v (inr (run, full)) = rw run (record { valid = v; functions = λ f p h. h })

  Preserves-Call : {s t : St A} → Call A s t → IsValidState A σ s → Preserves s t
  Preserves-Call (adds s room) v = Preserves-MakesVar _ v (new_var-MakesVar A σ s v room)
  Preserves-Call (negates s f p h) v = Preserves-Makes _ _ (connectives-Makes A σ s f f p p v h h).0
  Preserves-Call (applies s op f g p q b hf hg) v = Preserves-Makes _ _ (
      apply_bin-Ensures A σ (suc (num_levels s.store)) 0 op s f g p q b v (Fueled-levels s.store) hf
        hg)
  Preserves-Call (chooses s f g h p q u hf hg hh) v =
      Preserves-Makes _ _ (ite_edge-Makes A σ s f g h p q u v hf hg hh)
  Preserves-Call (restricts s f vars p ls hf c) v =
      Preserves-Makes _ _ (restrict_edge-Makes A σ s f vars p ls v hf c)
  Preserves-Call (for_all s f vars p ls hf c) v =
      Preserves-Makes _ _ (quantifiers-Makes A σ s f vars p ls v hf c).0
  Preserves-Call (exists s f vars p ls hf c) v =
      Preserves-Makes _ _ (quantifiers-Makes A σ s f vars p ls v hf c).1
  Preserves-Call (applies_exists s op f g vars p u ls hf hg c) v =
      Preserves-Makes _ _ (apply_quantifiers-Makes A σ s op f g vars p u ls v hf hg c).1

  -- After any sequence of the calls that `Call` lists, whether they succeed or find the store full,
  -- a valid state is valid again, and every edge of the first state has the function that it had.
  pub Reaches-Preserves : {s t : St A} → Reaches A s t → IsValidState A σ s → Preserves s t
  Reaches-Preserves here v = record { valid = v; functions = λ f p h. h }
  Reaches-Preserves (next r c) v =
      let before = Reaches-Preserves r v in
      let after = Preserves-Call c before.valid in
      record {
        valid = after.valid;
        functions = λ f p h. after.functions f p (before.functions f p h);
      }
