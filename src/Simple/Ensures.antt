-- ===== src/Simple/Ensures.antt =====
-- What every apply algorithm ensures, and the rules by which its steps are taken: the state
-- stays valid and keeps its nodes, and an error is only ever that of a full store.
use oxidd.Prelude.{
  ℕ, suc, ◌+◌, ◌≤◌, ◌<◌, ◌≢◌, ◌≡◌, sym, refl, subst, some, ◌⊎◌, inl, inr, List, arith, ◌==◌,
  Option-cases, Bool-cases,
}
use oxidd.Tree.{BoolFn}
use oxidd.Outcome.{Result, ok, err, out_of_memory, panic, out_of_fuel, Run, pure, and_then, ◌>>=◌}
use oxidd.Manager.{Edge, Node, Store, get_node, num_levels}
use oxidd.Manager.Valid.{Keeps, Extends, Extends-refl, Extends-trans, IsValid, IsFull}
use oxidd.Manager.Insert.{get_or_insert-Inserts}
use oxidd.Represents.{IsFun, IsFun-Keeps, IsFun-le, IsFun-ext, IsFun-agree, node-IsFun, branch}
use oxidd.Cache.{ApplyCache}
use oxidd.Simple.{BddOp, reduce, rules_reduce, then_insert}
use oxidd.Simple.Apply.{St, on_store, read_node, cache_get, cache_add, cached}
use oxidd.Simple.Meaning.{
  Operand, DenotesAll, DenotesAll-back, KnownAll, Known-Keeps, Substitutions, sem, out_level,
}

-- The outcome of a run: the result fits, or the store is full.
abbrev pub Post : {B : Type 0} → Result B → (B → Type 0) → Type 0 → Type 0
Post (ok b) P full = P b
Post (err out_of_memory) P full = full
Post (err panic) P full = ⊥
Post (err out_of_fuel) P full = ⊥

-- The fuel covers the levels from `lo` down.
pub record Fueled (k lo : ℕ) (s : Store) : Type 0 where
  pub level : lo ≤ num_levels s
  pub fuel : num_levels s < k + lo

pub Fueled-suc :
    {k lo l : ℕ} {s t : Store}
    → Fueled (suc k) lo s
    → lo ≤ l
    → l < num_levels s
    → Extends s t
    → Fueled k (suc l) t
Fueled-suc f above below x = record { level = rw x.levels below; fuel = omega (arith, x.levels) }

module _ (A : ApplyCache BddOp) (σ : Substitutions) where
  -- Whatever the operands denote in `s`, the edge `h` of `t` is what the operator makes of it.
  abbrev pub Means : Store → Store → BddOp → List Edge → List ℕ → Edge → Type 0
  Means s t op es ns h =
      (lo : ℕ) (vs : List Operand) (p : BoolFn)
      → DenotesAll s lo es vs
      → sem σ op ns vs ≡ some p
      → IsFun t (out_level op lo) h p

  -- Every answer of the cache is right.
  abbrev pub IsSound : Store → A.Cache → Type 0
  IsSound s c =
      (op : BddOp) (es : List Edge) (ns : List ℕ) (h : Edge)
      → A.get c op es ns ≡ some h
      → KnownAll s es × Means s s op es ns h

  pub record IsValidState (s : St A) : Type 0 where
    pub store_valid : IsValid s.store
    pub sound : IsSound s.store s.cache

  pub record Ensures {B : Type 0} (s : St A) (r : Result B × St A) (P : B → Store → Type 0)
      : Type 0 where
    pub extends : Extends s.store r.1.store
    pub valid : IsValidState r.1
    pub post : Post r.0 (λ b. P b r.1.store) (IsFull r.1.store)

  Means-Keeps :
      {t u : Store} (s : Store) (op : BddOp) (es : List Edge) (ns : List ℕ) {h : Edge}
      → Keeps t u
      → Means s t op es ns h
      → Means s u op es ns h
  Means-Keeps s op es ns x m lo vs p d e = IsFun-Keeps (m lo vs p d e) x

  Means-later :
      {s s' t : Store} (op : BddOp) (es : List Edge) (ns : List ℕ) {h : Edge}
      → Keeps s s'
      → KnownAll s es
      → Means s t op es ns h
      → Means s' t op es ns h
  Means-later op es ns x k m lo vs p d e = m lo vs p (DenotesAll-back lo es vs x k d) e

  pub IsSound-Keeps : {s t : Store} {c : A.Cache} → Keeps s t → IsSound s c → IsSound t c
  IsSound-Keeps x sound op es ns h e =
      let (k, m) = sound op es ns h e in
      (Known-Keeps x es k, Means-later op es ns x k (Means-Keeps _ op es ns x m))

  pub Ensures-pure :
      {B : Type 0} {s : St A} (b : B) {P : B → Store → Type 0}
      → IsValidState s
      → P b s.store
      → Ensures s (pure b s) P
  Ensures-pure {s = s} b v h = record { extends = Extends-refl s.store; valid = v; post = h }

  pub Ensures-weaken :
      {B : Type 0} {s : St A} {P Q : B → Store → Type 0} (m : Result B × St A)
      → Ensures s m P
      → ((b : B) → P b m.1.store → Q b m.1.store)
      → Ensures s m Q
  Ensures-weaken (ok b, t) e f = record { extends = e.extends; valid = e.valid; post = f b e.post }
  Ensures-weaken (err out_of_memory, t) e f = record {
    extends = e.extends;
    valid = e.valid;
    post = e.post;
  }
  Ensures-weaken (err panic, t) e f = absurd e.post
  Ensures-weaken (err out_of_fuel, t) e f = absurd e.post

  and_then-Ensures :
      {B D : Type 0} {s : St A} {P : B → Store → Type 0} {Q : D → Store → Type 0} (r : Result B)
      (t : St A) (f : B → Run (St A) D)
      → Ensures s (r, t) P
      → ((b : B) → Extends s.store t.store → IsValidState t → P b t.store → Ensures t (f b t) Q)
      → Ensures s (and_then r t f) Q
  and_then-Ensures (ok b) t f e k =
      let rest = k b e.extends e.valid e.post in
      record {
        extends = Extends-trans e.extends rest.extends;
        valid = rest.valid;
        post = rest.post;
      }
  and_then-Ensures (err out_of_memory) t f e k = record {
    extends = e.extends;
    valid = e.valid;
    post = e.post;
  }
  and_then-Ensures (err panic) t f e k = absurd e.post
  and_then-Ensures (err out_of_fuel) t f e k = absurd e.post

  -- The rule for one step of a `do` block.
  pub Ensures-bind :
      {B D : Type 0} {s : St A} {P : B → Store → Type 0} {Q : D → Store → Type 0} (m : Run (St A) B)
      (f : B → Run (St A) D)
      → Ensures s (m s) P
      → ((b : B) (t : St A)
          → Extends s.store t.store
          → IsValidState t
          → P b t.store
          → Ensures t (f b t) Q)
      → Ensures s ((m >>= f) s) Q
  Ensures-bind {s = s} m f e k = and_then-Ensures (m s).0 (m s).1 f e (λ b. k b (m s).1)

  -- A node is read where there is one.
  pub read_node-Ensures :
      {D : Type 0} {s : St A} {Q : D → Store → Type 0} (e : Edge) {n : Node}
      (f : Node → Run (St A) D)
      → get_node s.store e ≡ some n
      → Ensures s (f n s) Q
      → Ensures s ((read_node e >>= f) s) Q
  unfolding read_node
  read_node-Ensures e f h k = rw (h, read_node) k

  module _ {s : St A} (op : BddOp) (es : List Edge) (ns : List ℕ) (compute : Run (St A) Edge)
      (v : IsValidState s) (k : KnownAll s.store es) where
    add-IsSound :
        {t : St A} {h : Edge}
        → Extends s.store t.store
        → IsValidState t
        → Means s.store t.store op es ns h
        → IsSound t.store (A.add t.cache op es ns h)
    add-IsSound {t} {h} x vt m op' es' ns' w e =
        elim (A.get-add t.cache op op' es es' ns ns' h w e) [
          | inl (so, se, sn, sw) ↦
              rw (so, se, sn, sw) (Known-Keeps x.keeps es k, Means-later op es ns x.keeps k m)
          | inr old ↦ vt.sound op' es' ns' w old
        ]

    -- A hit and a computed answer are both what the operator makes of the operands.
    pub cached-Ensures :
        Ensures s (compute s) (λ h t. Means s.store t op es ns h)
        → Ensures s (cached A op es ns compute s) (λ h t. Means s.store t op es ns h)
    unfolding cached cache_get cache_add
    cached-Ensures run = elim (Option-cases (A.get s.cache op es ns)) [
      | inr (h, hit) ↦ rw hit (Ensures-pure h v (v.sound op es ns h hit).1)
      | inl miss ↦ rw miss (
          Ensures-bind compute _ run (λ h t x vt m. record {
            extends = Extends-refl t.store;
            valid = record { store_valid = vt.store_valid; sound = add-IsSound x vt m };
            post = m;
          }))
    ]

  -- Runs a store operation that finds or inserts a node.
  on_store-Ensures :
      {s : St A} (m : Run Store Edge) {P : Edge → Store → Type 0}
      → IsValidState s
      → ((h : Edge) × (u : Store) × (m s.store ≡ (ok h, u)) × Extends s.store u × IsValid u × P h u)
        ⊎ ((m s.store ≡ (err out_of_memory, s.store)) × IsFull s.store)
      → Ensures s (on_store m s) P
  unfolding on_store
  on_store-Ensures {s} m {P} v (inl (h, u, run, x, vu, ph)) = rw run (record {
    extends = x;
    valid = record { store_valid = vu; sound = IsSound-Keeps x.keeps v.sound };
    post = ph;
  })
  on_store-Ensures {s} m v (inr (run, full)) =
      rw run (record { extends = Extends-refl s.store; valid = v; post = full })

  -- Reduction makes the function by cases on the level.
  pub reduce-Ensures :
      {s : St A} {l : ℕ} {t e : Edge} {p q : BoolFn}
      → IsValidState s
      → l < num_levels s.store
      → IsFun s.store (suc l) t p
      → IsFun s.store (suc l) e q
      → Ensures s (on_store (reduce l t e) s) (λ h u. IsFun u l h (branch l p q))
  unfolding reduce rules_reduce then_insert
  reduce-Ensures {s} {l} {t} {e} {p} {q} v below a b =
      on_store-Ensures (reduce l t e) v (elim (Bool-cases (t == e)) [
        | inl same ↦
            let te : t ≡ e = ground arith in
            let agree = IsFun-agree a (subst (λ k. IsFun s.store (suc l) k q) (sym te) b) in
            inl (
              t,
              s.store,
              rw same refl,
              Extends-refl s.store,
              v.store_valid,
              IsFun-le (IsFun-ext a (λ r. ground (arith, agree r))) (omega arith),
            )
        | inr apart ↦
            let ne : t ≢ e = ground arith in
            elim (get_or_insert-Inserts s.store (record { level = l; child0 = t; child1 = e })
              v.store_valid below ne) [
                | inl (h, u, run, x, vu, at) ↦
                    inl (h, u, rw apart run, x, vu, node-IsFun v.store_valid x.keeps a b ne at)
                | inr (run, full) ↦ inr (rw apart run, full)
              ]
      ])
