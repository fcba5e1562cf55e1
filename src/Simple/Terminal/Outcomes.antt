-- ===== src/Simple/Terminal/Outcomes.antt =====
-- `terminal_bin` of crates/oxidd-rules-bdd/src/simple/mod.rs: what it has to leave, and the
-- lemmas on each way to leave it.
use oxidd.Prelude.{ℕ, ◌≡◌, refl, Bool, not, ◌⊎◌, inl, inr, ltb, Bool-cases}
use oxidd.Tree.{Assignment, BoolFn}
use oxidd.Manager.{Edge, Node, inner, terminal, Store, get_terminal}
use oxidd.Represents.{IsFun, IsFun-ext, get_terminal-IsFun, AtInner}
use oxidd.Simple.{BddOp, Operation, binary, negate, done, ordered_pair}
use oxidd.Simple.Meaning.{bin, apply2}

module _ (s : Store) (lo : ℕ) (op : BddOp) (f g : Edge) (p q : BoolFn) where
  -- Both operands are inner nodes, and are kept or, under a commutative operator, exchanged.
  pub record IsPair (op' : BddOp) (a b : Edge) : Type 0 where
    pub same_op : op' ≡ op
    pub left : AtInner s lo f p
    pub right : AtInner s lo g q
    pub pair : ((a ≡ f) × (b ≡ g)) ⊎ ((a ≡ g) × (b ≡ f) × ((x y : Bool) → bin op x y ≡ bin op y x))

  -- The operation left to do gives the binary operation's function.
  abbrev pub Fits : Operation → Type 0
  Fits (done e) = IsFun s lo e (apply2 (bin op) p q)
  Fits (negate e) =
      (u : BoolFn) × IsFun s lo e u × ((r : Assignment) → not (u r) ≡ bin op (p r) (q r))
  Fits (binary op' a b) = IsPair op' a b

-- What the node of an edge says of its function.
abbrev pub AtNode : Store → ℕ → Edge → BoolFn → Node → Type 0
AtNode s lo e p (inner n) = (i : AtInner s lo e p) × (i.n ≡ n)
AtNode s lo e p (terminal b) = (r : Assignment) → p r ≡ b

module _ {s : Store} {lo : ℕ} {f g : Edge} {p q : BoolFn} (hf : IsFun s lo f p)
    (hg : IsFun s lo g q) where
  abbrev pub Is : BddOp → Operation → Type 0
  Is op o = Fits s lo op f g p q o

  pub done_terminal :
      (b : Bool) (op : BddOp)
      → ((r : Assignment) → b ≡ bin op (p r) (q r))
      → Is op (done (get_terminal b))
  done_terminal b op h = IsFun-ext (get_terminal-IsFun s lo b) h

  pub done_left : (op : BddOp) → ((r : Assignment) → p r ≡ bin op (p r) (q r)) → Is op (done f)
  done_left op h = IsFun-ext hf h

  pub done_right : (op : BddOp) → ((r : Assignment) → q r ≡ bin op (p r) (q r)) → Is op (done g)
  done_right op h = IsFun-ext hg h

  pub not_left :
      (op : BddOp) → ((r : Assignment) → not (p r) ≡ bin op (p r) (q r)) → Is op (negate f)
  not_left op h = (p, hf, h)

  pub not_right :
      (op : BddOp) → ((r : Assignment) → not (q r) ≡ bin op (p r) (q r)) → Is op (negate g)
  not_right op h = (q, hg, h)

  pub kept : (op : BddOp) → AtInner s lo f p → AtInner s lo g q → Is op (binary op f g)
  kept op a b = record { same_op = refl; left = a; right = b; pair = inl (refl, refl) }

  pub paired :
      (op : BddOp)
      → ((x y : Bool) → bin op x y ≡ bin op y x)
      → AtInner s lo f p
      → AtInner s lo g q
      → Is op (ordered_pair op f g)
  unfolding ordered_pair
  paired op comm a b = elim (Bool-cases (ltb g f)) [
    | inl yes' ↦
        rw yes' (record { same_op = refl; left = a; right = b; pair = inr (refl, refl, comm) })
    | inr no' ↦ rw no' (kept op a b)
  ]
