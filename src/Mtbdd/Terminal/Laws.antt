-- ===== src/Mtbdd/Terminal/Laws.antt =====
-- The terminal cases of crates/oxidd-rules-mtbdd/src/lib.rs give the value of the operation.
use oxidd.Prelude.{
  ◌≡◌, ◌≢◌, ◌∙◌, ap, refl, Option, none, some, ltb, if◌then◌else◌, Bool-cases, inl, inr,
}
use oxidd.Tree.{Assignment}
use oxidd.Manager.{Edge}
use oxidd.Mtbdd.Number.{NumberBase, IsNumber}
use oxidd.Mtbdd.Terminal.{
  MtbddOp, add, sub, mul, div, Operation, binary, done, constant, MtNode, inner, terminal,
  in_edge_order, unless_nan, add_cases, sub_cases, mul_cases, div_cases, terminal_bin,
}

module _ {T : Type 0} (N : NumberBase T) {Valid : T → Type 0} (law : IsNumber N Valid)
    (get_node : Edge → MtNode T) (value : Edge → Assignment → T) where
  -- The value of an edge to a terminal is the terminal, and all values are of the type.
  pub record IsValue : Type 0 where
    pub at_terminal :
        (e : Edge) (t : T) → get_node e ≡ terminal t → (r : Assignment) → value e r ≡ t
    pub valid : (e : Edge) (r : Assignment) → Valid (value e r)

  -- The outcome stands for the operation on the values.
  abbrev pub Fits : (T → T → T) → MtbddOp → Edge → Edge → Operation T → Type 0
  Fits apply op f g (done h) = (r : Assignment) → value h r ≡ apply (value f r) (value g r)
  Fits apply op f g (constant t) = (r : Assignment) → t ≡ apply (value f r) (value g r)
  Fits apply op f g (binary o a b) =
      (o ≡ op) × ((r : Assignment) → apply (value a r) (value b r) ≡ apply (value f r) (value g r))

  pub ordered-Fits :
      (apply : T → T → T) (op : MtbddOp) (f g : Edge)
      → ((a b : T) → apply a b ≡ apply b a)
      → Fits apply op f g (in_edge_order N op f g)
  ordered-Fits apply op f g comm = elim (Bool-cases (ltb g f)) [
    | inl h ↦ rw h (refl, λ r. comm (value g r) (value f r))
    | inr h ↦ rw h (refl, λ r. refl)
  ]

  pub unless_nan-Fits :
      (apply : T → T → T) (op : MtbddOp) (f g : Edge) (t : T) (rest : Operation T)
      → (t ≡ N.nan → (r : Assignment) → N.nan ≡ apply (value f r) (value g r))
      → Fits apply op f g rest
      → Fits apply op f g (unless_nan N t rest)
  unless_nan-Fits apply op f g t rest h k = elim (Bool-cases (N.eq t N.nan)) [
    | inl e ↦ rw e (h (law.eq_sound t N.nan e))
    | inr e ↦ rw e k
  ]

  module _ (v : IsValue) (f g : Edge) (apply : T → T → T) (op : MtbddOp) where
    -- A terminal operand on either side, of which `unit` leaves the other operand as it is.
    pub nan_left :
        (t : T)
        → get_node f ≡ terminal t
        → ((a : T) → apply N.nan a ≡ N.nan)
        → t ≡ N.nan
        → (r : Assignment) → N.nan ≡ apply (value f r) (value g r)
    nan_left t h absorbs e r = cc (v.at_terminal f t h r, e, absorbs (value g r))

    pub nan_right :
        (t : T)
        → get_node g ≡ terminal t
        → ((a : T) → apply a N.nan ≡ N.nan)
        → t ≡ N.nan
        → (r : Assignment) → N.nan ≡ apply (value f r) (value g r)
    nan_right t h absorbs e r = cc (v.at_terminal g t h r, e, absorbs (value f r))

    left-Fits :
        (unit t : T) (rest : Operation T)
        → get_node f ≡ terminal t
        → ((a : T) → Valid a → apply unit a ≡ a)
        → ((a : T) → apply N.nan a ≡ N.nan)
        → Fits apply op f g rest
        → Fits apply op f g (if N.eq t unit then done g else unless_nan N t rest)
    left-Fits unit t rest h neutral absorbs k = elim (Bool-cases (N.eq t unit)) [
      | inl e ↦ rw e (λ r.
          cc (v.at_terminal f t h r, law.eq_sound t unit e, neutral (value g r) (v.valid g r)))
      | inr e ↦ rw e (unless_nan-Fits apply op f g t rest (nan_left t h absorbs) k)
    ]

    right-Fits :
        (unit t : T) (rest : Operation T)
        → get_node g ≡ terminal t
        → ((a : T) → Valid a → apply a unit ≡ a)
        → ((a : T) → apply a N.nan ≡ N.nan)
        → Fits apply op f g rest
        → Fits apply op f g (if N.eq t unit then done f else unless_nan N t rest)
    right-Fits unit t rest h neutral absorbs k = elim (Bool-cases (N.eq t unit)) [
      | inl e ↦ rw e (λ r.
          cc (v.at_terminal g t h r, law.eq_sound t unit e, neutral (value f r) (v.valid f r)))
      | inr e ↦ rw e (unless_nan-Fits apply op f g t rest (nan_right t h absorbs) k)
    ]

    both-Fits :
        (a b : T)
        → get_node f ≡ terminal a
        → get_node g ≡ terminal b
        → Fits apply op f g (constant (apply a b))
    both-Fits a b h k r = cc (v.at_terminal f a h r, v.at_terminal g b k r)

  module _ (v : IsValue) (f g : Edge) where
    add_cases-Fits :
        (m n : MtNode T)
        → get_node f ≡ m
        → get_node g ≡ n
        → Fits N.add add f g (add_cases N f g m n)
    unfolding add_cases
    add_cases-Fits (terminal a) (terminal b) h k = both-Fits v f g N.add add a b h k
    add_cases-Fits (terminal t) inner h k =
        left-Fits v f g N.add add N.zero t _ h law.zero_add law.nan_add
          (ordered-Fits N.add add f g law.add_comm)
    add_cases-Fits inner (terminal t) h k =
        right-Fits v f g N.add add N.zero t _ k (λ a ok. law.add_comm a N.zero ∙ law.zero_add a ok)
          (λ a. law.add_comm a N.nan ∙ law.nan_add a) (ordered-Fits N.add add f g law.add_comm)
    add_cases-Fits inner inner h k = ordered-Fits N.add add f g law.add_comm

    mul_cases-Fits :
        (m n : MtNode T)
        → get_node f ≡ m
        → get_node g ≡ n
        → Fits N.mul mul f g (mul_cases N f g m n)
    unfolding mul_cases
    mul_cases-Fits (terminal a) (terminal b) h k = both-Fits v f g N.mul mul a b h k
    mul_cases-Fits (terminal t) inner h k =
        left-Fits v f g N.mul mul N.one t _ h law.one_mul law.nan_mul
          (ordered-Fits N.mul mul f g law.mul_comm)
    mul_cases-Fits inner (terminal t) h k =
        right-Fits v f g N.mul mul N.one t _ k (λ a ok. law.mul_comm a N.one ∙ law.one_mul a ok)
          (λ a. law.mul_comm a N.nan ∙ law.nan_mul a) (ordered-Fits N.mul mul f g law.mul_comm)
    mul_cases-Fits inner inner h k = ordered-Fits N.mul mul f g law.mul_comm

    div_cases-Fits :
        (m n : MtNode T)
        → get_node f ≡ m
        → get_node g ≡ n
        → Fits N.div div f g (div_cases N f g m n)
    unfolding div_cases
    div_cases-Fits (terminal a) (terminal b) h k = both-Fits v f g N.div div a b h k
    div_cases-Fits (terminal t) inner h k =
        unless_nan-Fits N.div div f g t _ (nan_left v f g N.div div t h (λ a. (law.nan_div a).0))
          (refl, λ r. refl)
    div_cases-Fits inner (terminal t) h k =
        right-Fits v f g N.div div N.one t _ k (λ a ok. law.div_one a) (λ a. (law.nan_div a).1)
          (refl, λ r. refl)
    div_cases-Fits inner inner h k = (refl, λ r. refl)

    sub_cases-Fits :
        (m n : MtNode T)
        → get_node f ≡ m
        → get_node g ≡ n
        → m ≢ terminal N.zero
        → Fits N.sub sub f g (sub_cases N f g m n)
    unfolding sub_cases
    sub_cases-Fits (terminal a) (terminal b) h k apart = both-Fits v f g N.sub sub a b h k
    sub_cases-Fits (terminal t) inner h k apart = elim (Bool-cases (N.eq t N.zero)) [
      | inl e ↦ absurd (apart (ap terminal (law.eq_sound t N.zero e)))
      | inr e ↦ rw e (
          unless_nan-Fits N.sub sub f g t _ (nan_left v f g N.sub sub t h (λ a. (law.nan_sub a).0))
            (refl, λ r. refl))
    ]
    sub_cases-Fits inner (terminal t) h k apart =
        right-Fits v f g N.sub sub N.zero t _ k law.sub_zero (λ a. (law.nan_sub a).1)
          (refl, λ r. refl)
    sub_cases-Fits inner inner h k apart = (refl, λ r. refl)

    abbrev pub FitsBin : (T → T → T) → MtbddOp → Option (Operation T) → Type 0
    FitsBin apply op none = ⊥
    FitsBin apply op (some o) = Fits apply op f g o

    -- For numbers with the laws, whatever stands behind the edges, `terminal_bin` answers for the
    -- addition, the multiplication and the division with an edge or a number of the right value, or
    -- with operands of the same operator that have the right value.
    pub terminal_bin-FitsBin :
        FitsBin N.add add (terminal_bin N get_node add f g)
        × FitsBin N.mul mul (terminal_bin N get_node mul f g)
        × FitsBin N.div div (terminal_bin N get_node div f g)
    unfolding terminal_bin
    terminal_bin-FitsBin = (
      add_cases-Fits (get_node f) (get_node g) refl refl,
      mul_cases-Fits (get_node f) (get_node g) refl refl,
      div_cases-Fits (get_node f) (get_node g) refl refl,
    )

    -- So it does for the subtraction, unless the first operand is the number 0.
    pub terminal_bin_sub-FitsBin :
        get_node f ≢ terminal N.zero → FitsBin N.sub sub (terminal_bin N get_node sub f g)
    unfolding terminal_bin
    terminal_bin_sub-FitsBin apart = sub_cases-Fits (get_node f) (get_node g) refl refl apart
