-- ===== src/Mtbdd/Terminal/Extremum.antt =====
-- The terminal cases of the minimum and the maximum in crates/oxidd-rules-mtbdd/src/lib.rs.
use mathlib.Core.Option
use oxidd.Prelude.{
  ◌≡◌, ◌∙◌, sym, refl, subst, ◌⊎◌, inl, inr, Option, none, some, ◌==◌, Bool-cases, ==_iff,
}
use oxidd.Tree.{Assignment}
use oxidd.Manager.{Edge}
use oxidd.Mtbdd.Int64.{Ordering, less, equal, greater}
use oxidd.Mtbdd.Number.{NumberBase, IsNumber}
use oxidd.Mtbdd.Terminal.{
  Operation, MtNode, inner, terminal, terminal_bin, min, max, min_of, max_of, extremum_cases,
}
use oxidd.Mtbdd.Terminal.Laws.{
  IsValue, Fits, FitsBin, ordered-Fits, unless_nan-Fits, nan_left, nan_right,
}

abbrev pub reversed : Ordering → Ordering
reversed less = greater
reversed equal = equal
reversed greater = less

-- What the comparison of numbers promises.
pub record IsCompared {T : Type 0} (N : NumberBase T) : Type 0 where
  pub self : (a : T) → N.partial_cmp a a ≡ some equal
  pub sound : (a b : T) → N.partial_cmp a b ≡ some equal → a ≡ b
  pub flip : (a b : T) → N.partial_cmp b a ≡ Option.map reversed (N.partial_cmp a b)
  pub nan : (a : T) → (N.partial_cmp N.nan a ≡ none) ⊎ (a ≡ N.nan)

module _ {T : Type 0} (N : NumberBase T) where
  abbrev lesser_by : T → T → Option Ordering → T
  lesser_by a b (some less) = a
  lesser_by a b (some equal) = a
  lesser_by a b (some greater) = b
  lesser_by a b none = N.nan

  abbrev greater_by : T → T → Option Ordering → T
  greater_by a b (some less) = b
  greater_by a b (some equal) = a
  greater_by a b (some greater) = a
  greater_by a b none = N.nan

  -- The lesser and the greater of two numbers, NaN where they do not compare.
  abbrev pub lesser : T → T → T
  lesser a b = lesser_by a b (N.partial_cmp a b)

  abbrev pub greater_of : T → T → T
  greater_of a b = greater_by a b (N.partial_cmp a b)

  module _ (compared : IsCompared N) where
    lesser_reversed :
        (a b : T) (c : Option Ordering)
        → N.partial_cmp a b ≡ c
        → lesser_by a b c ≡ lesser_by b a (Option.map reversed c)
    lesser_reversed a b (some less) h = refl
    lesser_reversed a b (some equal) h = compared.sound a b h
    lesser_reversed a b (some greater) h = refl
    lesser_reversed a b none h = refl

    greater_reversed :
        (a b : T) (c : Option Ordering)
        → N.partial_cmp a b ≡ c
        → greater_by a b c ≡ greater_by b a (Option.map reversed c)
    greater_reversed a b (some less) h = refl
    greater_reversed a b (some equal) h = compared.sound a b h
    greater_reversed a b (some greater) h = refl
    greater_reversed a b none h = refl

    lesser_comm : (a b : T) → lesser a b ≡ lesser b a
    lesser_comm a b = rw (compared.flip a b) (lesser_reversed a b (N.partial_cmp a b) refl)

    greater_comm : (a b : T) → greater_of a b ≡ greater_of b a
    greater_comm a b = rw (compared.flip a b) (greater_reversed a b (N.partial_cmp a b) refl)

    -- A choice by the comparison that is NaN where there is none, and the first of equal numbers.
    nan_absorbs :
        (by : T → T → Option Ordering → T)
        → ((a b : T) → by a b none ≡ N.nan)
        → ((a b : T) → by a b (some equal) ≡ a)
        → (a : T) → by N.nan a (N.partial_cmp N.nan a) ≡ N.nan
    nan_absorbs by apart same a = elim (compared.nan a) [
      | inl h ↦ rw h (apart N.nan a)
      | inr h ↦ rw (h, compared.self N.nan) (same N.nan N.nan)
    ]

module _ {T : Type 0} (N : NumberBase T) {Valid : T → Type 0} (law : IsNumber N Valid)
    (get_node : Edge → MtNode T) (value : Edge → Assignment → T) (compared : IsCompared N)
    (v : IsValue N law get_node value) (f g : Edge) where
  -- The outcome for a choice by the comparison, from what it is for two terminals.
  module _ (by : T → T → Option Ordering → T)
      (of : Edge → Edge → Option Ordering → Operation T) where
    abbrev chosen_by : T → T → T
    chosen_by a b = by a b (N.partial_cmp a b)

    abbrev ChoiceFits : Operation T → Type 0
    ChoiceFits o = Fits N law get_node value chosen_by min f g o

    extremum_cases-Fits :
        ((a b : T) → by a b none ≡ N.nan)
        → ((a b : T) → by a b (some equal) ≡ a)
        → ((a b : T) → chosen_by a b ≡ chosen_by b a)
        → ((a b : T)
            → get_node f ≡ terminal a
            → get_node g ≡ terminal b
            → (c : Option Ordering) → N.partial_cmp a b ≡ c
            → ChoiceFits (of f g c))
        → (m n : MtNode T) → get_node f ≡ m
        → get_node g ≡ n
        → ChoiceFits (extremum_cases N of f g m n)
    unfolding extremum_cases
    extremum_cases-Fits apart same comm both (terminal a) (terminal b) h k =
        both a b h k (N.partial_cmp a b) refl
    extremum_cases-Fits apart same comm both (terminal t) inner h k =
        unless_nan-Fits N law get_node value chosen_by min f g t _
          (nan_left N law get_node value v f g chosen_by min t h
            (nan_absorbs N compared by apart same))
          (ordered-Fits N law get_node value chosen_by min f g comm)
    extremum_cases-Fits apart same comm both inner (terminal t) h k =
        unless_nan-Fits N law get_node value chosen_by min f g t _
          (nan_right N law get_node value v f g chosen_by min t k
            (λ a. comm a N.nan ∙ nan_absorbs N compared by apart same a))
          (ordered-Fits N law get_node value chosen_by min f g comm)
    extremum_cases-Fits apart same comm both inner inner h k =
        ordered-Fits N law get_node value chosen_by min f g comm

    same_edge :
        ((a b : T) → by a b (some equal) ≡ a)
        → f ≡ g
        → (r : Assignment) → value f r ≡ chosen_by (value f r) (value g r)
    same_edge same h r =
        subst (λ k. value f r ≡ chosen_by (value f r) (value k r)) h
          (sym (rw (compared.self (value f r)) (same (value f r) (value f r))))

  min_of-Fits :
      (a b : T)
      → get_node f ≡ terminal a
      → get_node g ≡ terminal b
      → (c : Option Ordering) → N.partial_cmp a b ≡ c
      → Fits N law get_node value (lesser N) min f g (min_of N f g c)
  min_of-Fits a b h k (some less) e = λ r. rw (v.at_terminal f a h r, v.at_terminal g b k r, e) refl
  min_of-Fits a b h k (some equal) e =
      λ r. rw (v.at_terminal f a h r, v.at_terminal g b k r, e) refl
  min_of-Fits a b h k (some greater) e =
      λ r. rw (v.at_terminal f a h r, v.at_terminal g b k r, e) refl
  min_of-Fits a b h k none e = λ r. rw (v.at_terminal f a h r, v.at_terminal g b k r, e) refl

  max_of-Fits :
      (a b : T)
      → get_node f ≡ terminal a
      → get_node g ≡ terminal b
      → (c : Option Ordering) → N.partial_cmp a b ≡ c
      → Fits N law get_node value (greater_of N) min f g (max_of N f g c)
  max_of-Fits a b h k (some less) e = λ r. rw (v.at_terminal f a h r, v.at_terminal g b k r, e) refl
  max_of-Fits a b h k (some equal) e =
      λ r. rw (v.at_terminal f a h r, v.at_terminal g b k r, e) refl
  max_of-Fits a b h k (some greater) e =
      λ r. rw (v.at_terminal f a h r, v.at_terminal g b k r, e) refl
  max_of-Fits a b h k none e = λ r. rw (v.at_terminal f a h r, v.at_terminal g b k r, e) refl

  -- For numbers with the laws, the comparison's among them, `terminal_bin` answers for the minimum
  -- with an edge or a number of the right value, or with operands of the minimum that have the
  -- right value. It answers likewise for the maximum, where the operands have the right value for
  -- the maximum, but the operator to go on with is the minimum, as in the code.
  pub terminal_bin_extremum-FitsBin :
      FitsBin N law get_node value v f g (lesser N) min (terminal_bin N get_node min f g)
      × FitsBin N law get_node value v f g (greater_of N) min (terminal_bin N get_node max f g)
  unfolding terminal_bin
  terminal_bin_extremum-FitsBin = elim (Bool-cases (f == g)) [
    | inl here ↦
        let same = (==_iff f g).0 here in
        rw here (
          same_edge (lesser_by N) (min_of N) (λ a b. refl) same,
          same_edge (greater_by N) (max_of N) (λ a b. refl) same,
        )
    | inr apart ↦ rw apart (
      extremum_cases-Fits (lesser_by N) (min_of N) (λ a b. refl) (λ a b. refl)
          (lesser_comm N compared) min_of-Fits (get_node f) (get_node g) refl refl,
      extremum_cases-Fits (greater_by N) (max_of N) (λ a b. refl) (λ a b. refl)
          (greater_comm N compared) max_of-Fits (get_node f) (get_node g) refl refl,
    )
  ]
