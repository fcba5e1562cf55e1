-- ===== src/Simple/Count/Models.antt =====
-- The number of satisfying assignments of a Boolean function, and of the values that the recursion
-- of `sat_count_edge` computes for a decision tree.
use oxidd.Prelude.{
  ℕ, zero, suc, ◌+◌, ◌*◌, ◌/◌, ◌<◌, ◌≡◌, ◌∙◌, ap, sym, refl, Bool, true, false, arith, ◌==◌,
  if◌then◌else◌, Bool-cases, inl, inr, one_if, ==_iff, subst,
}
use oxidd.Tree.{Tree, leaf, node, Assignment, BoolFn, eval, IsOrdered, update}
use oxidd.Table.Mask.{double}

-- The assignments to the `m` levels from `lo` on that satisfy `p`, the other levels as in `r`.
abbrev pub models : ℕ → ℕ → BoolFn → Assignment → ℕ
models zero lo p r = one_if (p r)
models (suc m) lo p r =
    models m (suc lo) p (update r lo true) + models m (suc lo) p (update r lo false)

-- The value of a tree: that of ⊤ halved for each test that stays open.
abbrev pub weight : ℕ → Tree → ℕ
weight vars (leaf b) = if b then double vars else 0
weight vars (node l t u) = (weight vars t + weight vars u) / 2

-- Every test stands above the level `top`.
abbrev pub Below : ℕ → Tree → Type 0
Below top (leaf b) = Unit
Below top (node l t u) = (l < top) × Below top t × Below top u

update_other : (r : Assignment) (l k : ℕ) (b : Bool) → k < l → update r l b k ≡ r k
update_other r l k b h = ground arith

update_same : (r : Assignment) (l : ℕ) (b : Bool) → update r l b l ≡ b
update_same r l b = ground arith

pub models-ext :
    (m lo : ℕ) (p q : BoolFn) (r : Assignment)
    → ((s : Assignment) → ((k : ℕ) → k < lo → s k ≡ r k) → p s ≡ q s)
    → models m lo p r ≡ models m lo q r
models-ext zero lo p q r h = ap one_if (h r (λ k _. refl))
models-ext (suc m) lo p q r h = omega (
  arith,
  models-ext m (suc lo) p q (update r lo true)
      (λ s same. h s (λ k below. same k (omega arith) ∙ update_other r lo k true below)),
  models-ext m (suc lo) p q (update r lo false)
      (λ s same. h s (λ k below. same k (omega arith) ∙ update_other r lo k false below)),
)

halves : (d a b x y : ℕ) → x ≡ d * 2 * a → y ≡ d * 2 * b → (x + y) / 2 ≡ d * (a + b)
halves d a b x y h k = grind (arith, h, k)

twice : (d a b x : ℕ) → x ≡ d * 2 * a → x ≡ d * 2 * b → x ≡ d * (a + b)
twice d a b x h k = grind (arith, h, k)

weight-leaf :
    (m lo c vars : ℕ) (b : Bool) (r : Assignment)
    → c + m ≡ vars
    → weight vars (leaf b) ≡ double c * models m lo (λ _. b) r
weight-leaf zero lo c vars true r e =
    let same : c ≡ vars = omega (arith, e) in
    subst (λ k. double k ≡ double c * 1) same (omega arith)
weight-leaf zero lo c vars false r e = omega arith
weight-leaf (suc m) lo c vars b r e =
    twice (double c) _ _ _
      (weight-leaf m (suc lo) (suc c) vars b (update r lo true) (omega (arith, e)))
      (weight-leaf m (suc lo) (suc c) vars b (update r lo false) (omega (arith, e)))

-- A test on the top-most level: each child is counted under its value.
test-models :
    (m l : ℕ) (t u : Tree) (r : Assignment) (b : Bool)
    → models m (suc l) (eval (if b then t else u)) (update r l b)
      ≡ models m (suc l) (eval (node l t u)) (update r l b)
test-models m l t u r b =
    models-ext m (suc l) _ _ (update r l b) λ s same.
      let here : s l ≡ b = same l (omega arith) ∙ update_same r l b in rw here (chosen b s)
  where
    chosen :
        (b : Bool) (s : Assignment)
        → eval (if b then t else u) s ≡ (if b then eval t s else eval u s)
    chosen true s = refl
    chosen false s = refl

pub weight-models :
    (m lo c vars : ℕ) (t : Tree) (r : Assignment)
    → c + m ≡ vars
    → IsOrdered lo t
    → Below (lo + m) t
    → weight vars t ≡ double c * models m lo (eval t) r
weight-models m lo c vars (leaf b) r e o below = weight-leaf m lo c vars b r e
weight-models zero lo c vars (node l t u) r e o below = absurd (omega (arith, o.0, below.0))
weight-models (suc m) lo c vars (node l t u) r e o below = elim (Bool-cases (l == lo)) [
  | inl h ↦
      let same : l ≡ lo = (==_iff l lo).0 h in
      let top : suc l + m ≡ lo + suc m = omega (arith, same) in
      subst (λ k. weight vars (node l t u) ≡ double c * models (suc m) k (eval (node l t u)) r) same
        (halves (double c) _ _ _ _
          (weight-models m (suc l) (suc c) vars t (update r l true) (omega (arith, e)) o.1
              (subst (λ k. Below k t) (sym top) below.1)
            ∙ ap (λ k. double c * 2 * k) (test-models m l t u r true))
          (weight-models m (suc l) (suc c) vars u (update r l false) (omega (arith, e)) o.2
              (subst (λ k. Below k u) (sym top) below.2)
            ∙ ap (λ k. double c * 2 * k) (test-models m l t u r false)))
  | inr h ↦
      let lower : IsOrdered (suc lo) (node l t u) = (ground arith, o.1, o.2, o.3) in
      twice (double c) _ _ _
        (weight-models m (suc lo) (suc c) vars (node l t u) (update r lo true) (omega (arith, e))
          lower (subst (λ k. Below k (node l t u)) (omega arith) below))
        (weight-models m (suc lo) (suc c) vars (node l t u) (update r lo false) (omega (arith, e))
          lower (subst (λ k. Below k (node l t u)) (omega arith) below))
]
