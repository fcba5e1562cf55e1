-- ===== src/Simple/Quantify/Semantics.antt =====
-- Quantification of Boolean functions that depend on low levels only.
use oxidd.Prelude.{ℕ, suc, ◌≤◌, ◌<◌, ◌≡◌, ◌∙◌, sym, refl, Bool, true, false, List, [], ◌∷◌, arith}
use oxidd.Tree.{Tree, leaf, node, Assignment, BoolFn, eval, IsOrdered, update}
use oxidd.Represents.{IsFun, branch}
use oxidd.Manager.{Store, Edge}
use oxidd.Simple.Meaning.{quantify}

-- Only the levels from `lo` on matter.
abbrev pub Agrees : ℕ → Assignment → Assignment → Type 0
Agrees lo r r' = (k : ℕ) → lo ≤ k → r k ≡ r' k

abbrev pub Below : ℕ → BoolFn → Type 0
Below lo p = (r r' : Assignment) → Agrees lo r r' → p r ≡ p r'

-- Every level of the list is at least `lo`, and they grow.
abbrev pub Grow : ℕ → List ℕ → Type 0
Grow lo [] = Unit
Grow lo (l ∷ ls) = (lo ≤ l) × Grow (suc l) ls

Agrees-update :
    (lo l : ℕ) (b : Bool) (r r' : Assignment)
    → Agrees lo r r'
    → Agrees lo (update r l b) (update r' l b)
Agrees-update lo l b r r' a k h = ground (arith, a k h)

pub Agrees-above : (lo l : ℕ) (b : Bool) (r : Assignment) → l < lo → Agrees lo (update r l b) r
Agrees-above lo l b r h k g = ground arith

eval-Below : (lo : ℕ) (t : Tree) → IsOrdered lo t → Below lo (eval t)
eval-Below lo (leaf b) o r r' a = refl
eval-Below lo (node l t u) o r r' a =
    let same = a l o.0 in
    let yes_side = eval-Below (suc l) t o.1 r r' (λ k h. a k (omega (arith, h, o.0))) in
    let no_side = eval-Below (suc l) u o.2 r r' (λ k h. a k (omega (arith, h, o.0))) in
    ground (arith, same, yes_side, no_side)

pub IsFun-Below : {s : Store} {lo : ℕ} {e : Edge} {p : BoolFn} → IsFun s lo e p → Below lo p
IsFun-Below {lo = lo} f r r' a =
    sym (f.computes r) ∙ eval-Below lo f.tree f.ordered r r' a ∙ f.computes r'

module _ (q : Bool → Bool → Bool) where
  pub quantify-Below : (lo : ℕ) (ls : List ℕ) (p : BoolFn) → Below lo p → Below lo (quantify q ls p)
  quantify-Below lo [] p b r r' a = b r r' a
  quantify-Below lo (l ∷ ls) p b r r' a = cc (
    quantify-Below lo ls p b (update r l true) (update r' l true) (Agrees-update lo l true r r' a),
    quantify-Below lo ls p b (update r l false) (update r' l false)
        (Agrees-update lo l false r r' a),
  )

  pub quantify_ext :
      (ls : List ℕ) (p p' : BoolFn)
      → ((r : Assignment) → p r ≡ p' r)
      → (r : Assignment) → quantify q ls p r ≡ quantify q ls p' r
  quantify_ext [] p p' h r = h r
  quantify_ext (l ∷ ls) p p' h r =
      cc (quantify_ext ls p p' h (update r l true), quantify_ext ls p p' h (update r l false))

  -- A variable that the function does not depend on.
  pub quantify_unused :
      (l lo : ℕ) (ls : List ℕ) (p : BoolFn)
      → Below lo p
      → l < lo
      → (r : Assignment) → quantify q (l ∷ ls) p r ≡ q (quantify q ls p r) (quantify q ls p r)
  quantify_unused l lo ls p b h r = cc (
    quantify-Below lo ls p b (update r l true) r (Agrees-above lo l true r h),
    quantify-Below lo ls p b (update r l false) r (Agrees-above lo l false r h),
  )

  -- Variables below the level at which the function branches.
  pub quantify-branch_below :
      (l : ℕ) (ls : List ℕ) (x y : BoolFn)
      → Grow (suc l) ls
      → (r : Assignment)
      → quantify q ls (branch l x y) r ≡ branch l (quantify q ls x) (quantify q ls y) r
  quantify-branch_below l [] x y g r = refl
  quantify-branch_below l (m ∷ ls) x y g r =
      let deeper : Grow (suc l) ls = Grow-le ls (omega (arith, g.0)) g.1 in
      ground (
        arith,
        g.0,
        quantify-branch_below l ls x y deeper (update r m true),
        quantify-branch_below l ls x y deeper (update r m false),
      )
    where
      Grow-le : {lo lo' : ℕ} (ls : List ℕ) → lo' ≤ lo → Grow lo ls → Grow lo' ls
      Grow-le [] h g = tt
      Grow-le (l ∷ ls) h g = (omega (arith, h, g.0), g.1)

  -- The variable at which the function branches.
  pub quantify-branch :
      (l : ℕ) (ls : List ℕ) (x y : BoolFn)
      → Grow (suc l) ls
      → Below (suc l) x
      → Below (suc l) y
      → (r : Assignment)
      → quantify q (l ∷ ls) (branch l x y) r ≡ q (quantify q ls x r) (quantify q ls y r)
  quantify-branch l ls x y g bx by r =
      let above = quantify-branch_below l ls x y g (update r l true) in
      let beneath = quantify-branch_below l ls x y g (update r l false) in
      let same_x =
        quantify-Below (suc l) ls x bx (update r l true) r
          (Agrees-above (suc l) l true r (omega arith)) in
      let same_y =
        quantify-Below (suc l) ls y by (update r l false) r
          (Agrees-above (suc l) l false r (omega arith)) in
      ground (arith, above, beneath, same_x, same_y)
