-- ===== src/Tree/Canonical.antt =====
-- Ordered, reduced trees are canonical: the function determines the tree.
use native.Mathlib.Decide.{dec_lt}
use oxidd.Prelude.{
  ℕ, suc, ◌<◌, ◌≡◌, ◌∙◌, sym, ap, refl, Bool, true, false, arith, ◌==◌, ==_iff, subst,
}
use oxidd.Tree.{Tree, leaf, node, Assignment, eval, IsOrdered, update}

-- A level above all tests of a tree has no influence.
pub eval-update :
    (t : Tree) (lo l : ℕ) (b : Bool) (r : Assignment)
    → IsOrdered lo t
    → l < lo
    → eval t (update r l b) ≡ eval t r
eval-update (leaf c) lo l b r o h = refl
eval-update (node k t u) lo l b r o h =
    ground (arith, eval-update t (suc k) l b r, eval-update u (suc k) l b r)

==_refl : (l : ℕ) → (l == l) ≡ true
==_refl l = (==_iff l l).1 refl

module _ (lo l : ℕ) (a b : Tree) (o : IsOrdered lo (node l a b)) where
  eval-then : (r : Assignment) → eval a r ≡ eval (node l a b) (update r l true)
  eval-then r = ground (arith, ==_refl l, eval-update a (suc l) l true r)

  eval-else : (r : Assignment) → eval b r ≡ eval (node l a b) (update r l false)
  eval-else r = ground (arith, ==_refl l, eval-update b (suc l) l false r)

-- Two ordered, reduced trees of the same function are equal.
pub eval-injective :
    (t u : Tree) (lo : ℕ)
    → IsOrdered lo t
    → IsOrdered lo u
    → ((r : Assignment) → eval t r ≡ eval u r)
    → t ≡ u
eval-injective (leaf c) (leaf d) lo o p h = ap leaf (h (λ _. true))
eval-injective (node l a b) (leaf d) lo o p h =
    let left =
      eval-injective a (leaf d) (suc l) o.1 tt
        (λ r. eval-then lo l a b o r ∙ h (update r l true)) in
    let right =
      eval-injective b (leaf d) (suc l) o.2 tt
        (λ r. eval-else lo l a b o r ∙ h (update r l false)) in
    absurd (o.3 (left ∙ sym right))
eval-injective (leaf c) (node m d e) lo o p h =
    let left =
      eval-injective (leaf c) d (suc m) tt p.1
        (λ r. h (update r m true) ∙ sym (eval-then lo m d e p r)) in
    let right =
      eval-injective (leaf c) e (suc m) tt p.2
        (λ r. h (update r m false) ∙ sym (eval-else lo m d e p r)) in
    absurd (p.3 (sym left ∙ right))
eval-injective (node l a b) (node m d e) lo o p h = elim (dec_lt l m) [
  | yes lt ↦
      let above : IsOrdered (suc l) (node m d e) = (lt, p.1, p.2, p.3) in
      let left = eval-injective a (node m d e) (suc l) o.1 above (λ r.
        eval-then lo l a b o r
        ∙ h (update r l true)
        ∙ eval-update (node m d e) (suc l) l true r above (omega arith)) in
      let right = eval-injective b (node m d e) (suc l) o.2 above (λ r.
        eval-else lo l a b o r
        ∙ h (update r l false)
        ∙ eval-update (node m d e) (suc l) l false r above (omega arith)) in
      absurd (o.3 (left ∙ sym right))
  | no ge ↦ elim (dec_lt m l) [
    | yes gt ↦
        let above : IsOrdered (suc m) (node l a b) = (gt, o.1, o.2, o.3) in
        let left = eval-injective (node l a b) d (suc m) above p.1 (λ r.
          sym (eval-update (node l a b) (suc m) m true r above (omega arith))
          ∙ h (update r m true)
          ∙ sym (eval-then lo m d e p r)) in
        let right = eval-injective (node l a b) e (suc m) above p.2 (λ r.
          sym (eval-update (node l a b) (suc m) m false r above (omega arith))
          ∙ h (update r m false)
          ∙ sym (eval-else lo m d e p r)) in
        absurd (p.3 (sym left ∙ right))
    | no le ↦
        let same : l ≡ m = omega arith in
        let left =
          eval-injective a d (suc l) o.1 (subst (λ k. IsOrdered (suc k) d) (sym same) p.1) (λ r.
            eval-then lo l a b o r
            ∙ h (update r l true)
            ∙ rw same (sym (eval-then lo m d e p r))) in
        let right =
          eval-injective b e (suc l) o.2 (subst (λ k. IsOrdered (suc k) e) (sym same) p.2) (λ r.
            eval-else lo l a b o r
            ∙ h (update r l false)
            ∙ rw same (sym (eval-else lo m d e p r))) in
        cc (same, left, right)
  ]
]
