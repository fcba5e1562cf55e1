-- ===== src/Simple/Restrict/Inner.antt =====
-- `restrict_inner` of crates/oxidd-rules-bdd/src/simple/apply_rec.rs: the literals at and above
-- the root are used up.
use oxidd.Prelude.{
  ℕ, zero, suc, ◌≤◌, ◌<◌, ◌≡◌, ◌∙◌, sym, ap, refl, Bool, true, false, [], ◌∷◌, arith, ltb,
  if◌then◌else◌, some, ◌⊎◌, inl, inr, Bool-cases,
}
use oxidd.Tree.{BoolFn, Assignment, IsOrdered}
use oxidd.Outcome.{ok}
use oxidd.Manager.{Store, Edge, InnerNode, terminal, get_node}
use oxidd.Manager.Valid.{IsValid}
use oxidd.Represents.{IsFun, IsFun-le, IsFun-ext, AtInner, view}
use oxidd.Simple.Meaning.{Literals, cube_tree, IsCube, assign}
use oxidd.Simple.Ensures.{Fueled}
use oxidd.Simple.Quantify.Semantics.{IsFun-Below}
use oxidd.Simple.Restrict.{
  RestrictInnerResult, finished, recurse, Again, restrict_next, restrict_above, restrict_level,
  restrict_inner,
}
use oxidd.Simple.Restrict.Literal.{LiteralAt, IsCube-LiteralAt, assign_unused, assign-branch}

-- The function under the assignment that the literals prescribe.
abbrev pub restricted : Literals → BoolFn → BoolFn
restricted ls p r = p (assign ls r)

-- The finished edge has the restricted function; or what is left of the literals is below the root
-- of what is left of the function.
abbrev pub Leaves : Store → ℕ → BoolFn → RestrictInnerResult → Type 0
Leaves s lo q (finished e) = IsFun s lo e q
Leaves s lo q (recurse vars f fnode) =
    (p : BoolFn) × (ls : Literals) × (i : AtInner s lo f p) × (i.n ≡ fnode)
    × IsCube s (suc fnode.level) vars ls
    × ((r : Assignment) → restricted ls p r ≡ q r)

-- `again` leaves what it should for every literal from level `m` on.
abbrev pub Continues : Store → ℕ → ℕ → Again → Type 0
Continues s lo m again =
    (f vars : Edge) (p : BoolFn) (l : ℕ) (b : Bool) (ls : Literals) (i : AtInner s lo f p)
    → IsCube s m vars ((l, b) ∷ ls)
    → (at : LiteralAt s m vars l b ls)
    → (res : RestrictInnerResult) × (again f i.n vars at.n ≡ ok res)
      × Leaves s lo (restricted ((l, b) ∷ ls) p) res

Leaves-ext :
    (s : Store) (lo : ℕ) {p q : BoolFn} (res : RestrictInnerResult)
    → ((r : Assignment) → p r ≡ q r)
    → Leaves s lo p res
    → Leaves s lo q res
Leaves-ext s lo (finished e) h a = IsFun-ext a h
Leaves-ext s lo (recurse vars f fnode) h (p, ls, i, same, c, agree) =
    (p, ls, i, same, c, λ r. agree r ∙ h r)

module _ {s : Store} {lo m : ℕ} (v : IsValid s) (again : Again)
    (next : Continues s lo m again) where
  restrict_next-Leaves :
      (f vars : Edge) (p : BoolFn) (l : ℕ) (b : Bool) (ls : Literals)
      (c : IsCube s m vars ((l, b) ∷ ls))
      → (at : LiteralAt s m vars l b ls) → IsFun s lo f p
      → (res : RestrictInnerResult) × (restrict_next s again f vars at.n ≡ ok res)
        × Leaves s lo (restricted ((l, b) ∷ ls) p) res
  unfolding restrict_next
  restrict_next-Leaves f vars p l b ls c at hf = elim (view v hf) [
    | inl t ↦ (
      finished f,
      rw (t.at, restrict_next) refl,
      IsFun-ext hf (λ r. t.constant r ∙ sym (t.constant (assign ((l, b) ∷ ls) r))),
    )
    | inr i ↦
        let (res, run, leaves) = next f vars p l b ls i c at in
        (res, rw (i.at, restrict_next) run, leaves)
  ]

  restrict_above-Leaves :
      (f : Edge) (p : BoolFn) (l : ℕ) (b : Bool) (ls : Literals) (vnode : InnerNode)
      (i : AtInner s lo f p)
      → suc l ≡ m
      → l < i.n.level
      → (sides : (IsCube s m vnode.child0 ls × (b ≡ true))
          ⊎ ((get_node s vnode.child0 ≡ some (terminal false))
              × IsCube s m vnode.child1 ls
              × (b ≡ false)))
      → IsFun s lo f p
      → (res : RestrictInnerResult) × (restrict_above s again f i.n vnode ≡ ok res)
        × Leaves s lo (restricted ls p) res
  unfolding restrict_above
  restrict_above-Leaves f p l b [] vnode i sm above (inl (c, _)) hf =
      (finished f, rw (c.rep, restrict_above) refl, hf)
  restrict_above-Leaves f p l b ((l', b') ∷ ls) vnode i sm above (inl (c, _)) hf =
      let at = IsCube-LiteralAt l' b' ls c in
      let (res, run, leaves) = next f vnode.child0 p l' b' ls i c at in
      (res, rw (at.at, restrict_above) run, leaves)
  restrict_above-Leaves f p l b [] vnode i sm above (inr (t, c, _)) hf =
      (finished f, rw (t, restrict_above, c.rep) refl, hf)
  restrict_above-Leaves f p l b ((l', b') ∷ ls) vnode i sm above (inr (t, c, _)) hf =
      let at = IsCube-LiteralAt l' b' ls c in
      let (res, run, leaves) = next f vnode.child1 p l' b' ls i c at in
      (res, rw (t, restrict_above, at.at) run, leaves)

  restrict_level-Leaves :
      (f : Edge) (p : BoolFn) (b : Bool) (ls : Literals) (vnode : InnerNode) (i : AtInner s lo f p)
      → (sides : (IsCube s m vnode.child0 ls × (b ≡ true))
          ⊎ ((get_node s vnode.child0 ≡ some (terminal false))
              × IsCube s m vnode.child1 ls
              × (b ≡ false)))
      → IsFun s lo i.n.child0 i.yes_fn
      → IsFun s lo i.n.child1 i.no_fn
      → (res : RestrictInnerResult) × (restrict_level s again i.n vnode ≡ ok res)
        × Leaves s lo (λ r. if b then i.yes_fn (assign ls r) else i.no_fn (assign ls r)) res
  unfolding restrict_level
  restrict_level-Leaves f p true [] vnode i (inl (c, _)) hy hn =
      (finished i.n.child0, rw (c.rep, restrict_level) refl, hy)
  restrict_level-Leaves f p true ((l', b') ∷ ls) vnode i (inl (c, _)) hy hn =
      let at = IsCube-LiteralAt l' b' ls c in
      let (res, run, leaves) =
        restrict_next-Leaves i.n.child0 vnode.child0 i.yes_fn l' b' ls c at hy in
      (res, rw (at.at, restrict_level) run, leaves)
  restrict_level-Leaves f p false [] vnode i (inr (t, c, _)) hy hn =
      (finished i.n.child1, rw (t, restrict_level, c.rep) refl, hn)
  restrict_level-Leaves f p false ((l', b') ∷ ls) vnode i (inr (t, c, _)) hy hn =
      let at = IsCube-LiteralAt l' b' ls c in
      let (res, run, leaves) =
        restrict_next-Leaves i.n.child1 vnode.child1 i.no_fn l' b' ls c at hn in
      (res, rw (t, restrict_level, at.at) run, leaves)
  restrict_level-Leaves f p false ls vnode i (inl (c, h)) hy hn = cc h
  restrict_level-Leaves f p true ls vnode i (inr (t, c, h)) hy hn = cc h

literal_sides :
    {s : Store} {lo : ℕ} {e : Edge} {l : ℕ} (b : Bool) {ls : Literals}
    (at : LiteralAt s lo e l b ls)
    → (IsCube s (suc l) at.n.child0 ls × (b ≡ true))
      ⊎ ((get_node s at.n.child0 ≡ some (terminal false))
          × IsCube s (suc l) at.n.child1 ls
          × (b ≡ false))
literal_sides true at = inl (at.sides, refl)
literal_sides false at = inr (at.sides.0, at.sides.1, refl)

-- With fuel for the levels of the literals, `restrict_inner` ends, and leaves what it should.
pub restrict_inner-Leaves :
    (s : Store) (k lo m : ℕ) → IsValid s → Fueled k m s → Continues s lo m (restrict_inner k s)
unfolding restrict_inner
restrict_inner-Leaves s zero lo m v u f vars p l b ls i c at =
    absurd (omega (arith, u.level, u.fuel))
restrict_inner-Leaves s (suc k) lo m v u f vars p l b ls i c at =
    let below = (v.stored vars at.n at.at).below in
    let deeper : Fueled k (suc l) s = record {
      level = omega (arith, at.level, below);
      fuel = omega (arith, u.fuel, at.above);
    } in
    let next : Continues s lo (suc l) (restrict_inner k s) =
      restrict_inner-Leaves s k lo (suc l) v deeper in
    elim (Bool-cases (ltb i.n.level at.n.level)) [
      | inl under ↦ (
        recurse vars f i.n,
        rw (under, restrict_inner) refl,
        (
          p,
          (l, b) ∷ ls,
          i,
          refl,
          record { rep = c.rep; ordered = shifted m ls b c.ordered (ground (arith, at.level)) },
          λ r. refl,
        ),
      )
      | inr not_under ↦ elim (Bool-cases (ltb at.n.level i.n.level)) [
        | inl over ↦
            let hf : IsFun s lo f p = IsFun-le i.self i.above in
            let (res, run, leaves) =
              restrict_above-Leaves v (restrict_inner k s) next f p l b ls at.n i refl
                (ground (arith, at.level)) (literal_sides b at) hf in
            (
              res,
              rw (not_under, restrict_inner, over) run,
              Leaves-ext s lo res
                  (λ r.
                    assign_unused l b ls p r
                      (IsFun-Below (IsFun-le i.self (ground (arith, at.level)))))
                  leaves,
            )
        | inr not_over ↦
            let same : i.n.level ≡ l = ground (arith, at.level) in
            let (res, run, leaves) =
              restrict_level-Leaves v (restrict_inner k s) next f p b ls at.n i (literal_sides b at)
                (IsFun-le i.yes_at (omega (arith, i.above)))
                (IsFun-le i.no_at (omega (arith, i.above))) in
            (
              res,
              rw (not_under, restrict_inner, not_over) run,
              Leaves-ext s lo res
                  (λ r.
                    assign-branch i.n.level b ls i.yes_fn i.no_fn r (IsFun-Below i.yes_at)
                      (IsFun-Below i.no_at)
                    ∙ sym (i.branches (assign ((i.n.level, b) ∷ ls) r))
                    ∙ ap (λ n. p (assign ((n, b) ∷ ls) r)) same)
                  leaves,
            )
      ]
    ]
  where
    shifted :
        (lo : ℕ) {lo' l : ℕ} (ls : Literals) (b : Bool)
        → IsOrdered lo (cube_tree ((l, b) ∷ ls))
        → lo' ≤ l
        → IsOrdered lo' (cube_tree ((l, b) ∷ ls))
    shifted lo ls true o h = (h, o.1, o.2, o.3)
    shifted lo ls false o h = (h, o.1, o.2, o.3)
