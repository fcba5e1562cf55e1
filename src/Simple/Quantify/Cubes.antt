-- ===== src/Simple/Quantify/Cubes.antt =====
-- Sets of variables as conjunctions, and `set_pop` of crates/oxidd-rules-bdd/src/lib.rs.
use oxidd.Prelude.{
  ℕ, zero, suc, ◌≤◌, ◌≡◌, ◌∙◌, sym, ap, refl, Bool, true, false, List, [], ◌∷◌, arith,
  if◌then◌else◌, leb, some, inl, inr, Bool-cases,
}
use oxidd.Tree.{BoolFn, Assignment, eval, IsOrdered, IsOrdered-le, update}
use oxidd.Outcome.{ok}
use oxidd.Manager.{Store, Edge, InnerNode, inner, get_node}
use oxidd.Manager.Valid.{IsValid}
use oxidd.Represents.{Rep-functional}
use oxidd.Simple.Meaning.{Literals, cube_tree, positive, IsCube, Known, quantify}
use oxidd.Simple.Ensures.{Fueled}
use oxidd.Simple.Quantify.{set_pop}
use oxidd.Simple.Quantify.Semantics.{Below, Grow, quantify_unused}

pub IsCube-Known : {s : Store} {lo : ℕ} {e : Edge} (ls : Literals) → IsCube s lo e ls → Known s e
IsCube-Known ls c = (
  eval (cube_tree ls),
  record {
    tree = cube_tree ls;
    rep = c.rep;
    ordered = IsOrdered-le (cube_tree ls) (omega arith) c.ordered;
    computes = λ r. refl;
  },
)

pub IsCube-le :
    {s : Store} {lo lo' : ℕ} {e : Edge} (ls : Literals)
    → lo' ≤ lo
    → IsCube s lo e ls
    → IsCube s lo' e ls
IsCube-le ls h c = record { rep = c.rep; ordered = IsOrdered-le (cube_tree ls) h c.ordered }

-- The node of a set that is not empty.
pub record CubeAt (s : Store) (lo : ℕ) (e : Edge) (l : ℕ) (ls : List ℕ) : Type 0 where
  pub n : InnerNode
  pub at : get_node s e ≡ some (inner n)
  pub level : n.level ≡ l
  pub above : lo ≤ l
  pub rest : IsCube s (suc l) n.child0 (positive ls)

pub IsCube-CubeAt :
    {s : Store} {lo : ℕ} {e : Edge} (l : ℕ) (ls : List ℕ)
    → IsCube s lo e (positive (l ∷ ls))
    → CubeAt s lo e l ls
IsCube-CubeAt l ls c =
    let (n, at, level, rest, _) = c.rep in
    record {
      n = n;
      at = at;
      level = level;
      above = c.ordered.0;
      rest = record { rep = rest; ordered = c.ordered.1 };
    }

cube_tree-Grow : (lo : ℕ) (ls : List ℕ) → IsOrdered lo (cube_tree (positive ls)) → Grow lo ls
cube_tree-Grow lo [] o = tt
cube_tree-Grow lo (l ∷ ls) o = (o.0, cube_tree-Grow (suc l) ls o.1)

pub IsCube-Grow :
    {s : Store} {lo : ℕ} {e : Edge} (ls : List ℕ) → IsCube s lo e (positive ls) → Grow lo ls
IsCube-Grow {lo = lo} ls c = cube_tree-Grow lo ls c.ordered

cube_tree-injective :
    (ls ls' : List ℕ) → cube_tree (positive ls) ≡ cube_tree (positive ls') → ls ≡ ls'
cube_tree-injective [] [] h = refl
cube_tree-injective [] (l ∷ ls') h = cc
cube_tree-injective (l ∷ ls) [] h = cc
cube_tree-injective (l ∷ ls) (m ∷ ls') h =
    let same : cube_tree (positive ls) ≡ cube_tree (positive ls') = cc in
    let heads : l ≡ m = cc in cc (cube_tree-injective ls ls' same, heads)

-- An edge is the conjunction of one set.
pub IsCube-functional :
    (s : Store) {lo lo' : ℕ} (e : Edge) (ls ls' : List ℕ)
    → IsCube s lo e (positive ls)
    → IsCube s lo' e (positive ls')
    → ls ≡ ls'
IsCube-functional s e ls ls' c d = cube_tree-injective ls ls' (Rep-functional s e _ _ c.rep d.rep)

-- The levels from `until` on.
abbrev pub popped : ℕ → List ℕ → List ℕ
popped until [] = []
popped until (l ∷ ls) = if leb until l then l ∷ ls else popped until ls

-- With fuel for the levels from the top of the set on, `set_pop` returns the edge of the set of
-- those variables that are not above `until`.
pub set_pop-IsCube :
    (s : Store) (k lo : ℕ) (e : Edge) (ls : List ℕ) (until : ℕ)
    → IsValid s
    → Fueled k lo s
    → IsCube s lo e (positive ls)
    → (h : Edge) × (set_pop k s e until ≡ ok h) × IsCube s until h (positive (popped until ls))
unfolding set_pop
set_pop-IsCube s zero lo e ls until v u c = absurd (omega (arith, u.level, u.fuel))
set_pop-IsCube s (suc k) lo e [] until v u c =
    (e, rw (c.rep, set_pop) refl, record { rep = c.rep; ordered = tt })
set_pop-IsCube s (suc k) lo e (l ∷ ls) until v u c =
    let x = IsCube-CubeAt l ls c in
    let below = (v.stored e x.n x.at).below in
    let test : leb until x.n.level ≡ leb until l = ap (leb until) x.level in
    elim (Bool-cases (leb until l)) [
      | inl stay ↦ (
        e,
        rw (x.at, set_pop) (rw (test ∙ stay) refl),
        rw stay (record {
          rep = c.rep;
          ordered = (ground arith, c.ordered.1, c.ordered.2, c.ordered.3);
        }),
      )
      | inr pop ↦
          let (h, run, d) =
            set_pop-IsCube s k (suc l) x.n.child0 ls until v
              (record {
                level = omega (arith, x.level, below);
                fuel = omega (arith, u.fuel, x.above);
              })
              x.rest in
          (h, rw (x.at, set_pop) (rw (test ∙ pop) run), rw pop d)
    ]

-- What is popped does not matter for an idempotent quantifier.
pub quantify-popped :
    (q : Bool → Bool → Bool) (until : ℕ) (ls : List ℕ) (p : BoolFn)
    → ((b : Bool) → q b b ≡ b)
    → Below until p
    → (r : Assignment) → quantify q (popped until ls) p r ≡ quantify q ls p r
quantify-popped q until [] p idem b r = refl
quantify-popped q until (l ∷ ls) p idem b r = elim (Bool-cases (leb until l)) [
  | inl stay ↦ rw stay refl
  | inr pop ↦ rw pop (
      quantify-popped q until ls p idem b r
      ∙ sym (idem (quantify q ls p r))
      ∙ sym (quantify_unused q l until ls p b (ground arith) r))
]

-- A constant under an idempotent quantifier.
pub quantify_constant :
    (q : Bool → Bool → Bool) (ls : List ℕ) (p : BoolFn) (c : Bool)
    → ((b : Bool) → q b b ≡ b)
    → ((r : Assignment) → p r ≡ c)
    → (r : Assignment) → quantify q ls p r ≡ c
quantify_constant q [] p c idem h r = h r
quantify_constant q (l ∷ ls) p c idem h r = cc (
  quantify_constant q ls p c idem h (update r l true),
  quantify_constant q ls p c idem h (update r l false),
  idem c,
)
