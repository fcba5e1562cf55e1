-- ===== src/Simple/Meaning.antt =====
-- What the operators of crates/oxidd-rules-bdd/src/simple/mod.rs mean, as functions of Boolean
-- functions and of conjunctions of literals, with no diagram in sight.
use oxidd.Prelude.{
  ℕ, ◌≡◌, ap, refl, subst, Bool, true, false, not, ◌&&◌, ◌||◌, Option, none, some, List, [], ◌∷◌,
  if◌then◌else◌,
}
use mathlib.Core.Option.{some-injective}
use oxidd.Tree.{Tree, leaf, node, Assignment, BoolFn, IsOrdered, update}
use oxidd.Manager.{Edge, Store}
use oxidd.Manager.Valid.{Keeps}
use oxidd.Represents.{Rep, Rep-Keeps, Rep-functional, IsFun, IsFun-Keeps, IsFun-back}
use oxidd.Simple.{
  BddOp, negation, and, or, nand, nor, xor, equiv, imp, imp_strict, ite, substitute, restrict,
  forall, exist, unique, forall_and, forall_or, forall_nand, forall_nor, forall_xor, forall_equiv,
  forall_imp, forall_imp_strict, exist_and, exist_or, exist_nand, exist_nor, exist_xor, exist_equiv,
  exist_imp, exist_imp_strict, unique_and, unique_or, unique_nand, unique_nor, unique_xor,
  unique_equiv, unique_imp, unique_imp_strict,
}

-- The truth tables of the binary operators.
abbrev pub bin : BddOp → Bool → Bool → Bool
bin and a b = a && b
bin or a b = a || b
bin nand a b = not (a && b)
bin nor a b = not (a || b)
bin xor a b = if a then not b else b
bin equiv a b = if a then b else not b
bin imp a b = if a then b else true
bin imp_strict a b = if a then false else b
bin _ a b = false

abbrev pub is_bin : BddOp → Bool
is_bin and = true
is_bin or = true
is_bin nand = true
is_bin nor = true
is_bin xor = true
is_bin equiv = true
is_bin imp = true
is_bin imp_strict = true
is_bin _ = false

abbrev pub apply2 : (Bool → Bool → Bool) → BoolFn → BoolFn → BoolFn
apply2 b p q r = b (p r) (q r)

abbrev pub negated : BoolFn → BoolFn
negated p r = not (p r)

abbrev pub choose : BoolFn → BoolFn → BoolFn → BoolFn
choose p q u r = if p r then q r else u r

-- `q` over both values of each of the levels.
abbrev pub quantify : (Bool → Bool → Bool) → List ℕ → BoolFn → BoolFn
quantify q [] p r = p r
quantify q (l ∷ ls) p r = q (quantify q ls p (update r l true)) (quantify q ls p (update r l false))

abbrev pub Literals : Type 0
Literals = List (ℕ × Bool)

-- The assignment with the values that the literals prescribe.
abbrev pub assign : Literals → Assignment → Assignment
assign [] r = r
assign ((l, b) ∷ ls) r = update (assign ls r) l b

-- The diagram of a conjunction of literals.
abbrev pub cube_tree : Literals → Tree
cube_tree [] = leaf true
cube_tree ((l, true) ∷ ls) = node l (cube_tree ls) (leaf false)
cube_tree ((l, false) ∷ ls) = node l (leaf false) (cube_tree ls)

abbrev pub positive : List ℕ → Literals
positive [] = []
positive (l ∷ ls) = (l, true) ∷ positive ls

pub record IsCube (s : Store) (lo : ℕ) (e : Edge) (ls : Literals) : Type 0 where
  pub rep : Rep s e (cube_tree ls)
  pub ordered : IsOrdered lo (cube_tree ls)

-- How an operation takes an operand.
pub data Operand : Type 0 where
  fn : BoolFn → Operand
  vars : List ℕ → Operand
  literals : Literals → Operand

abbrev pub Denotes : Store → ℕ → Edge → Operand → Type 0
Denotes s lo e (fn p) = IsFun s lo e p
Denotes s lo e (vars ls) = IsCube s lo e (positive ls)
Denotes s lo e (literals ls) = IsCube s lo e ls

abbrev pub DenotesAll : Store → ℕ → List Edge → List Operand → Type 0
DenotesAll s lo [] [] = Unit
DenotesAll s lo (e ∷ es) (v ∷ vs) = Denotes s lo e v × DenotesAll s lo es vs
DenotesAll s lo _ _ = ⊥

abbrev pub Known : Store → Edge → Type 0
Known s e = (p : BoolFn) × IsFun s 0 e p

abbrev pub KnownAll : Store → List Edge → Type 0
KnownAll s [] = Unit
KnownAll s (e ∷ es) = Known s e × KnownAll s es

pub Known-Keeps : {s s' : Store} → Keeps s s' → (es : List Edge) → KnownAll s es → KnownAll s' es
Known-Keeps x [] k = tt
Known-Keeps x (e ∷ es) ((p, f), k) = ((p, IsFun-Keeps f x), Known-Keeps x es k)

IsCube-back :
    {s s' : Store} {lo : ℕ} {e : Edge} {ls : Literals}
    → Keeps s s'
    → Known s e
    → IsCube s' lo e ls
    → IsCube s lo e ls
IsCube-back {e = e} x (p, f) c = record {
  rep = subst (Rep _ e) (Rep-functional _ e f.tree _ (Rep-Keeps e f.tree x f.rep) c.rep) f.rep;
  ordered = c.ordered;
}

pub IsCube-Keeps :
    {s s' : Store} {lo : ℕ} {e : Edge} {ls : Literals}
    → Keeps s s'
    → IsCube s lo e ls
    → IsCube s' lo e ls
IsCube-Keeps {e = e} {ls = ls} x c = record {
  rep = Rep-Keeps e (cube_tree ls) x c.rep;
  ordered = c.ordered;
}

Denotes-back :
    {s s' : Store} {e : Edge} (lo : ℕ) (v : Operand)
    → Keeps s s'
    → Known s e
    → Denotes s' lo e v
    → Denotes s lo e v
Denotes-back lo (fn p) x k d = IsFun-back k.1 x d
Denotes-back lo (vars ls) x k d = IsCube-back x k d
Denotes-back lo (literals ls) x k d = IsCube-back x k d

pub DenotesAll-back :
    {s s' : Store} (lo : ℕ) (es : List Edge) (vs : List Operand)
    → Keeps s s'
    → KnownAll s es
    → DenotesAll s' lo es vs
    → DenotesAll s lo es vs
DenotesAll-back lo [] [] x k d = tt
DenotesAll-back lo [] (v ∷ vs) x k d = absurd d
DenotesAll-back lo (e ∷ es) [] x k d = absurd d
DenotesAll-back lo (e ∷ es) (v ∷ vs) x k d =
    (Denotes-back lo v x k.0 d.0, DenotesAll-back lo es vs x k.1 d.1)

-- What `id`, a substitution's number, replaces each level by.
abbrev pub Substitutions : Type 0
Substitutions = ℕ → ℕ → BoolFn

abbrev pub sem_bin : BddOp → List Operand → Option BoolFn
sem_bin op (fn p ∷ fn q ∷ []) = some (apply2 (bin op) p q)
sem_bin op _ = none

abbrev pub sem_quant : BddOp → List Operand → Option BoolFn
sem_quant q (fn p ∷ vars ls ∷ []) = some (quantify (bin q) ls p)
sem_quant q _ = none

abbrev pub sem_apply_quant : BddOp → BddOp → List Operand → Option BoolFn
sem_apply_quant q op (fn p ∷ fn u ∷ vars ls ∷ []) = some (quantify (bin q) ls (apply2 (bin op) p u))
sem_apply_quant q op _ = none

abbrev pub sem_not : List Operand → Option BoolFn
sem_not (fn p ∷ []) = some (negated p)
sem_not _ = none

abbrev pub sem_ite : List Operand → Option BoolFn
sem_ite (fn p ∷ fn q ∷ fn u ∷ []) = some (choose p q u)
sem_ite _ = none

abbrev pub sem_restrict : List Operand → Option BoolFn
sem_restrict (fn p ∷ literals ls ∷ []) = some (λ r. p (assign ls r))
sem_restrict _ = none

abbrev pub sem_substitute : Substitutions → List ℕ → List Operand → Option BoolFn
sem_substitute subst (id ∷ []) (fn p ∷ []) = some (λ r. p (λ l. subst id l r))
sem_substitute subst _ _ = none

-- The function that an operator makes of its operands.
abbrev pub sem : Substitutions → BddOp → List ℕ → List Operand → Option BoolFn
sem subst negation ns vs = sem_not vs
sem subst ite ns vs = sem_ite vs
sem subst substitute ns vs = sem_substitute subst ns vs
sem subst restrict ns vs = sem_restrict vs
sem subst forall ns vs = sem_quant and vs
sem subst exist ns vs = sem_quant or vs
sem subst unique ns vs = sem_quant xor vs
sem subst forall_and ns vs = sem_apply_quant and and vs
sem subst forall_or ns vs = sem_apply_quant and or vs
sem subst forall_nand ns vs = sem_apply_quant and nand vs
sem subst forall_nor ns vs = sem_apply_quant and nor vs
sem subst forall_xor ns vs = sem_apply_quant and xor vs
sem subst forall_equiv ns vs = sem_apply_quant and equiv vs
sem subst forall_imp ns vs = sem_apply_quant and imp vs
sem subst forall_imp_strict ns vs = sem_apply_quant and imp_strict vs
sem subst exist_and ns vs = sem_apply_quant or and vs
sem subst exist_or ns vs = sem_apply_quant or or vs
sem subst exist_nand ns vs = sem_apply_quant or nand vs
sem subst exist_nor ns vs = sem_apply_quant or nor vs
sem subst exist_xor ns vs = sem_apply_quant or xor vs
sem subst exist_equiv ns vs = sem_apply_quant or equiv vs
sem subst exist_imp ns vs = sem_apply_quant or imp vs
sem subst exist_imp_strict ns vs = sem_apply_quant or imp_strict vs
sem subst unique_and ns vs = sem_apply_quant xor and vs
sem subst unique_or ns vs = sem_apply_quant xor or vs
sem subst unique_nand ns vs = sem_apply_quant xor nand vs
sem subst unique_nor ns vs = sem_apply_quant xor nor vs
sem subst unique_xor ns vs = sem_apply_quant xor xor vs
sem subst unique_equiv ns vs = sem_apply_quant xor equiv vs
sem subst unique_imp ns vs = sem_apply_quant xor imp vs
sem subst unique_imp_strict ns vs = sem_apply_quant xor imp_strict vs
sem subst op ns vs = sem_bin op vs

-- The result tests no level above those that the operands test, but for a substitution.
abbrev pub out_level : BddOp → ℕ → ℕ
out_level substitute lo = 0
out_level _ lo = lo

pub sem-is_bin :
    (subst : Substitutions) (op : BddOp) (vs : List Operand)
    → is_bin op ≡ true
    → sem subst op [] vs ≡ sem_bin op vs
sem-is_bin subst and vs h = refl
sem-is_bin subst or vs h = refl
sem-is_bin subst nand vs h = refl
sem-is_bin subst nor vs h = refl
sem-is_bin subst xor vs h = refl
sem-is_bin subst equiv vs h = refl
sem-is_bin subst imp vs h = refl
sem-is_bin subst imp_strict vs h = refl
sem-is_bin subst _ vs h = cc

pub out_level-is_bin : (op : BddOp) (lo : ℕ) → is_bin op ≡ true → out_level op lo ≡ lo
out_level-is_bin and lo h = refl
out_level-is_bin substitute lo h = cc
out_level-is_bin _ lo h = refl

pub same_fn : {p q : BoolFn} → some p ≡ some q → (r : Assignment) → p r ≡ q r
same_fn {p} {q} e r = ap (λ (g : BoolFn). g r) (some-injective p q e)
