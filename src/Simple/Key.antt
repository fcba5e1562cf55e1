-- ===== src/Simple/Key.antt =====
-- `BDDOp` of crates/oxidd-rules-bdd/src/simple/mod.rs as a key of the apply cache: the derived
-- equality compares the discriminants of `#[repr(u8)]`.
use oxidd.Prelude.{ℕ, ◌≡◌, ◌∙◌, sym, ap, refl, some, ◌==◌, ==_iff, List, [], ◌∷◌, get_elem?}
use mathlib.Core.Option.{some-injective}
use oxidd.Cache.Direct.{OperatorEq}
use oxidd.Simple.{
  BddOp, negation, and, or, nand, nor, xor, equiv, imp, imp_strict, ite, substitute, restrict,
  forall, exist, unique, forall_and, forall_or, forall_nand, forall_nor, forall_xor, forall_equiv,
  forall_imp, forall_imp_strict, exist_and, exist_or, exist_nand, exist_nor, exist_xor, exist_equiv,
  exist_imp, exist_imp_strict, unique_and, unique_or, unique_nand, unique_nor, unique_xor,
  unique_equiv, unique_imp, unique_imp_strict,
}

unfoldable pub discriminant : BddOp → ℕ
discriminant negation = 0
discriminant and = 1
discriminant or = 2
discriminant nand = 3
discriminant nor = 4
discriminant xor = 5
discriminant equiv = 6
discriminant imp = 7
discriminant imp_strict = 8
discriminant ite = 9
discriminant substitute = 10
discriminant restrict = 11
discriminant forall = 12
discriminant exist = 13
discriminant unique = 14
discriminant forall_and = 15
discriminant forall_or = 16
discriminant forall_nand = 17
discriminant forall_nor = 18
discriminant forall_xor = 19
discriminant forall_equiv = 20
discriminant forall_imp = 21
discriminant forall_imp_strict = 22
discriminant exist_and = 23
discriminant exist_or = 24
discriminant exist_nand = 25
discriminant exist_nor = 26
discriminant exist_xor = 27
discriminant exist_equiv = 28
discriminant exist_imp = 29
discriminant exist_imp_strict = 30
discriminant unique_and = 31
discriminant unique_or = 32
discriminant unique_nand = 33
discriminant unique_nor = 34
discriminant unique_xor = 35
discriminant unique_equiv = 36
discriminant unique_imp = 37
discriminant unique_imp_strict = 38

-- The operators in the order of their discriminants.
abbrev operators : List BddOp
operators =
    negation ∷ and ∷ or ∷ nand ∷ nor ∷ xor ∷ equiv ∷ imp ∷ imp_strict ∷ ite ∷ substitute ∷ restrict
    ∷ forall ∷ exist ∷ unique ∷ forall_and ∷ forall_or ∷ forall_nand ∷ forall_nor ∷ forall_xor
    ∷ forall_equiv ∷ forall_imp ∷ forall_imp_strict ∷ exist_and ∷ exist_or ∷ exist_nand ∷ exist_nor
    ∷ exist_xor ∷ exist_equiv ∷ exist_imp ∷ exist_imp_strict ∷ unique_and ∷ unique_or ∷ unique_nand
    ∷ unique_nor ∷ unique_xor ∷ unique_equiv ∷ unique_imp ∷ unique_imp_strict ∷ []

get_elem?-discriminant : (op : BddOp) → get_elem? operators (discriminant op) ≡ some op
unfolding discriminant
get_elem?-discriminant negation = refl
get_elem?-discriminant and = refl
get_elem?-discriminant or = refl
get_elem?-discriminant nand = refl
get_elem?-discriminant nor = refl
get_elem?-discriminant xor = refl
get_elem?-discriminant equiv = refl
get_elem?-discriminant imp = refl
get_elem?-discriminant imp_strict = refl
get_elem?-discriminant ite = refl
get_elem?-discriminant substitute = refl
get_elem?-discriminant restrict = refl
get_elem?-discriminant forall = refl
get_elem?-discriminant exist = refl
get_elem?-discriminant unique = refl
get_elem?-discriminant forall_and = refl
get_elem?-discriminant forall_or = refl
get_elem?-discriminant forall_nand = refl
get_elem?-discriminant forall_nor = refl
get_elem?-discriminant forall_xor = refl
get_elem?-discriminant forall_equiv = refl
get_elem?-discriminant forall_imp = refl
get_elem?-discriminant forall_imp_strict = refl
get_elem?-discriminant exist_and = refl
get_elem?-discriminant exist_or = refl
get_elem?-discriminant exist_nand = refl
get_elem?-discriminant exist_nor = refl
get_elem?-discriminant exist_xor = refl
get_elem?-discriminant exist_equiv = refl
get_elem?-discriminant exist_imp = refl
get_elem?-discriminant exist_imp_strict = refl
get_elem?-discriminant unique_and = refl
get_elem?-discriminant unique_or = refl
get_elem?-discriminant unique_nand = refl
get_elem?-discriminant unique_nor = refl
get_elem?-discriminant unique_xor = refl
get_elem?-discriminant unique_equiv = refl
get_elem?-discriminant unique_imp = refl
get_elem?-discriminant unique_imp_strict = refl

-- Operators with the same discriminant are the same operator.
pub discriminant-injective : (a b : BddOp) → discriminant a ≡ discriminant b → a ≡ b
discriminant-injective a b h =
    some-injective a b
      (sym (get_elem?-discriminant a) ∙ ap (get_elem? operators) h ∙ get_elem?-discriminant b)

abbrev pub op_eq : OperatorEq BddOp
op_eq = record {
  same = λ a b. discriminant a == discriminant b;
  same_sound = λ a b h. discriminant-injective a b ((==_iff (discriminant a) (discriminant b)).0 h);
}
