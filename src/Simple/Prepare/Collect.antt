-- ===== src/Simple/Prepare/Collect.antt =====
-- The vector of replacements that `substitute_prepare` of
-- crates/oxidd-rules-bdd/src/simple/apply_rec.rs makes of the pairs.
use mathlib.Core.Option.{some-injective}
use oxidd.Prelude.{
  ℕ, zero, suc, ◌+◌, ◌-◌, ◌≤◌, ◌<◌, ◌≡◌, ◌≢◌, ◌∙◌, ap, sym, refl, subst, Bool, true, false, Option,
  none, some, arith, List, [], ◌∷◌, ◌++◌, leb, Bool-cases, Option-cases, inl, inr, length,
  get_elem?, get_elem?-some, set, set-cases, length-set, replicate, get_elem?-replicate,
  length-replicate, length-append, Has, get_elem?-set_self, get_elem?-set_ne,
}
use oxidd.Outcome.{Result, ok, err}
use oxidd.Tree.{leaf, node, Assignment}
use oxidd.Manager.{Edge, Store, num_levels}
use oxidd.Manager.Valid.{IsValid}
use oxidd.Represents.{Rep, IsFun}
use oxidd.Simple.Prepare.{var_level, resized, collect_pairs}

-- The pairs are variables at different levels, with the edges of their replacements.
abbrev pub PairsAt : Store → (ℕ → Assignment → Bool) → List (Edge × Edge) → List ℕ → Type 0
PairsAt s q [] [] = Unit
PairsAt s q ((v, r) ∷ pairs) (l ∷ ls) =
    Rep s v (node l (leaf true) (leaf false))
    × IsFun s 0 r (q l)
    × (Has l ls → ⊥)
    × PairsAt s q pairs ls
PairsAt s q _ _ = ⊥

-- A vector for the levels that have been seen; `ls` are still to come.
pub record Collected (s : Store) (q : ℕ → Assignment → Bool) (ls : List ℕ) (xs : List (Option Edge))
    : Type 0 where
  pub fits : (l : ℕ) (e : Edge) → get_elem? xs l ≡ some (some e) → IsFun s 0 e (q l)
  pub fresh : (l : ℕ) → Has l ls → (e : Edge) → get_elem? xs l ≢ some (some e)
  pub other :
      (l : ℕ) (r : Assignment)
      → (Has l ls → ⊥)
      → ((e : Edge) → get_elem? xs l ≢ some (some e))
      → q l r ≡ r l
  pub short : length xs ≤ num_levels s

get_elem?-append_none :
    (xs : List (Option Edge)) (n l : ℕ) (e : Edge)
    → get_elem? (xs ++ replicate n none) l ≡ some (some e)
    → get_elem? xs l ≡ some (some e)
get_elem?-append_none [] n l e h =
    let same : none ≡ some e = get_elem?-replicate n l none h in absurd (cc)
get_elem?-append_none (x ∷ xs) n zero e h = h
get_elem?-append_none (x ∷ xs) n (suc l) e h = get_elem?-append_none xs n l e h

get_elem?-append_left :
    (xs ys : List (Option Edge)) (l : ℕ) {o : Option Edge}
    → get_elem? xs l ≡ some o
    → get_elem? (xs ++ ys) l ≡ some o
get_elem?-append_left [] ys l h = absurd (cc)
get_elem?-append_left (x ∷ xs) ys zero h = h
get_elem?-append_left (x ∷ xs) ys (suc l) h = get_elem?-append_left xs ys l h

resized_back :
    (xs : List (Option Edge)) (level l : ℕ) (e : Edge)
    → get_elem? (resized xs level) l ≡ some (some e)
    → get_elem? xs l ≡ some (some e)
resized_back xs level l e = elim (Bool-cases (leb (length xs) level)) [
  | inl h ↦ rw h (get_elem?-append_none xs (level + 1 - length xs) l e)
  | inr h ↦ rw h (λ k. k)
]

resized_keeps :
    (xs : List (Option Edge)) (level l : ℕ) {o : Option Edge}
    → get_elem? xs l ≡ some o
    → get_elem? (resized xs level) l ≡ some o
resized_keeps xs level l h = elim (Bool-cases (leb (length xs) level)) [
  | inl k ↦ rw k (get_elem?-append_left xs (replicate (level + 1 - length xs) none) l h)
  | inr k ↦ rw k h
]

resized-length :
    (xs : List (Option Edge)) (level : ℕ)
    → (level < length (resized xs level))
      × ((n : ℕ) → length xs ≤ n → level < n → length (resized xs level) ≤ n)
resized-length xs level = elim (Bool-cases (leb (length xs) level)) [
  | inl k ↦
      let gap = level + 1 - length xs in
      let long : length (xs ++ replicate gap none) ≡ level + 1 = ground (
        arith,
        length-append xs (replicate gap none),
        length-replicate {A = Option Edge} gap none,
      ) in
      rw k (omega (arith, long), λ n a b. omega (arith, long))
  | inr k ↦ rw k (ground arith, λ n a b. a)
]

var_level-ok :
    (s : Store) (v : Edge) (l : ℕ)
    → IsValid s
    → Rep s v (node l (leaf true) (leaf false))
    → (var_level s v ≡ ok l) × (l < num_levels s)
unfolding var_level
var_level-ok s v l valid (n, at, level, a, b) =
    (rw (at, var_level, a, b) (ap ok level), omega (arith, level, (valid.stored v n at).below))

-- What a vector without the level becomes with its replacement.
Collected-set :
    {s : Store} {q : ℕ → Assignment → Bool} {xs : List (Option Edge)} (l : ℕ) (e : Edge)
    (ls : List ℕ)
    → Collected s q (l ∷ ls) xs
    → IsFun s 0 e (q l)
    → (Has l ls → ⊥)
    → l < num_levels s
    → Collected s q ls (set (resized xs l) l (some e))
Collected-set {s} {q} {xs} l e ls c f once below =
    let (inside, bound) = resized-length xs l in
    record {
      fits = λ k d h. elim (set-cases (resized xs l) l k inside h) [
        | inl (same, there) ↦
            subst (λ i. IsFun s 0 d (q i)) (sym same)
              (subst (λ i. IsFun s 0 i (q l)) (some-injective e d there) f)
        | inr (apart, there) ↦ c.fits k d (resized_back xs l k d there)
      ];
      fresh = λ k later d h. elim (set-cases (resized xs l) l k inside h) [
        | inl (same, there) ↦ once (subst (λ i. Has i ls) same later)
        | inr (apart, there) ↦ c.fresh k (inr later) d (resized_back xs l k d there)
      ];
      other = λ k r none_later none_here.
          let apart : k ≢ l = λ same. none_here e (
            subst (λ i. get_elem? (set (resized xs l) l (some e)) i ≡ some (some e)) (sym same)
              (get_elem?-set_self (resized xs l) l (some e) inside)) in
          c.other k r (λ h. elim h [ inl same ↦ apart same | inr later ↦ none_later later ])
            (λ d h. none_here d (
              get_elem?-set_ne (resized xs l) {i = l} {j = k} (some e) (λ same. apart (sym same))
              ∙ resized_keeps xs l k h));
      short =
          omega (arith, length-set (resized xs l) l (some e), bound (num_levels s) c.short below);
    }

abbrev pub Collects : Store → (ℕ → Assignment → Bool) → Result (List (Option Edge)) → Type 0
Collects s q (ok xs) = Collected s q [] xs
Collects s q (err e) = ⊥

pub collect_pairs-Collects :
    {s : Store} {q : ℕ → Assignment → Bool} (pairs : List (Edge × Edge)) (ls : List ℕ)
    (xs : List (Option Edge))
    → IsValid s
    → PairsAt s q pairs ls
    → Collected s q ls xs
    → Collects s q (collect_pairs s pairs xs)
unfolding collect_pairs
collect_pairs-Collects [] [] xs v p c = c
collect_pairs-Collects [] (l ∷ ls) xs v p c = absurd p
collect_pairs-Collects (x ∷ pairs) [] xs v p c = absurd p
collect_pairs-Collects {s} {q} ((w, r) ∷ pairs) (l ∷ ls) xs v (at, f, once, rest) c =
    let (level, below) = var_level-ok s w l v at in
    let (inside, bound) = resized-length xs l in
    let (o, there) = get_elem?-some (resized xs l) l inside in
    let vacant : o ≡ none = elim (Option-cases o) [
      | inl e ↦ e
      | inr (d, e) ↦ absurd (c.fresh l (inl refl) d (resized_back xs l l d (there ∙ ap some e)))
    ] in
    rw (level, collect_pairs)
      (rw (there, vacant)
        (collect_pairs-Collects pairs ls (set (resized xs l) l (some r)) v rest
          (Collected-set l r ls c f once below)))
