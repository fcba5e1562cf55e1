-- ===== src/Cache/Direct/Laws.antt =====
-- The direct mapped cache is an apply cache: it answers what was added, or nothing.
use mathlib.Core.Option.{some-injective}
use Prim.Native.Nat.{bit_and}
use oxidd.Prelude.{
  ℕ, zero, suc, ◌+◌, ◌-◌, ◌^◌, ◌<◌, ◌≡◌, ◌∙◌, sym, ap, subst, Bool, true, ◌⊎◌, inl, inr, none, some,
  List, arith, ◌==◌, if◌then◌else◌, length, Bool-cases, Option-cases, get_elem?, set, get_elem?-set,
  get_elem?_bound, length-set, replicate,
}
use oxidd.Manager.{Edge}
use oxidd.Cache.{ApplyCache}
use oxidd.Cache.Direct.{
  OperatorEq, Entry, Entries, new_entry, write_from, match_from, set_entry, clear_entry, entry_get,
  bucket, fits, get_at, get_with_numeric, add_at, add_with_numeric,
}
use oxidd.Cache.Direct.Operands.{match_from-write_from, match_from-write_from_after}

abbrev pub SameKey :
    {O : Type 0} → O → O → List Edge → List Edge → List ℕ → List ℕ → Edge → Edge → Type 0
SameKey op op' es es' ns ns' v w = (op' ≡ op) × (es' ≡ es) × (ns' ≡ ns) × (w ≡ v)

module _ {O : Type 0} (eq : OperatorEq O) where
  -- What an entry answers after it was set is the value, and only for the very key.
  entry_get-set_entry :
      (e : Entry O) (op op' : O) (es es' : List Edge) (ns ns' : List ℕ) (v w : Edge)
      → length es + length ns < 2 ^ 8
      → entry_get eq (set_entry e op es ns v) op' es' ns' ≡ some w
      → SameKey op op' es es' ns ns' v w
  unfolding entry_get set_entry clear_entry
  entry_get-set_entry e op op' es es' ns ns' v w small h =
      let a = write_from (length es) ns (write_from 0 es e.operands) in
      let facts : (length es' ≡ length es)
          × (length ns' ≡ length ns)
          × (eq.same op' op ≡ true)
          × (match_from 0 es' a ≡ true)
          × (match_from (length es') ns' a ≡ true)
          × (w ≡ v) =
        ground arith in
      let edges =
        match_from-write_from_after 0 (length es) es' ns (write_from 0 es e.operands)
          (omega arith) in
      (
        eq.same_sound op' op facts.2,
        match_from-write_from 0 es es' e.operands facts.0 (sym edges ∙ facts.3),
        match_from-write_from (length es) ns ns' _ facts.1
            (subst (λ k. match_from k ns' a ≡ true) facts.0 facts.4),
        facts.5,
      )

module _ {O : Type 0} (eq : OperatorEq O) (arity : ℕ) (hash : O → List Edge → ℕ)
    (byte : arity < 2 ^ 8) where
  -- A query after the bucket of another key was set.
  get_with_numeric-set :
      (c : Entries O) (i : ℕ) (e' : Entry O) (op : O) (es : List Edge) (ns : List ℕ)
      → i < length c
      → get_with_numeric eq arity hash (set c i e') op es ns ≡ (
          if bucket eq arity hash c op es == i
          then (if fits arity es ns then get_at eq (some e') op es ns else none)
          else get_with_numeric eq arity hash c op es ns)
  unfolding get_with_numeric bucket
  get_with_numeric-set c i e' op es ns h =
      rw (length-set, get_elem?-set c i (bit_and (hash op es) (length c - 1)) e' h) (ground arith)

  answering :
      (e : Entry O) (op : O) (es : List Edge) (ns : List ℕ) {w : Edge}
      → (if fits arity es ns then get_at eq (some e) op es ns else none) ≡ some w
      → entry_get eq e op es ns ≡ some w
  unfolding get_at
  answering e op es ns h = ground arith

  -- Whether or not it could lock its entry, `add_with_numeric` makes a later query answer nothing
  -- but what was added under its key, or what it would have answered before.
  pub get_with_numeric-add_with_numeric :
      (c : Entries O) (op op' : O) (es es' : List Edge) (ns ns' : List ℕ) (v w : Edge)
      → get_with_numeric eq arity hash (add_with_numeric eq arity hash c op es ns v) op' es' ns'
        ≡ some w
      → SameKey op op' es es' ns ns' v w ⊎ (get_with_numeric eq arity hash c op' es' ns' ≡ some w)
  unfolding add_with_numeric add_at
  get_with_numeric-add_with_numeric c op op' es es' ns ns' v w h =
      elim (Bool-cases (fits arity es ns)) [
        | inr over ↦ inr (rw over at h)
        | inl fit ↦ elim (Option-cases (get_elem? c (bucket eq arity hash c op es))) [
          | inl missing ↦ inr (rw (fit, missing) at h)
          | inr (e, found) ↦ elim (Bool-cases e.locked) [
            | inl held ↦ inr (rw (fit, found, held) at h)
            | inr free ↦
                let i = bucket eq arity hash c op es in
                let step =
                  get_with_numeric-set c i (set_entry e op es ns v) op' es' ns'
                    (get_elem?_bound c i found) in
                let added : add_at c i (some e) op es ns v ≡ set c i (set_entry e op es ns v) =
                  ap (λ (b : Bool). if b then c else set c i (set_entry e op es ns v)) free in
                let run =
                  sym step
                  ∙ subst (λ k. get_with_numeric eq arity hash k op' es' ns' ≡ some w) added
                      (rw (fit, found) at h) in
                let small : length es + length ns < 2 ^ 8 = (unfold fits in ground arith) in
                let key = entry_get-set_entry eq e op op' es es' ns ns' v w small in
                elim (Bool-cases (bucket eq arity hash c op' es' == i)) [
                  | inl here ↦
                      inl (key (answering (set_entry e op es ns v) op' es' ns' (rw here at run)))
                  | inr apart ↦ inr (rw apart at run)
                ]
          ]
        ]
      ]

-- An entry without edge operands answers nothing.
abbrev pub IsVacant : {O : Type 0} → Entries O → Type 0
IsVacant {O} c = (i : ℕ) (e : Entry O) → get_elem? c i ≡ some e → e.edge_operands ≡ 0

module _ {O : Type 0} (eq : OperatorEq O) (arity : ℕ) (hash : O → List Edge → ℕ) where
  pub vacant-none :
      (c : Entries O) (op : O) (es : List Edge) (ns : List ℕ)
      → IsVacant c
      → get_with_numeric eq arity hash c op es ns ≡ none
  unfolding get_with_numeric get_at entry_get fits
  vacant-none c op es ns h = elim (Option-cases (get_elem? c (bucket eq arity hash c op es))) [
    | inl missing ↦ rw missing (ground arith)
    | inr (e, found) ↦ rw found (ground (arith, h (bucket eq arity hash c op es) e found))
  ]

pub replicate-get :
    {O : Type 0} (n i : ℕ) (e x : Entry O) → get_elem? (replicate n e) i ≡ some x → x ≡ e
replicate-get zero i e x h = cc
replicate-get (suc n) zero e x h = sym (some-injective e x h)
replicate-get (suc n) (suc i) e x h = replicate-get n i e x h

-- A new cache answers nothing.
pub with_capacity-none :
    {O : Type 0} (eq : OperatorEq O) (arity : ℕ) (hash : O → List Edge → ℕ) (n : ℕ) (op : O)
    (es : List Edge) (ns : List ℕ)
    → get_with_numeric eq arity hash (replicate n new_entry) op es ns ≡ none
unfolding new_entry
with_capacity-none eq arity hash n op es ns =
    vacant-none eq arity hash (replicate n new_entry) op es ns
      (λ i e h. ap (λ (k : Entry _). k.edge_operands) (replicate-get n i new_entry e h))

-- The direct mapped cache as an apply cache.
abbrev pub direct_cache :
    {O : Type 0} → OperatorEq O → (arity : ℕ) → (O → List Edge → ℕ) → arity < 2 ^ 8 → ApplyCache O
direct_cache {O} eq arity hash byte = record {
  Cache = Entries O;
  get = get_with_numeric eq arity hash;
  add = add_with_numeric eq arity hash;
  get-add = get_with_numeric-add_with_numeric eq arity hash byte;
}
