-- ===== src/Simple/Prepare.antt =====
-- `substitute_prepare` and `substitute_edge` of crates/oxidd-rules-bdd/src/simple/apply_rec.rs, with
-- `var_level` of simple/mod.rs: a substitution of variables, given by pairs of edges.
pub mod Collect
pub mod Results
use oxidd.Prelude.{
  ℕ, zero, suc, ◌+◌, ◌-◌, Bool, true, false, ◌&&◌, Option, none, some, List, [], ◌∷◌, ◌++◌, leb,
  if◌then◌else◌, length, get_elem?, set, replicate,
}
use oxidd.Outcome.{Result, ok, err, panic, Run, pure, raise, and_then, ◌>>=◌, ◌>>◌}
use oxidd.Manager.{
  Edge, InnerNode, Node, inner, terminal, Store, get_node, num_levels, get_or_insert,
}
use oxidd.Cache.{ApplyCache}
use oxidd.Simple.{BddOp}
use oxidd.Simple.Apply.{St, on_store}
use oxidd.Simple.Functions.{var_node}
use oxidd.Simple.Pick.{is_terminal}
use oxidd.Simple.Substitute.{apply_substitute}

abbrev pub is_var : Store → InnerNode → Bool
is_var s node =
    is_terminal (get_node s node.child0) true && is_terminal (get_node s node.child1) false

-- `expect_inner` and the debug assertion panic on an edge that is no variable.
unfoldable pub var_level : Store → Edge → Result ℕ
var_level s e = elim (get_node s e) [
  | none ↦ err panic
  | some m ↦ elim m [
    | terminal t ↦ err panic
    | inner node ↦ if is_var s node then ok node.level else err panic
  ]
]

-- `resize_with`, where the vector is too short.
abbrev pub resized : List (Option Edge) → ℕ → List (Option Edge)
resized subst level =
    if leb (length subst) level then subst ++ replicate (level + 1 - length subst) none else subst

-- A level that is there already fails a debug assertion.
abbrev pub put_replacement :
    Option (Option Edge) → List (Option Edge) → ℕ → Edge → Result (List (Option Edge))
put_replacement (some none) subst level r = ok (set subst level (some r))
put_replacement _ subst level r = err panic

unfoldable pub collect_pairs :
    Store → List (Edge × Edge) → List (Option Edge) → Result (List (Option Edge))
collect_pairs s [] subst = ok subst
collect_pairs s ((v, r) ∷ pairs) subst = elim (var_level s v) [
  | err e ↦ err e
  | ok level ↦
      elim (put_replacement (get_elem? (resized subst level) level) (resized subst level) level r) [
        | err e ↦ err e
        | ok u ↦ collect_pairs s pairs u
      ]
]

-- The levels that have no replacement stand for themselves.
unfoldable pub fill_levels : ℕ → List (Option Edge) → Run Store (List Edge)
fill_levels level [] = pure []
fill_levels level (some e ∷ subst) = do res ← fill_levels (suc level) subst; pure (e ∷ res)
fill_levels level (none ∷ subst) = do
  e ← get_or_insert level (var_node level)
  res ← fill_levels (suc level) subst
  pure (e ∷ res)

unfoldable pub substitute_prepare : List (Edge × Edge) → Run Store (List Edge)
substitute_prepare pairs s = and_then (collect_pairs s pairs []) s (fill_levels 0)

module _ (A : ApplyCache BddOp) where
  unfoldable pub substitute_edge : Edge → List (Edge × Edge) → ℕ → Run (St A) Edge
  substitute_edge edge pairs id = do
    subst ← on_store (substitute_prepare pairs)
    λ s. apply_substitute A (suc (num_levels s.store)) subst id edge s
