-- ===== src/Simple/Pick.antt =====
-- `pick_cube_edge` and `pick_cube_symbolic_edge` of crates/oxidd-rules-bdd/src/simple/apply_rec.rs.
-- `OptBool` is an `Option`, `none` for don't care. The choice function is a parameter, on the edge
-- and the level; what it keeps for itself is not modelled.
pub mod Cubes
pub mod Symbolic
use oxidd.Prelude.{
  ℕ, zero, suc, ◌≡◌, Bool, true, false, Option, none, some, List, [], ◌∷◌, ◌==◌, if◌then◌else◌,
  length, get_elem?, set, replicate, ltb, ◌||◌,
}
use oxidd.Outcome.{Result, ok, err, panic, out_of_fuel, Run, pure, raise, ◌>>=◌, ◌>>◌}
use oxidd.Manager.{
  Edge, InnerNode, Node, inner, terminal, Store, get_node, get_terminal, num_levels, get_or_insert,
}

abbrev pub Choice : Type 0
Choice = Edge → ℕ → Bool

abbrev pub is_terminal : Option Node → Bool → Bool
is_terminal (some (terminal true)) b = b
is_terminal (some (terminal false)) true = false
is_terminal (some (terminal false)) false = true
is_terminal _ b = false

-- Which child is taken: the one that is not ⊥, or the one that is chosen.
unfoldable pub picked : Store → Choice → Edge → InnerNode → Bool
picked s choice edge node =
    if is_terminal (get_node s node.child0) false
    then false
    else if is_terminal (get_node s node.child1) false
    then true
    else choice edge node.level

abbrev pub child : InnerNode → Bool → Edge
child node true = node.child0
child node false = node.child1

unfoldable pub pick_inner :
    ℕ → Store → Choice → Edge → List (Option Bool) → Result (List (Option Bool))
pick_inner zero s choice edge cube = err out_of_fuel
pick_inner (suc k) s choice edge cube = elim (get_node s edge) [
  | none ↦ err panic
  | some m ↦ elim m [
    | terminal t ↦ ok cube
    | inner node ↦
        let c = picked s choice edge node in
        if ltb node.level (length cube)
        then pick_inner k s choice (child node c) (set cube node.level (some c))
        else err panic
  ]
]

-- The cube in the given order of variables; an edge to no inner node panics.
abbrev pub ordered_cube : Store → List Edge → List (Option Bool) → Result (List (Option Bool))
ordered_cube s [] cube = ok []
ordered_cube s (e ∷ order) cube = elim (get_node s e) [
  | none ↦ err panic
  | some m ↦ elim m [
    | terminal t ↦ err panic
    | inner node ↦ elim (get_elem? cube node.level) [
      | none ↦ err panic
      | some b ↦ elim (ordered_cube s order cube) [ err e ↦ err e | ok rest ↦ ok (b ∷ rest) ]
    ]
  ]
]

abbrev pub in_order : Store → List Edge → List (Option Bool) → Result (Option (List (Option Bool)))
in_order s [] cube = ok (some cube)
in_order s (e ∷ order) cube = elim (ordered_cube s (e ∷ order) cube) [
  | err e ↦ err e
  | ok c ↦ ok (some c)
]

unfoldable pub pick_cube_edge :
    Store → Choice → Edge → List Edge → Result (Option (List (Option Bool)))
pick_cube_edge s choice edge order =
    if length order == 0 || length order == num_levels s
    then elim (get_node s edge) [
      | none ↦ err panic
      | some m ↦ elim m [
        | terminal false ↦ ok none
        | terminal true ↦ ok (some (replicate (num_levels s) none))
        | inner node ↦
            elim (pick_inner (suc (num_levels s)) s choice edge (replicate (num_levels s) none)) [
              | err e ↦ err e
              | ok cube ↦ in_order s order cube
            ]
      ]
    ]
    else err panic

-- The node over the cube of the child, after the debug assertion that it is not ⊥.
unfoldable pub cube_node : ℕ → Bool → Edge → Run Store Edge
cube_node level c sub s =
    let f = get_terminal false in
    if is_terminal (get_node s sub) false
    then raise panic s
    else get_or_insert level
        record { level = level; child0 = if c then sub else f; child1 = if c then f else sub } s

-- `inner` of `pick_cube_symbolic_edge`.
unfoldable pub symbolic_inner : ℕ → Choice → Edge → Run Store Edge
symbolic_inner zero choice edge s = raise out_of_fuel s
symbolic_inner (suc k) choice edge s = elim (get_node s edge) [
  | none ↦ raise panic s
  | some m ↦ elim m [
    | terminal t ↦ pure edge s
    | inner node ↦
        let c = picked s choice edge node in
        (do sub ← symbolic_inner k choice (child node c); cube_node node.level c sub) s
  ]
]

unfoldable pub pick_cube_symbolic_edge : Choice → Edge → Run Store Edge
pick_cube_symbolic_edge choice edge s = symbolic_inner (suc (num_levels s)) choice edge s
