-- ===== src/Compiler/ControlFlow/Cycles.antt =====
-- `detect_illegal_cycles` and `three_color_cycle_detect` of crates/fusion-compiler/src/lib.rs.
pub mod Trails
pub mod Walks
pub mod Adjacent
pub mod Fuel
pub mod Acyclic
pub mod Decided
use fusion_router.Prelude.{
  ℕ, zero, suc, ◌*◌, Bool, true, false, not, nat_eq, text_eq, ◌==◌, if◌then◌else◌, List, [], ◌∷◌,
  map, length, keep, get_elem?, Option, none, some, codes,
}
use fusion_router.Prelude.Maps.{Map, put, get_or, push_at, touch}
use fusion_router.Compiler.Ir.{NodeId, IrEdge}

pub data Color : Type 0 where
  white grey black : Color

abbrev pub Adjacency : Type 0
Adjacency = Map NodeId (List NodeId)

abbrev pub Colors : Type 0
Colors = Map NodeId Color

unfoldable pub adjacency : List (NodeId × NodeId) → Adjacency → Adjacency
adjacency [] graph = graph
adjacency ((from, to) ∷ edges) graph = adjacency edges (touch to [] (push_at from to graph))

-- How a walk ends: with the colours that it leaves, at the source of an edge into a grey node, or
-- without fuel.
pub data Walk : Type 0 where
  finished : Colors → Walk
  cycle_at : NodeId → Walk
  out_of_fuel : Walk

abbrev pub color_of : Colors → NodeId → Color
color_of colors id = get_or id white colors

abbrev pub is_white : Color → Bool
is_white white = true
is_white _ = false

module _ (graph : Adjacency) where
  abbrev pub child : NodeId → ℕ → Option NodeId
  child node i = get_elem? (get_or node [] graph) i

  -- One round pops a node and its next child's index.
  unfoldable pub walk : ℕ → Colors → List (NodeId × ℕ) → Walk
  walk fuel colors [] = finished colors
  walk zero colors (_ ∷ _) = out_of_fuel
  walk (suc fuel) colors ((node, child_idx) ∷ stack) = elim (child node child_idx) [
    | none ↦ walk fuel (put node black colors) stack
    | some next ↦ elim (color_of colors next) [
      | grey ↦ cycle_at node
      | white ↦ walk fuel (put next grey colors) ((next, 0) ∷ (node, suc child_idx) ∷ stack)
      | black ↦ walk fuel colors ((node, suc child_idx) ∷ stack)
    ]
  ]

  unfoldable pub walk_all : ℕ → List (NodeId × List NodeId) → Colors → Walk
  walk_all fuel [] colors = finished colors
  walk_all fuel ((root, _) ∷ roots) colors =
      if is_white (color_of colors root)
      then elim (walk fuel (put root grey colors) ((root, 0) ∷ [])) [
        | finished after ↦ walk_all fuel roots after
        | cycle_at node ↦ cycle_at node
        | out_of_fuel ↦ out_of_fuel
      ]
      else walk_all fuel roots colors

-- `none` without fuel, `some none` for `Ok(())` and `some (some node)` for `Err(node)`. A walk follows
-- an edge once and blackens a node once, and an edge has two ends, so three rounds per edge are enough.
unfoldable pub three_color_cycle_detect : List (NodeId × NodeId) → Option (Option NodeId)
three_color_cycle_detect edges =
    let graph = adjacency edges [] in
    elim (walk_all graph (3 * length edges) graph []) [
      | finished _ ↦ some none
      | cycle_at node ↦ some (some node)
      | out_of_fuel ↦ none
    ]

-- An edge that is not marked `"loop"`.
abbrev pub is_forward : IrEdge → Bool
is_forward e = elim e.condition [ none ↦ true | some c ↦ not (c == codes "loop") ]

unfoldable pub detect_illegal_cycles : List IrEdge → Option (Option NodeId)
detect_illegal_cycles edges =
    three_color_cycle_detect (map (λ (e : IrEdge). (e.from, e.to)) (keep is_forward edges))
