-- ===== src/Workflow/Structure.antt =====
-- `structural_checks` of crates/fusion-ir/src/validate.rs: ids, roots and what they reach.
pub mod Reachable
pub mod Accepted
use fusion_router.Prelude.{
  ℕ, zero, suc, ◌+◌, Bool, true, false, not, ◌&&◌, List, [], ◌∷◌, ◌++◌, Option, none, some, nat_beq,
  nat_eq, if◌then◌else◌, length, map, keep,
}
use fusion_router.Prelude.Sets.{contains, insert}
use fusion_router.Prelude.Maps.{Map, get, get_or, push_at, increment}
use fusion_router.Workflow.{
  NodeId, WorkflowNode, WorkflowEdge, WorkflowIr, ValidationIssue, duplicate_node_id,
  unknown_node_ref, unreachable_node, missing_root, is_loop,
}

-- The issues of ids that were there before, and all ids.
unfoldable pub check_ids : List WorkflowNode → List NodeId → List ValidationIssue × List NodeId
check_ids [] seen = ([], seen)
check_ids (n ∷ nodes) seen =
    let rest = check_ids nodes (insert n.id seen) in
    if contains seen n.id
    then (record { node = some n.id; edge = none; error = duplicate_node_id n.id } ∷ rest.0, rest.1)
    else rest

abbrev pub check_end : List NodeId → WorkflowEdge → NodeId → List ValidationIssue
check_end seen e id =
    if contains seen id
    then []
    else record { node = none; edge = some (e.from, e.to); error = unknown_node_ref id } ∷ []

unfoldable pub check_ends : List NodeId → List WorkflowEdge → List ValidationIssue
check_ends seen [] = []
check_ends seen (e ∷ edges) =
    check_end seen e e.from ++ (check_end seen e e.to ++ check_ends seen edges)

-- Loop edges do not count for roots, but they do for what is reached.
unfoldable pub count_incoming : List NodeId → List WorkflowEdge → Map NodeId ℕ → Map NodeId ℕ
count_incoming seen [] m = m
count_incoming seen (e ∷ edges) m =
    count_incoming seen edges
      (if not (is_loop e.kind) && contains seen e.to then increment e.to m else m)

unfoldable pub adjacency : List WorkflowEdge → Map NodeId (List NodeId) → Map NodeId (List NodeId)
adjacency [] m = m
adjacency (e ∷ edges) m = adjacency edges (push_at e.from e.to m)

unfoldable pub roots : List WorkflowNode → Map NodeId ℕ → List NodeId
roots nodes incoming =
    keep (λ id. nat_beq (get_or id 0 incoming) 0) (map (λ (n : WorkflowNode). n.id) nodes)

-- The targets in order, each on top of the one before.
abbrev pub push_all : List NodeId → List NodeId → List NodeId
push_all [] stack = stack
push_all (id ∷ ids) stack = push_all ids (id ∷ stack)

unfoldable pub reach :
    Map NodeId (List NodeId) → ℕ → List NodeId → List NodeId → Option (List NodeId)
reach adj fuel reachable [] = some reachable
reach adj zero reachable (_ ∷ _) = none
reach adj (suc fuel) reachable (cur ∷ stack) =
    if contains reachable cur
    then reach adj fuel reachable stack
    else reach adj fuel (insert cur reachable) (push_all (get_or cur [] adj) stack)

abbrev pub unreachable_issue : WorkflowNode → ValidationIssue
unreachable_issue n = record { node = some n.id; edge = none; error = unreachable_node n.id }

abbrev pub check_reachable : List WorkflowNode → List NodeId → List ValidationIssue
check_reachable nodes reachable =
    map unreachable_issue (keep (λ (n : WorkflowNode). not (contains reachable n.id)) nodes)

abbrev pub check_roots : List NodeId → List ValidationIssue
check_roots [] = record { node = none; edge = none; error = missing_root } ∷ []
check_roots (_ ∷ _) = []

abbrev pub starts : WorkflowIr → List NodeId
starts ir = roots ir.nodes (count_incoming (check_ids ir.nodes []).1 ir.edges [])

-- Each root and each edge puts one id on the stack, so there is a round for each node and each edge.
unfoldable pub reached : WorkflowIr → Option (List NodeId)
reached ir =
    reach (adjacency ir.edges []) (length ir.nodes + length ir.edges) [] (push_all (starts ir) [])

unfoldable pub issues_of : WorkflowIr → Option (List NodeId) → Option (List ValidationIssue)
issues_of ir none = none
issues_of ir (some reachable) =
    let ids = check_ids ir.nodes [] in
    some (
      ids.0
      ++ (check_ends ids.1 ir.edges
          ++ (check_roots (starts ir) ++ check_reachable ir.nodes reachable)))

unfoldable pub structural_checks : WorkflowIr → Option (List ValidationIssue)
structural_checks ir = issues_of ir (reached ir)
