-- ===== src/Workflow/Builder/Built.antt =====
-- What the gates of crates/fusion-ir/src/builder.rs and crates/fusion-ir/src/serialize.rs let through.
use fusion_router.Prelude.{
  ◌≡◌, ◌≢◌, refl, sym, ap, ◌∙◌, Bool, true, false, List, [], ◌∷◌, ◌++◌, Option, none, some, nat_beq,
  nat_beq_iff, nat_eq, text_eq, any, map, append-none, some-inj, if◌then◌else◌, Bool-cases,
  Option-cases, inl, inr,
}
use fusion_router.Json.{object}
use fusion_router.Compiler.ControlFlow.Cycles.Decided.{joined}
use fusion_router.Compiler.ControlFlow.Cycles.Trails.{Trail}
use fusion_router.Workflow.{NodeId, WorkflowNode, WorkflowIr, workflow_ir_version, ValidationIssue}
use fusion_router.Workflow.Structure.{structural_checks}
use fusion_router.Workflow.Structure.Accepted.{IsWellFormed, Settles, structural_checks_lem}
use fusion_router.Workflow.Cycles.{forward, non_loop_cycle_back_edges}
use fusion_router.Workflow.Cycles.Decided.{
  ends, non_loop_cycle_back_edges-answers, non_loop_cycle_back_edges_lem,
}
use fusion_router.Workflow.Semantics.{
  check_edge, check_output, cycle_issue, join_all, semantic_issues, semantic_checks,
  scan_for_provider_keys, architectural_checks, all_issues, run_all,
}
use fusion_router.Workflow.Semantics.Keys.{Reserved, scan_for_provider_keys_lem}
use fusion_router.Workflow.Builder.{
  Result, ok, err, insert_issue, sort_deterministic, sorted_report, validate, accept, has_model,
  from_json,
}

abbrev pub IsClean : WorkflowNode → Type 0
IsClean n = Reserved (object n.config) → ⊥

abbrev pub AllClean : List WorkflowNode → Type 0
AllClean [] = Unit
AllClean (n ∷ nodes) = IsClean n × AllClean nodes

-- What a workflow without issues is like.
pub record IsAccepted (ir : WorkflowIr) : Type 0 where
  pub well_formed : IsWellFormed ir
  pub acyclic : (v : NodeId) → Trail (joined (ends (forward ir.edges))) v v → ⊥
  pub clean : AllClean ir.nodes
  pub current : ir.version ≡ workflow_ir_version

structural-some : (ir : WorkflowIr) (o : Option (List ValidationIssue)) → Settles ir o → o ≢ none
structural-some ir none h e = h
structural-some ir (some issues) h e = cc e

semantic-answers : (ir : WorkflowIr) → semantic_checks ir ≢ none
unfolding semantic_checks semantic_issues
semantic-answers ir e = elim (Option-cases (non_loop_cycle_back_edges ir)) [
  | inl silent ↦ non_loop_cycle_back_edges-answers ir silent
  | inr (edges, found) ↦ cc (sym (ap (semantic_issues ir) found) ∙ e)
]

all_issues-none :
    (a b : Option (List ValidationIssue)) (c : List ValidationIssue)
    → all_issues a b c ≡ some []
    → (a ≡ some []) × (b ≡ some []) × (c ≡ [])
all_issues-none none b c h = absurd (cc h)
all_issues-none (some a) none c h = absurd (cc h)
all_issues-none (some a) (some b) c h =
    let one = (append-none a (b ++ c)).0 (cc h) in
    let two = (append-none b c).0 one.1 in (ap some one.0, ap some two.0, two.1)

all_issues-answers :
    (a b : Option (List ValidationIssue)) (c : List ValidationIssue)
    → a ≢ none
    → b ≢ none
    → all_issues a b c ≢ none
all_issues-answers none b c f g h = f refl
all_issues-answers (some a) none c f g h = g refl
all_issues-answers (some a) (some b) c f g h = cc h

pub run_all-answers : (ir : WorkflowIr) → run_all ir ≢ none
unfolding run_all
run_all-answers ir =
    all_issues-answers (structural_checks ir) (semantic_checks ir) (architectural_checks ir)
      (structural-some ir (structural_checks ir) (structural_checks_lem ir)) (semantic-answers ir)

IsWellFormed-of :
    (ir : WorkflowIr) (o : Option (List ValidationIssue))
    → Settles ir o
    → o ≡ some []
    → IsWellFormed ir
IsWellFormed-of ir none h e = absurd h
IsWellFormed-of ir (some issues) h e = h.0 (cc e)

own-branch {ℓ} : {A : Type ℓ} (b : Bool) (x : A) → (if b then [] else x ∷ []) ≡ [] → b ≡ true
own-branch true x h = refl
own-branch false x h = absurd (cc h)

map-none : (es : List (NodeId × NodeId)) → map cycle_issue es ≡ [] → es ≡ []
map-none [] h = refl
map-none (e ∷ es) h = absurd (cc h)

back_edges-none :
    (ir : WorkflowIr) (o : Option (List (NodeId × NodeId)))
    → semantic_issues ir o ≡ some []
    → o ≡ some []
unfolding semantic_issues
back_edges-none ir none h = absurd (cc h)
back_edges-none ir (some es) h =
    let one = (append-none (join_all (map (check_edge ir) ir.edges)) _).0 (some-inj _ _ h) in
    let two = (append-none (join_all (map (check_output ir) ir.nodes)) _).0 one.1 in
    let three = (append-none (map cycle_issue es) _).0 two.1 in ap some (map-none es three.0)

scan-AllClean :
    (nodes : List WorkflowNode)
    → join_all (map (λ (n : WorkflowNode). scan_for_provider_keys (object n.config) n.id) nodes)
      ≡ []
    → AllClean nodes
scan-AllClean [] h = tt
scan-AllClean (n ∷ nodes) h =
    let both = (append-none (scan_for_provider_keys (object n.config) n.id) _).0 h in
    ((scan_for_provider_keys_lem (object n.config) n.id).0 both.0, scan-AllClean nodes both.1)

pub run_all-IsAccepted : (ir : WorkflowIr) → run_all ir ≡ some [] → IsAccepted ir
unfolding run_all semantic_checks architectural_checks
run_all-IsAccepted ir h =
    let parts = all_issues-none (structural_checks ir) (semantic_checks ir) _ h in
    let formed = IsWellFormed-of ir (structural_checks ir) (structural_checks_lem ir) parts.0 in
    let arch = (append-none _ _).0 parts.2 in
    record {
      well_formed = formed;
      acyclic =
          (non_loop_cycle_back_edges_lem ir formed.known).1.0
            (back_edges-none ir (non_loop_cycle_back_edges ir) parts.1);
      clean = scan-AllClean ir.nodes arch.1;
      current =
          (nat_beq_iff ir.version workflow_ir_version).0
            (own-branch (nat_beq ir.version workflow_ir_version) _ arch.0);
    }

insert_issue-some :
    (is_at_most : ValidationIssue → ValidationIssue → Bool) (i : ValidationIssue)
    (issues : List ValidationIssue)
    → insert_issue is_at_most i issues ≢ []
unfolding insert_issue
insert_issue-some is_at_most i [] e = cc e
insert_issue-some is_at_most i (j ∷ issues) e = elim (Bool-cases (is_at_most i j)) [
  | inl before ↦ cc (rw before at e)
  | inr after ↦ cc (rw after at e)
]

sort-none :
    (is_at_most : ValidationIssue → ValidationIssue → Bool) (issues : List ValidationIssue)
    → sort_deterministic is_at_most issues ≡ []
    → issues ≡ []
unfolding sort_deterministic
sort-none is_at_most [] h = refl
sort-none is_at_most (i ∷ issues) h =
    absurd (insert_issue-some is_at_most i (sort_deterministic is_at_most issues) h)

-- What a gate answers: what it lets through is the workflow as it was, without issues.
abbrev pub Gates : WorkflowIr → Option (Result WorkflowIr) → Type 0
Gates ir none = ⊥
Gates ir (some (err e)) = Unit
Gates ir (some (ok out)) = (out ≡ ir) × (run_all ir ≡ some [])

sorted-Gates :
    (is_at_most : ValidationIssue → ValidationIssue → Bool) (ir : WorkflowIr)
    (issues : List ValidationIssue)
    → (issues ≡ [] → run_all ir ≡ some [])
    → Gates ir (accept is_at_most ir (some issues))
sorted-Gates is_at_most ir [] h = (refl, h refl)
sorted-Gates is_at_most ir (i ∷ issues) h = tt

accept-Gates :
    (is_at_most : ValidationIssue → ValidationIssue → Bool) (ir : WorkflowIr)
    (o : Option (List ValidationIssue))
    → run_all ir ≡ o
    → Gates ir (accept is_at_most ir (sorted_report is_at_most o))
accept-Gates is_at_most ir none h = run_all-answers ir h
accept-Gates is_at_most ir (some issues) h =
    sorted-Gates is_at_most ir (sort_deterministic is_at_most issues)
      (λ clean. h ∙ ap some (sort-none is_at_most issues clean))

let_through :
    (ir out : WorkflowIr) (o : Option (Result WorkflowIr))
    → Gates ir o
    → o ≡ some (ok out)
    → (out ≡ ir) × (run_all ir ≡ some [])
let_through ir out none g e = absurd g
let_through ir out (some (err _)) g e = absurd (cc e)
let_through ir out (some (ok w)) g e = (cc (e, g.0), g.1)

-- A workflow that comes in from outside is let through as it is, and only if no node has a model
-- chosen, its ids differ, its edges join its nodes, all of them can be reached from nodes that no
-- edge enters, loop edges aside, no node reaches itself without a loop edge, no configuration holds a
-- reserved key at any depth, and its version is the supported one.
pub from_json_lem :
    (is_at_most : ValidationIssue → ValidationIssue → Bool) (ir out : WorkflowIr)
    → from_json is_at_most ir ≡ some (ok out)
    → (out ≡ ir) × (any (has_model is_at_most) ir.nodes ≡ false) × IsAccepted ir
unfolding from_json validate
from_json_lem is_at_most ir out h = elim (Bool-cases (any (has_model is_at_most) ir.nodes)) [
  | inl chosen ↦ absurd (cc (rw chosen at h))
  | inr unset ↦
      let through =
        let_through ir out _ (accept-Gates is_at_most ir (run_all ir) refl) (rw unset at h) in
      (through.0, unset, run_all-IsAccepted ir through.1)
]
