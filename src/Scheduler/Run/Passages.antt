-- ===== src/Scheduler/Run/Passages.antt =====
-- The results of a whole batch: `run_inner` of crates/fusion-scheduler/src/lib.rs.
use fusion_router.Prelude.{
  ◌≡◌, refl, sym, subst, ap, ◌∙◌, true, List, [], ◌∷◌, Option, none, some, nat_eq, All, map,
}
use fusion_router.Prelude.Sets.{contains}
use fusion_router.Prelude.Maps.{Map}
use fusion_router.Budget.Envelope.{BudgetExceeded, Envelope}
use fusion_router.Scheduler.Graph.{
  NodeId, ExecutionGraph, NodeState, succeeded, failed, pending, running, skipped,
}
use fusion_router.Scheduler.Queue.{WorkQueue}
use fusion_router.Scheduler.Queue.Frame.{
  static, kept-activate_edge, static-mark_conditional_completed, static-mark_completed,
  static-mark_failed, static-reset_body_node, static-reset_ready,
}
use fusion_router.Scheduler.Run.{
  NodeExecutionResult, Run, Usage, Flow, proceeds, stops, breaches, errs, Call,
}
use fusion_router.Scheduler.Run.Handle.{
  add_usage, charge, account, store, breach, fail_batch, skip_outstanding, verdict, handle,
  handle_all, and_then,
}
use fusion_router.Scheduler.Run.Moves.{
  Ends, completes, decides, fails, Move, writes, counts, cascades, activates, resets, rearms,
  loops_to, Moves, done, step, Finishes, Passage, all_passed, passed,
}
use fusion_router.Scheduler.Run.Nodes.{ids}
use fusion_router.Scheduler.Run.Settle.{Fixed, Led, edges_of}
use fusion_router.Scheduler.Run.Settle.Results.{settle-Ended}

pub static-Ends : (id : NodeId) (q r : WorkQueue) → Ends id q r → static r ≡ static q
static-Ends id q r (completes _) = static-mark_completed q id
static-Ends id q r (decides _) = static-mark_conditional_completed q id
static-Ends id q r (fails _) = static-mark_failed q id

module _ {V : Type 0} (g : ExecutionGraph) where
  pub static-Move : (r m : Run V) → Move g r m → static m.queue ≡ static r.queue
  static-Move r m (writes _ _ _) = refl
  static-Move r m (counts _ _ _) = refl
  static-Move r m (cascades _ id) = static-mark_failed r.queue id
  static-Move r m (activates _ from to _ _) = ap (λ k. k.0) (kept-activate_edge r.queue from to)
  static-Move r m (resets _ _ id _) = static-reset_body_node r.queue id
  static-Move r m (rearms _ _ id _) = static-reset_ready r.queue id
  static-Move r m (loops_to _ _ from to _) = ap (λ k. k.0) (kept-activate_edge r.queue from to)

  pub static-Moves : (r m : Run V) → Moves g r m → static m.queue ≡ static r.queue
  static-Moves r m (done _) = refl
  static-Moves r m (step first more) = static-Moves _ m more ∙ static-Move r _ first

  static-Finishes :
      (id : NodeId) (r m : Run V) → Finishes g id r m → static m.queue ≡ static r.queue
  static-Finishes id r m h =
      static-Moves h.between m h.moves ∙ static-Ends id r.queue h.between.queue h.ends

module _ {V : Type 0} (c : Call V) where
  -- A breach: the totals are those behind the charge, and no node is left outstanding.
  pub record Breached (r after : Run V) : Type 0 where
    pub passed_ids : List NodeId
    pub before : Run V
    pub passage : Passage c passed_ids r before
    pub id : NodeId
    pub usage : Option Usage
    pub same_cost : after.total_cost ≡ (account c id usage before).0.total_cost
    pub same_envelope : after.envelope ≡ (account c id usage before).0.envelope
    pub states : Map NodeId NodeState
    pub skips : after.node_states ≡ skip_outstanding c.graph.nodes states

  abbrev pub Handled : List NodeId → Run V → Flow V → Type 0
  Handled ids r (proceeds after) = Passage c ids r after
  Handled ids r (stops after) = (seen : List NodeId) × Passage c seen r after
  Handled ids r (breaches after) = Breached r after
  Handled ids r (errs code) = ⊥

  queue-charge :
      (o : Option Envelope) (id : NodeId) (usage : Usage) (r : Run V)
      → (charge c o id usage r).0.queue ≡ r.queue
  unfolding charge add_usage
  queue-charge none id usage r = refl
  queue-charge (some e) id usage r = refl

  pub queue-account :
      (id : NodeId) (usage : Option Usage) (r : Run V) → (account c id usage r).0.queue ≡ r.queue
  unfolding account
  queue-account id none r = refl
  queue-account id (some usage) r = queue-charge r.envelope id usage r

  pub static-Passage :
      (seen : List NodeId) (r after : Run V)
      → Passage c seen r after
      → static after.queue ≡ static r.queue
  static-Passage seen r after (all_passed _) = refl
  static-Passage seen r after (passed {m = m} id usage within h more) =
      static-Passage _ m after more
      ∙ static-Finishes c.graph id (account c id usage r).0 m h
      ∙ ap static (queue-account id usage r)

  store-breach :
      (batch : List NodeId) (id : NodeId) (result : NodeExecutionResult V) (state : NodeState)
      (r : Run V)
      → ((store c.json id state result.output r).total_cost ≡ r.total_cost)
        × ((store c.json id state result.output r).envelope ≡ r.envelope)
  unfolding store
  store-breach batch id result succeeded r = (refl, refl)
  store-breach batch id result (failed _) r = (refl, refl)
  store-breach batch id result pending r = (refl, refl)
  store-breach batch id result running r = (refl, refl)
  store-breach batch id result skipped r = (refl, refl)

  -- One result, within the budget or not.
  abbrev Within : NodeId → Option Usage → Run V → Run V → Type 0
  Within id usage r after =
      ((account c id usage r).1 ≡ none) × Finishes c.graph id (account c id usage r).0 after

  abbrev One : NodeId → Option Usage → Run V → Flow V → Type 0
  One id usage r (proceeds after) = Within id usage r after
  One id usage r (stops after) = Within id usage r after
  One id usage r (breaches after) = Breached r after
  One id usage r (errs code) = ⊥

  settle-One :
      (id : NodeId) (usage : Option Usage) (r : Run V) (flow : Flow V)
      → (account c id usage r).1 ≡ none
      → Led c.graph (Finishes c.graph id (account c id usage r).0) flow
      → One id usage r flow
  settle-One id usage r (proceeds after) within h = (within, h)
  settle-One id usage r (stops after) within h = (within, h)
  settle-One id usage r (breaches after) within h = absurd h
  settle-One id usage r (errs code) within h = h

  verdict-One :
      (batch : List NodeId) (id : NodeId) (result : NodeExecutionResult V)
      (o : Option BudgetExceeded) (r : Run V)
      → (account c id result.usage r).1 ≡ o
      → Fixed c.graph r.queue
      → contains (ids c.graph.nodes) id ≡ true
      → One id result.usage r (verdict c batch id result o (account c id result.usage r).0)
  unfolding verdict breach
  verdict-One batch id result none r said fixed known =
      let charged = (account c id result.usage r).0 in
      settle-One id result.usage r _ said (
        settle-Ended c id result.state result.output charged
          (subst (Fixed c.graph) (sym (queue-account id result.usage r)) fixed) known)
  verdict-One batch id result (some e) r said fixed known =
      let charged = (account c id result.usage r).0 in
      let same = store-breach batch id result result.state charged in
      record {
        passed_ids = [];
        before = r;
        passage = all_passed r;
        id = id;
        usage = result.usage;
        same_cost = same.0;
        same_envelope = same.1;
        states =
            fail_batch e batch (store c.json id result.state result.output charged).node_states;
        skips = refl;
      }

  Breached-later :
      (id : NodeId) (usage : Option Usage) (r m after : Run V)
      → Within id usage r m
      → Breached m after
      → Breached r after
  Breached-later id usage r m after h b = record {
    passed_ids = id ∷ b.passed_ids;
    before = b.before;
    passage = passed id usage h.0 h.1 b.passage;
    id = b.id;
    usage = b.usage;
    same_cost = b.same_cost;
    same_envelope = b.same_envelope;
    states = b.states;
    skips = b.skips;
  }

  later-Handled :
      (id : NodeId) (usage : Option Usage) (seen : List NodeId) (r m : Run V) (flow : Flow V)
      → Within id usage r m
      → Handled seen m flow
      → Handled (id ∷ seen) r flow
  later-Handled id usage seen r m (proceeds after) h more = passed id usage h.0 h.1 more
  later-Handled id usage seen r m (stops after) h more =
      (id ∷ more.0, passed id usage h.0 h.1 more.1)
  later-Handled id usage seen r m (breaches after) h more = Breached-later id usage r m after h more
  later-Handled id usage seen r m (errs code) h more = more

  abbrev pub ids_with : List (NodeId × NodeExecutionResult V) → List NodeId
  ids_with results = map (λ p. p.0) results

  and_then-Handled :
      (id : NodeId) (usage : Option Usage) (seen : List NodeId) (r : Run V) (flow : Flow V)
      (rest : Run V → Flow V)
      → Fixed c.graph r.queue
      → ((m : Run V) → Fixed c.graph m.queue → Handled seen m (rest m))
      → One id usage r flow
      → Handled (id ∷ seen) r (and_then flow rest)
  and_then-Handled id usage seen r (proceeds m) rest fixed later h =
      let same = static-Finishes c.graph id _ m h.1 ∙ ap static (queue-account id usage r) in
      later-Handled id usage seen r m (rest m) h
        (later m (edges_of c.graph r.queue m.queue same fixed))
  and_then-Handled id usage seen r (stops m) rest fixed later h =
      (id ∷ [], passed id usage h.0 h.1 (all_passed m))
  and_then-Handled id usage seen r (breaches m) rest fixed later h = h
  and_then-Handled id usage seen r (errs code) rest fixed later h = h

  -- The results of nodes of the graph never end in an error.
  pub handle_all-Handled :
      (batch : List NodeId) (results : List (NodeId × NodeExecutionResult V)) (r : Run V)
      → Fixed c.graph r.queue
      → All (λ id. contains (ids c.graph.nodes) id ≡ true) (ids_with results)
      → Handled (ids_with results) r (handle_all c batch results r)
  unfolding handle_all handle
  handle_all-Handled batch [] r fixed known = all_passed r
  handle_all-Handled batch ((id, result) ∷ results) r fixed known =
      and_then-Handled id result.usage (ids_with results) r _ (handle_all c batch results) fixed
        (λ m f. handle_all-Handled batch results m f known.1)
        (verdict-One batch id result (account c id result.usage r).1 r refl fixed known.0)
