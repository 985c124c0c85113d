-- ===== src/Lib.antt =====
-- fusion-router: an orchestrator that plans a request as a workflow, compiles the workflow to an
-- execution graph under policies and a budget, and runs the graph's nodes on model providers.
--
-- The parts and where they are modelled:
--   Money      crates/fusion-core/src/monetary.rs. An amount is a count of nano-dollars; the checked and
--              saturating arithmetic of u64 is Prelude/Words. Money/Decimal is the decimal text that an
--              amount is printed as and read from, over lists of code points.
--   Budget     Budget/Envelope is BudgetEnvelope of crates/fusion-types/src/lib.rs, one state step per
--              method; Budget/Envelope/Interleaved splits record_and_check into its atomic operations
--              and interleaves them. Budget/Manager is the quota manager: the trait of
--              crates/fusion-kernel/src/resource/mod.rs is the record ResourceManager, which
--              Budget/Manager/Stub (StubResourceManager of that file) and Budget/Manager/Default
--              (DefaultResourceManager of src/resource/mod.rs, behind Budget/Manager/Adapter, which is
--              src/resource/kernel_adapter.rs) fill. A method that holds its lock is one
--              step; release of the stub, which holds none, is a step relation in Budget/Manager/Race.
--   Leases     crates/fusion-scheduler/src/leases.rs. grant_lease, renew_lease_by and revoke_lease keep
--              their names and take the clock's reading as an argument; a history is a list of calls.
--   Breaker    src/providers/circuit_breaker.rs and src/providers/circuit_breaking_provider.rs. A call
--              through the wrapper is one step up to its await and one for each answer of the wrapped
--              provider, an argument; the calls in flight go on in any order.
--   Scheduler  Scheduler/Queue is WorkQueue of crates/fusion-scheduler/src/work_queue.rs with its method
--              names; Scheduler/Queue/Select holds what reads the queue and what re-arms loops. The calls
--              that the scheduler's loop makes are the step relation in Scheduler/Queue/Steps.
--              Scheduler/Run is run_inner of crates/fusion-scheduler/src/lib.rs: its local variables are
--              the record Run, Scheduler/Run/Handle is what it does with one result (charging it to the
--              envelope of Budget/Envelope, then settling the node by its kind), Scheduler/Run/Cascade
--              the failure of dependents, Scheduler/Run/Loop the rounds around it. Scheduler/Run/Moves is
--              the step relation that the proofs about whole runs go through. The results of a batch are
--              handled in the batch's order, as join_all returns them.
--   Compiler   the passes of crates/fusion-compiler/src/lib.rs: Compiler/Passes (constraints, model
--              resolution, budget), Compiler/ControlFlow with Compiler/ControlFlow/Cycles,
--              Compiler/DeadNodes and Compiler/Policy, whose rules are crates/fusion-compiler/src/policy.rs.
--              The budget pass takes any ResourceManager of Budget/Manager.
--   Kernel     Kernel/Capabilities is CapabilityGraph of crates/fusion-kernel/src/capability/graph.rs with
--              its validation and its topological sort; Kernel/Registry the registry of contracts in
--              crates/fusion-kernel/src/capability/registry.rs, whose permissions are those of
--              crates/fusion-plugin-api/src/lib.rs.
--   Workflow   crates/fusion-ir/src: Workflow/Structure, Workflow/Cycles and Workflow/Semantics are the
--              checks of validate.rs, Workflow/Builder is builder.rs and the gate from_json of
--              serialize.rs. Workflow/Cycles goes over the same graph as the cycle search of the
--              compiler, to which its proofs compare it.
--   Agent      crates/fusion-agent-state/src. Agent/Merge is merge_state of lib.rs, Agent/Schema its check
--              of a state against a schema, Agent/Store the trait StateStore as a record, with the
--              in-memory store that fills it, and Agent/Runner the log and the loop of runner.rs over
--              any store whose commits are merges (Agent/Store/Laws.Commits, which the in-memory store
--              fulfils). A step takes a World: the token's answers, the model and the tools.
--
-- Representation: a Uuid is a number, a hash set a list without repetitions, a hash map an association
-- list whose order stands for the order that the table happens to have. A JSON object lists its members
-- in the order of their keys. A text that the program takes
-- apart is a list of code points. A u64 or u32 operation writes out its wrap-around, its check or its
-- saturation.
--
-- Fuel: the search of dead-node elimination takes one id off its queue per round, and an id is queued
-- as an entry point or for one edge, so it is given the number of both; it is proved to end.
-- The search for a loop's body in Scheduler/Queue pushes each node at most once after the head and is
-- given one round more than there are edges; it is proved to find exactly the nodes reachable from
-- the head. The cascade of a failure pops each pushed edge once and is given one round more than
-- there are edges; it is proved to end with an empty stack. The scheduler's loop takes one unit for a
-- round; on graphs without loop nodes one more than there are nodes is proved to be enough, and with
-- loops a run may need more, which depends on the nodes' answers. The cycle search is given three rounds per edge: one
-- for following it and one for each of its ends; it is proved to answer. The topological sort
-- takes each node once and is given their number; it is proved to answer. The search of a
-- workflow's nodes is given a round for each node and each edge, and the one for back edges a round for
-- each node and three for each edge; both are proved to answer. The digits of a number are given the number itself.
--
-- Parameters: the JSON values of node outputs, node configurations and policy conditions, the Debug
-- format of a text and Uuid::new_v5, which belong to other packages; the executor, whose answer may
-- depend on the round; the cancellation token, as what is seen of it in each round; the resolver of
-- prices; the comparison of
-- the texts of a workflow's issues; and for the agent the model, the tools and the printing of a JSON value.
--
-- Not modelled: conversions from and to f64 and the serde visitors; lowering, the
-- strategy compiler and scores; the canonical text of a workflow and the planner; the agent's store on SQLite;
-- the guard of reservations and the meter of streams; the host's own policies; sessions and caches;
-- release gates; and what is input and output: the server, the providers' clients,
-- plugins, tools and telemetry.
pub mod Prelude
pub mod Json
pub mod Money
pub mod Budget
pub mod Leases
pub mod Breaker
pub mod Scheduler
pub mod Compiler
pub mod Kernel
pub mod Workflow
pub mod Agent
mod Tests
