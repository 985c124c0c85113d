-- ===== src/Agent.antt =====
-- The agent's state: crates/fusion-agent-state/src. `Merge` is the merge of a patch into a state,
-- `Schema` the check of a state, `Store` the store that commits patches.
pub mod Merge
pub mod Schema
pub mod Store
pub mod Runner
