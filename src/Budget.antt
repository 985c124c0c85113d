-- ===== src/Budget.antt =====
-- Spending: the per-request envelope (crates/fusion-types/src/lib.rs) and the quota managers
-- (crates/fusion-kernel/src/resource/mod.rs and src/resource/mod.rs).
pub mod Envelope
pub mod Manager
