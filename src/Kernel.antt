-- ===== src/Kernel.antt =====
-- The kernel: crates/fusion-kernel/src. `Capabilities` is the graph of capabilities,
-- `Registry` the registry of contracts.
pub mod Capabilities
pub mod Registry
