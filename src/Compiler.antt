-- ===== src/Compiler.antt =====
-- The compiler's passes: crates/fusion-compiler.
pub mod Ir
pub mod Passes
pub mod DeadNodes
pub mod Policy
pub mod ControlFlow
