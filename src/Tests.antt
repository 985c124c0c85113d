-- ===== src/Tests.antt =====
-- The theorems at concrete inputs, by component.
mod Money
mod Budget
mod Leases
mod Breaker
mod Run
mod Scheduler
mod Compiler
mod Kernel
mod Agent
mod Workflow
