-- ===== src/Scheduler.antt =====
-- The DAG scheduler: crates/fusion-scheduler/src. `Graph` has the graphs that it runs, `Queue` the
-- work queue that decides which nodes may run, `Run` the loop that dispatches them.
pub mod Graph
pub mod Queue
pub mod Run
