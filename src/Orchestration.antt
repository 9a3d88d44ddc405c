-- ===== src/Orchestration.antt =====
-- src/orchestration/: the decisions of the session orchestrator that are functions of their inputs.
-- An id is the list of its bytes.
pub mod SessionMachine
pub mod SendPlan
pub mod AckStore
pub mod ReorderStats
pub mod PqPrekeyPlan
