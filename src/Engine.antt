-- ===== src/Engine.antt =====
-- services/orchestrator/app/runtime/orchestrator.py: the execution loop, one child module for each
-- part of `ExecutionEngine` and for what is proved of it.
pub mod Ready
pub mod Trace
pub mod Services
pub mod Models
pub mod RunStep
pub mod Governance
pub mod Cancel
pub mod Run
pub mod Approval
pub mod Quiet
pub mod Work
pub mod Still
pub mod Steers
pub mod Lifecycle
pub mod Motion
pub mod Calm
pub mod Outcomes
pub mod Ending
pub mod Leads
pub mod Safety
pub mod Progress
pub mod Termination
pub mod Totality
pub mod Keyed
pub mod Refusals
pub mod Choice
pub mod Approvals
pub mod CostTools
