-- ===== src/DurableState.antt =====
-- apps/api/app/agent_runtime/durable_state: tasks and steps that survive a restart.
pub mod Schemas
pub mod Models
pub mod Session
pub mod Repository
pub mod ResumePolicy
pub mod ResumeRecords
pub mod Service
pub mod Marking
pub mod Policy
pub mod Resume
pub mod Again
pub mod Failures
pub mod Artifacts
mod Memory
mod Examples
