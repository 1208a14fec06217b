-- ===== src/Automation.antt =====
-- apps/api/app/domains/automation: workflow runs, their checkpoints and tool calls, and the approvals
-- that a run waits for.
pub mod Models
pub mod Service
pub mod Deciding
mod Memory
mod Examples
