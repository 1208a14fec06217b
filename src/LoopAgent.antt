-- ===== src/LoopAgent.antt =====
-- apps/api/app/agent_runtime/loop_agent: the control loop of an agent run.
pub mod Events
pub mod Schemas
pub mod DeadLoopDetector
pub mod Outcomes
pub mod Controller
pub mod Steady
pub mod Closing
pub mod Runs
mod Examples
pub mod OuterSession
