-- ===== src/ExternalTasks.antt =====
-- apps/api/app/agent_runtime/external_tasks: tasks that an external agent carries out.
pub mod Schemas
pub mod Payloads
pub mod ResultEnvelope
pub mod Session
pub mod Repository
pub mod Service
pub mod Dispatcher
pub mod Writes
pub mod Recording
pub mod Lifecycle
pub mod Refinement
pub mod Transitions
pub mod Simulation
pub mod Agreement
pub mod Dispatching
pub mod Envelopes
pub mod EnvelopeArtifacts
mod Memory
mod Examples
