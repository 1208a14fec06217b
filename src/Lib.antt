-- ===== src/Lib.antt =====
-- The agent runtime of offer-Master, an assistant for job applications: the parts of apps/api/app
-- that keep an agent's work in order. An agent run is a loop of model decisions and tool calls;
-- its tasks and steps are kept in a database, so that a later request can resume them; each tool
-- call is checked against the policy of the loaded skills; and the transcript that the model
-- reads is repaired and, when it grows too long, cut.
--
-- The files, with paths from the repository's root:
--   Prelude.antt: what the other files share: Boolean tests, lists over the native numbers,
--     Python's texts, JSON values and json.dumps, integers, sorted, tables in memory, and the monad
--     Effects of state and errors in which services are written, where an error keeps the state
--     that the code had reached.
--   DurableState.antt: apps/api/app/agent_runtime/durable_state. Schemas and Models are the
--     commands and the rows; Session is the database session that the repository uses, as a record
--     of operations, and IsLawful states what the code relies on of it (SQLAlchemy is not
--     modelled); Repository, Service and Artifacts are written in the monad Effects; ResumePolicy
--     is DurableResumePolicy.decide, and ResumeRecords what resume_task writes. Each function has
--     the name of its method, except that Service.act and Service.resume_from are the branches of
--     resume_task, find_task and find_step are the repository's get_task and get_step, and
--     check_owner is the test on task and step at the start of three methods. Marking, Policy,
--     Resume, Again and Failures hold the proofs, and Memory a session in memory that fills the
--     laws. The clock is an argument of a call for each reading, and the new identifiers (uuid4)
--     are given.
--   ExternalTasks.antt: apps/api/app/agent_runtime/external_tasks, with the envelope of a task's
--     result from apps/api/app/agent_runtime/routing/result_envelope.py in ResultEnvelope. Schemas
--     and Payloads are schemas.py, Session the rows and the database session as a record of
--     operations with laws, Repository repository.py, Service service.py and Dispatcher
--     dispatcher.py, where an executor is the outcome of its call. Lifecycle is the abstract ledger
--     of tasks; Writes, Recording, Refinement, Transitions, Simulation, Agreement, Dispatching,
--     Envelopes and EnvelopeArtifacts hold the proofs, and Memory a session in memory that fills
--     the laws.
--   LoopAgent.antt: apps/api/app/agent_runtime/loop_agent. Controller is LoopAgentController.run:
--     turns is its for loop, by recursion on the rounds that are left, so its fuel is max_steps
--     itself and run_loop needs no other bound; turn is one round; act and execute_turn are its
--     branches, and Outcomes the ways in which they end. The callbacks decide_next_step and
--     execute_step stand over an environment of any type and return a value. DeadLoopDetector is
--     the guard against repeated calls. Steady, Closing and Runs hold the proofs. OuterSession is
--     outer_session.py: a session's state over several runs, where the inner loop is a callback;
--     Reachable is the relation of the interleaved turns, Handling the proofs on one message and
--     its reply.
--   ToolPermissions.antt: apps/api/app/agent_runtime/tool_permissions.py. Names, Decisions and
--     Snapshots hold the proofs. The text of a list or of a dict (repr) is given.
--   SkillDependencyGate.antt: apps/api/app/agent_runtime/memory/skill_dependency_gate.py, over
--     the names of the registered tools. Availability holds the proofs.
--   ResourceEffects.antt: apps/api/app/agent_runtime/context/resource_effects.py, the recording
--     of an effect and the search for the latest one. A context whose lists are no lists raises
--     TypeError, which is the result none. Latest holds the proofs.
--   Transcript.antt: apps/api/app/agent_runtime/memory. TokenBudget is token_budget.py,
--     Compaction compaction.py, whose two loops are scan and widen by recursion on the index, and
--     Hygiene transcript_hygiene.py. CallPairs, CutPoint, Estimates, Pairing and Visible hold the
--     proofs.
--   McpGateway.antt: apps/api/app/mcp_gateway. SqlText is _strip_sql_comments_and_literals, whose
--     fuel is the length of the text; DbxReadonly is the rest of dbx_readonly.py and
--     tool_policy.py. The regular expressions are alternatives of words and blanks, over any notion
--     of equal letters and of word characters. Pieces, Rounds, Allowlist and Verdict hold the
--     proofs.
--   PendingOperations.antt: apps/api/app/agent_runtime/pending_operations.py. Keeping holds the
--     proofs.
--   Automation.antt: apps/api/app/domains/automation. Models is models.py, schemas.py and
--     events.py, with the database session as a record of operations with laws, and Service is
--     service.py over repository.py. Deciding holds the proofs, and Memory a session in memory that
--     fills the laws.
--
-- Numbers are native naturals, or integers over them where the code may have a negative one.
--
-- Not modelled: the effects that are rendered from templates; the prompts and the summary texts
-- of compaction.py; the time stamps of events; the remaining parts of the agent runtime (routing,
-- planning, goals, reflection, the storage of skills, the executors of external tasks, the runner
-- around the controller), which are prompts, model calls and files; the domains but automation,
-- the clients of the MCP gateway, the HTTP API, the worker and the web client; and the
-- third-party libraries under all of these.
pub mod Prelude
pub mod DurableState
pub mod ExternalTasks
pub mod LoopAgent
pub mod ToolPermissions
pub mod SkillDependencyGate
pub mod ResourceEffects
pub mod Transcript
pub mod McpGateway
pub mod PendingOperations
pub mod Automation
