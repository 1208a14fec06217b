-- ===== src/DurableState/Repository.antt =====
-- durable_state/repository.py: rows from commands, and the queries, over a session.
use offer_master.Prelude.{none, Option, String, List}
use offer_master.DurableState.Schemas.{
  AgentTaskStateCreate, AgentStepStateCreate, AgentMemorySnapshotCreate, AgentArtifactIndexCreate,
}
use offer_master.DurableState.Models.{
  AgentTaskState, AgentStepState, AgentMemorySnapshot, AgentArtifactIndex,
}
use offer_master.DurableState.Session.{Session}
use offer_master.Prelude.Effects.{M, pure, modify, attempt, gets, ◌>>◌}

abbrev pub task_row : AgentTaskStateCreate → AgentTaskState
task_row c = record {
  id = c.task_id;
  root_workflow_run_id = c.root_workflow_run_id;
  conversation_session_id = c.conversation_session_id;
  task_type = c.task_type;
  capability = c.capability;
  status = c.status;
  current_step_id = c.current_step_id;
  owner_executor = c.owner_executor;
  user_goal = c.user_goal;
  input_payload = c.input_payload;
  output_payload = c.output_payload;
  completed_at = none;
}

abbrev pub step_row : AgentStepStateCreate → AgentStepState
step_row c = record {
  id = c.step_id;
  task_id = c.task_id;
  parent_step_id = c.parent_step_id;
  sequence_index = c.sequence_index;
  step_type = c.step_type;
  status = c.status;
  executor_type = c.executor_type;
  executor_name = c.executor_name;
  capability = c.capability;
  input_payload = c.input_payload;
  output_payload = c.output_payload;
  tool_call_log_id = c.tool_call_log_id;
  external_task_id = c.external_task_id;
  approval_request_id = c.approval_request_id;
  retry_count = c.retry_count;
  started_at = none;
  completed_at = none;
}

abbrev pub snapshot_row : AgentMemorySnapshotCreate → AgentMemorySnapshot
snapshot_row c = record {
  id = c.snapshot_id;
  task_id = c.task_id;
  step_id = c.step_id;
  memory_id = c.memory_id;
  source_type = c.source_type;
  usage_reason = c.usage_reason;
  visibility_scope = c.visibility_scope;
  passed_to_executor = c.passed_to_executor;
  memory_payload = c.memory_payload;
}

abbrev pub artifact_row : AgentArtifactIndexCreate → AgentArtifactIndex
artifact_row c = record {
  id = c.artifact_id;
  task_id = c.task_id;
  step_id = c.step_id;
  sequence_index = c.sequence_index;
  source_kind = c.source_kind;
  artifact_type = c.artifact_type;
  title = c.title;
  uri = c.uri;
  mime_type = c.mime_type;
  artifact_metadata = c.artifact_metadata;
}

module _ (D : Session) where
  abbrev pub create_task : AgentTaskStateCreate → M D.State AgentTaskState
  create_task c = do attempt (λ s. D.insert_task s (task_row c)); pure (task_row c)

  abbrev pub find_task : String → M D.State (Option AgentTaskState)
  find_task task_id = gets (λ s. D.get_task s task_id)

  abbrev pub update_task : AgentTaskState → M D.State AgentTaskState
  update_task task = do modify (λ s. D.update_task s task); pure task

  abbrev pub add_step : AgentStepStateCreate → M D.State AgentStepState
  add_step c = do attempt (λ s. D.insert_step s (step_row c)); pure (step_row c)

  abbrev pub find_step : String → M D.State (Option AgentStepState)
  find_step step_id = gets (λ s. D.get_step s step_id)

  abbrev pub list_steps : String → M D.State (List AgentStepState)
  list_steps task_id = gets (λ s. D.steps_of s task_id)

  abbrev pub update_step : AgentStepState → M D.State AgentStepState
  update_step step = do modify (λ s. D.update_step s step); pure step

  abbrev pub add_memory_snapshot : AgentMemorySnapshotCreate → M D.State AgentMemorySnapshot
  add_memory_snapshot c = do
    attempt (λ s. D.insert_snapshot s (snapshot_row c))
    pure (snapshot_row c)

  abbrev pub list_memory_snapshots : String → M D.State (List AgentMemorySnapshot)
  list_memory_snapshots task_id = gets (λ s. D.snapshots_of s task_id)

  abbrev pub add_artifact : AgentArtifactIndexCreate → M D.State AgentArtifactIndex
  add_artifact c = do attempt (λ s. D.insert_artifact s (artifact_row c)); pure (artifact_row c)

  abbrev pub list_artifacts : String → M D.State (List AgentArtifactIndex)
  list_artifacts task_id = gets (λ s. D.artifacts_of s task_id)
