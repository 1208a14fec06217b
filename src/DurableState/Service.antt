-- ===== src/DurableState/Service.antt =====
-- durable_state/service.py: the operations of DurableAgentStateService. A row that a call has loaded is
-- one object for the whole call, so a row is read again where the source goes on with an object
-- that another method of the same call has changed. `now` is what the clock gives.
use offer_master.Prelude.{String, Option, none, some, List, or_else}
use offer_master.Prelude.Json.{Fields}
use offer_master.Prelude.Int.{ℤ}
use offer_master.DurableState.Schemas.{
  AgentTaskStatus, AgentStepStatus, AgentTaskStateCreate, AgentStepStateCreate,
  AgentMemorySnapshotCreate, AgentArtifactIndexCreate, task_command_ok, step_command_ok,
  snapshot_command_ok, artifact_command_ok,
}
use offer_master.DurableState.Models.{
  Time, AgentTaskState, AgentStepState, AgentMemorySnapshot, AgentArtifactIndex,
}
use offer_master.DurableState.Session.{Session}
use offer_master.Prelude.Effects.{
  M, task_not_found, step_not_found, validation_error, pure, require, some_or, ◌>>=◌, ◌>>◌,
}
use offer_master.DurableState.Repository
use offer_master.DurableState.ResumePolicy.{
  DurableResumeAction, DurableResumeDecision, DurableResumeResult, decide,
}
pub use offer_master.DurableState.ResumeRecords.{
  max_index, next_sequence_index, resume_result_from_decision, resume_command, resumed_result,
  waiting_result,
}

-- A new value for an optional argument that was given, else the old one.
abbrev pub keep_unless {ℓ} : {A : Type ℓ} → Option A → A → A
keep_unless new old = or_else new old

abbrev pub keep_unless_some {ℓ} : {A : Type ℓ} → Option A → Option A → Option A
keep_unless_some none old = old
keep_unless_some (some a) old = some a

module _ (D : Session) where
  -- The command is built by the method: `status` is CREATED and no step is current.
  unfoldable pub create_task : AgentTaskStateCreate → M D.State AgentTaskState
  create_task given = do
    let command : AgentTaskStateCreate = record given {
      status = AgentTaskStatus.created;
      current_step_id = none;
    }
    require (task_command_ok command) validation_error
    Repository.create_task D command

  unfoldable pub get_task : String → M D.State AgentTaskState
  get_task task_id = do task ← Repository.find_task D task_id; some_or (task_not_found task_id) task

  unfoldable pub get_step : String → M D.State AgentStepState
  get_step step_id = do step ← Repository.find_step D step_id; some_or (step_not_found step_id) step

  unfoldable pub add_step : AgentStepStateCreate → M D.State AgentStepState
  unfolding get_task
  add_step command = do
    require (step_command_ok command) validation_error
    step ← Repository.add_step D command
    task ← get_task command.task_id
    Repository.update_task D (record task { current_step_id = some step.id })
    pure step

  abbrev pub list_steps : String → M D.State (List AgentStepState)
  list_steps = Repository.list_steps D

  unfoldable pub set_task_status :
      AgentStepState → AgentTaskStatus → Option Time → M D.State AgentTaskState
  unfolding get_task
  set_task_status step status completed = do
    task ← get_task step.task_id
    Repository.update_task D (record task {
      status = status;
      current_step_id = some step.id;
      completed_at = keep_unless_some completed task.completed_at;
    })

  unfoldable pub mark_step_running : Time → String → M D.State AgentStepState
  unfolding get_step set_task_status
  mark_step_running now step_id = do
    step ← get_step step_id
    let running : AgentStepState = record step {
      status = AgentStepStatus.running;
      started_at = some (or_else step.started_at now);
    }
    Repository.update_step D running
    set_task_status running AgentTaskStatus.running none
    pure running

  unfoldable pub mark_step_waiting_user :
      String → Option String → Option String → Option Fields → M D.State AgentStepState
  unfolding get_step set_task_status
  mark_step_waiting_user step_id approval_request_id tool_call_log_id output_payload = do
    step ← get_step step_id
    let waiting : AgentStepState = record step {
      status = AgentStepStatus.waiting_user;
      approval_request_id = approval_request_id;
      tool_call_log_id = keep_unless_some tool_call_log_id step.tool_call_log_id;
      output_payload = keep_unless output_payload step.output_payload;
    }
    Repository.update_step D waiting
    set_task_status waiting AgentTaskStatus.waiting_user none
    pure waiting

  unfoldable pub mark_step_succeeded :
      Time → String → Option String → Option String → Option Fields → M D.State AgentStepState
  unfolding get_step set_task_status
  mark_step_succeeded now step_id tool_call_log_id external_task_id output_payload = do
    step ← get_step step_id
    let done : AgentStepState = record step {
      status = AgentStepStatus.succeeded;
      completed_at = some now;
      tool_call_log_id = tool_call_log_id;
      external_task_id = external_task_id;
      output_payload = keep_unless output_payload step.output_payload;
    }
    Repository.update_step D done
    set_task_status done AgentTaskStatus.running none
    pure done

  -- `now` is the reading for the step, and `later` the one that `_set_task_status` makes.
  unfoldable pub mark_step_failed : Time → Time → String → Option Fields → M D.State AgentStepState
  unfolding get_step set_task_status
  mark_step_failed now later step_id output_payload = do
    step ← get_step step_id
    let failed : AgentStepState = record step {
      status = AgentStepStatus.failed;
      completed_at = some now;
      output_payload = keep_unless output_payload step.output_payload;
    }
    Repository.update_step D failed
    set_task_status failed AgentTaskStatus.failed (some later)
    pure failed

  -- The checks that a recorded row names a task, and a step if it names one.
  abbrev pub check_owner : String → Option String → M D.State (Unit {0})
  check_owner task_id none = do get_task task_id; pure tt
  check_owner task_id (some step_id) = do get_task task_id; get_step step_id; pure tt

  unfoldable pub record_memory_snapshot : AgentMemorySnapshotCreate → M D.State AgentMemorySnapshot
  unfolding get_task get_step
  record_memory_snapshot command = do
    check_owner command.task_id command.step_id
    require (snapshot_command_ok command) validation_error
    Repository.add_memory_snapshot D command

  abbrev pub list_memory_snapshots : String → M D.State (List AgentMemorySnapshot)
  list_memory_snapshots = Repository.list_memory_snapshots D

  unfoldable pub record_artifact : AgentArtifactIndexCreate → M D.State AgentArtifactIndex
  unfolding get_task get_step
  record_artifact command = do
    check_owner command.task_id command.step_id
    require (artifact_command_ok command) validation_error
    Repository.add_artifact D command

  abbrev pub list_artifacts : String → M D.State (List AgentArtifactIndex)
  list_artifacts = Repository.list_artifacts D

  -- The branch of `resume_task` for RETRY_FAILED_STEP and REISSUE_EXECUTOR_TASK.
  unfoldable pub resume_from :
      String
      → List AgentStepState
      → DurableResumeDecision
      → Option String
      → M D.State DurableResumeResult
  unfolding get_step add_step get_task
  resume_from task_id steps d none = pure (resume_result_from_decision d)
  resume_from task_id steps d (some step_id) = do
    source_step ← get_step step_id
    resume_step ← add_step (resume_command task_id (next_sequence_index steps) source_step)
    task ← get_task task_id
    Repository.update_task D (record task {
      status = AgentTaskStatus.running;
      current_step_id = some resume_step.id;
      completed_at = none;
    })
    pure (resumed_result d task_id source_step resume_step)

  -- What `resume_task` does by the action that was decided.
  abbrev pub act :
      DurableResumeAction
      → String
      → AgentTaskState
      → List AgentStepState
      → DurableResumeDecision
      → M D.State DurableResumeResult
  act DurableResumeAction.retry_failed_step task_id task steps d =
      resume_from task_id steps d d.step_id
  act DurableResumeAction.reissue_executor_task task_id task steps d =
      resume_from task_id steps d d.step_id
  act DurableResumeAction.wait_user_action task_id task steps d = do
    Repository.update_task D
        (record task { status = AgentTaskStatus.waiting_user; current_step_id = d.step_id })
    pure (waiting_result d task_id)
  act DurableResumeAction.replan_remaining_steps task_id task steps d = do
    Repository.update_task D
        (record task { status = AgentTaskStatus.planning; current_step_id = d.step_id })
    pure (resume_result_from_decision d)
  act _ task_id task steps d = pure (resume_result_from_decision d)

  unfoldable pub resume_task : String → ℤ → M D.State DurableResumeResult
  unfolding get_task
  resume_task task_id max_retries = do
    task ← get_task task_id
    steps ← list_steps task_id
    let d : DurableResumeDecision = decide max_retries task steps
    act d.action task_id task steps d
