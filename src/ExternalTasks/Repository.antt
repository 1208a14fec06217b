-- ===== src/ExternalTasks/Repository.antt =====
-- external_tasks/repository.py: rows from records, and back; find_task is its get. `now` is what the clock gives, should
-- the call read it.
use offer_master.Prelude.{
  String, ◌<>◌, Bool, true, false, Option, none, some, List, map, if◌then◌else◌,
}
use offer_master.Prelude.Json.{Json, Fields, get, truthy, str_value}
use offer_master.Prelude.Effects.{M, value_error, pure, modify, attempt, gets, some_or, ◌>>=◌, ◌>>◌}
use offer_master.ExternalTasks.Schemas.{
  ExternalTaskType, type_value, type_from_value, ExternalAgentTaskStatus, status_value,
  status_from_value, ExternalAgentArtifactRef,
}
use offer_master.ExternalTasks.Session.{ExternalAgentTask, ExternalAgentArtifact, TaskSession}

-- external_tasks/service.py: the record that the repository takes and gives.
pub record ExternalAgentTaskRecord : Type 0 where
  pub task_id : String
  pub task_type : ExternalTaskType
  pub status : ExternalAgentTaskStatus
  pub input_payload : Fields
  pub context_pack_hash : String
  pub output_payload : Option Fields
  pub blocked_reason : Option String

abbrev pub is_final : ExternalAgentTaskStatus → Bool
is_final ExternalAgentTaskStatus.succeeded = true
is_final ExternalAgentTaskStatus.failed = true
is_final ExternalAgentTaskStatus.canceled = true
is_final _ = false

abbrev pub completed_at : String → ExternalAgentTaskStatus → Option String
completed_at now status = if is_final status then some now else none

-- `a or b` of two times, of which no one is false.
abbrev pub first_of {ℓ} : {A : Type ℓ} → Option A → Option A → Option A
first_of none b = b
first_of (some a) b = some a

-- An optional metadata dict: `artifact.get("metadata") or {}`.
abbrev pub artifact_row : String → ExternalAgentArtifactRef → ExternalAgentArtifact
artifact_row task_id a = record {
  task_id = task_id;
  artifact_type = a.artifact_type;
  path_or_uri = a.path_or_uri;
  mime_type = a.mime_type;
  artifact_metadata = a.metadata;
}

abbrev pub invalid : String → String → String
invalid text name = "'" <> (text <> ("' is not a valid " <> name))

module _ (repr : Json → String) where
  unfoldable pub trace_id : Fields → Option String
  unfolding get
  trace_id input_payload =
      let value = get "trace_id" input_payload in
      if truthy value then some (str_value repr value) else none

  -- The row that a record becomes.
  abbrev pub row : Option String → ExternalAgentTaskRecord → ExternalAgentTask
  row completed task = record {
    id = task.task_id;
    task_type = type_value task.task_type;
    status = status_value task.status;
    trace_id = trace_id task.input_payload;
    context_pack_hash = task.context_pack_hash;
    input_payload = task.input_payload;
    output_payload = task.output_payload;
    blocked_reason = task.blocked_reason;
    completed_at = completed;
  }

module _ (repr : Json → String) (D : TaskSession) where
  unfoldable pub create : String → ExternalAgentTaskRecord → M D.State ExternalAgentTaskRecord
  create now task = do
    attempt (λ s. D.insert_task s (row repr (completed_at now task.status) task))
    pure task

  unfoldable pub save_over :
      String
      → ExternalAgentTaskRecord
      → Option ExternalAgentTask
      → M D.State ExternalAgentTaskRecord
  unfolding create
  save_over now task none = create now task
  save_over now task (some existing) = do
    modify (λ s.
        D.update_task s
          (row repr (first_of existing.completed_at (completed_at now task.status)) task))
    pure task

  unfoldable pub save : String → ExternalAgentTaskRecord → M D.State ExternalAgentTaskRecord
  save now task = do existing ← gets (λ s. D.get_task s task.task_id); save_over now task existing

module _ (D : TaskSession) where
  unfoldable pub to_record : ExternalAgentTask → M D.State ExternalAgentTaskRecord
  unfolding type_from_value status_from_value
  to_record task = do
    task_type ←
        some_or (value_error (invalid task.task_type "ExternalTaskType"))
          (type_from_value task.task_type)
    status ←
        some_or (value_error (invalid task.status "ExternalAgentTaskStatus"))
          (status_from_value task.status)
    pure (record {
      task_id = task.id;
      task_type = task_type;
      status = status;
      input_payload = task.input_payload;
      context_pack_hash = task.context_pack_hash;
      output_payload = task.output_payload;
      blocked_reason = task.blocked_reason;
    })

  abbrev pub found : Option ExternalAgentTask → M D.State (Option ExternalAgentTaskRecord)
  found none = pure none
  found (some task) = do found_task ← to_record task; pure (some found_task)

  unfoldable pub find_task : String → M D.State (Option ExternalAgentTaskRecord)
  find_task task_id = do task ← gets (λ s. D.get_task s task_id); found task

  unfoldable pub add_event : String → String → Fields → M D.State (Unit {0})
  add_event task_id event_type payload = attempt (λ s.
      D.insert_event s (record { task_id = task_id; event_type = event_type; payload = payload }))

  unfoldable pub replace_artifacts : String → List ExternalAgentArtifactRef → M D.State (Unit {0})
  replace_artifacts task_id artifacts = do
    modify (λ s. D.delete_artifacts s task_id)
    attempt (λ s. D.insert_artifacts s (map (artifact_row task_id) artifacts))
