-- ===== src/ExternalTasks/Dispatcher.antt =====
-- external_tasks/dispatcher.py: a task is handed to an executor, and what comes back is recorded. The
-- executor is the outcome of its call; `model_validate` is pydantic's reading of a task's payload,
-- where `none` is a ValidationError.
use offer_master.Prelude.{String, ◌<>◌, Bool, false, Option, none, some, []}
use offer_master.Prelude.Json.{Json, obj, Fields, get}
use offer_master.Prelude.Effects.{M, validation_error, pure, some_or, ◌>>=◌}
use offer_master.ExternalTasks.Schemas.{
  ApplyEntryDiscoveryStatus, discovery_value, FindApplyEntryTaskEnvelope, ApplyEntryDiscoveryResult,
  is_found_opened, checked_result, status_value,
}
use offer_master.ExternalTasks.Payloads.{reason_text}
use offer_master.ExternalTasks.Session.{TaskSession}
use offer_master.ExternalTasks.Repository.{ExternalAgentTaskRecord}
use offer_master.ExternalTasks.Service.{mark_running, record_result}

pub record ExternalTaskDispatchResult : Type 0 where
  pub ok : Bool
  pub task_id : String
  pub executor_name : String
  pub status : String
  pub result_status : Option String
  pub apply_url : Option String
  pub final_browser_url : Option String
  pub blocked_reason : Option String
  pub error : Option String
  pub next_action : Option String
  pub result_envelope : Option Fields

-- A result, or an exception with the name of its class and its text.
pub data Outcome : Type 0 where
  returned : ApplyEntryDiscoveryResult → Outcome
  raised : String → String → Outcome

abbrev pub failure :
    FindApplyEntryTaskEnvelope → String → String → String → ApplyEntryDiscoveryResult
failure envelope executor_name class_name text = record {
  schema_version = "offer_master.apply_entry_result.v1";
  task_id = envelope.task_id;
  status = ApplyEntryDiscoveryStatus.failed;
  confidence = (false, "0.0");
  company_name = some envelope.job.company_name;
  job_title = some envelope.job.title;
  source_url = envelope.job.source_url;
  apply_url = none;
  final_browser_url = none;
  platform = none;
  button_text = none;
  requires_login = false;
  blocked_reason = none;
  candidate_urls = [];
  evidence_artifacts = [];
  notes =
      some (
        "External executor " <> (executor_name <> (" failed: " <> (class_name <> (": " <> text)))));
  next_action = some "retry_external_agent_dispatch";
}

unfoldable pub failed_result :
    FindApplyEntryTaskEnvelope → String → String → String → Option ApplyEntryDiscoveryResult
unfolding checked_result
failed_result envelope executor_name class_name text =
    checked_result (failure envelope executor_name class_name text)

abbrev object_of : Json → Option Fields
object_of (obj fs) = some fs
object_of _ = none

unfoldable pub result_envelope_from_saved : Option Fields → Option Fields
unfolding get
result_envelope_from_saved none = none
result_envelope_from_saved (some output_payload) = object_of (get "result_envelope" output_payload)

abbrev pub failure_reply :
    String
    → String
    → ApplyEntryDiscoveryResult
    → ExternalAgentTaskRecord
    → ExternalTaskDispatchResult
failure_reply executor_name task_id result saved = record {
  ok = false;
  task_id = task_id;
  executor_name = executor_name;
  status = status_value saved.status;
  result_status = some (discovery_value result.status);
  apply_url = none;
  final_browser_url = none;
  blocked_reason = none;
  error = result.notes;
  next_action = result.next_action;
  result_envelope = result_envelope_from_saved saved.output_payload;
}

abbrev pub reply :
    String
    → String
    → ApplyEntryDiscoveryResult
    → ExternalAgentTaskRecord
    → ExternalTaskDispatchResult
reply executor_name task_id result saved = record {
  ok = is_found_opened result.status;
  task_id = task_id;
  executor_name = executor_name;
  status = status_value saved.status;
  result_status = some (discovery_value result.status);
  apply_url = result.apply_url;
  final_browser_url = result.final_browser_url;
  blocked_reason = reason_text result.blocked_reason;
  error = none;
  next_action = result.next_action;
  result_envelope = result_envelope_from_saved saved.output_payload;
}

module _ (repr : Json → String) (D : TaskSession) (executor_name : String) where
  unfoldable pub conclude :
      String
      → String
      → String
      → FindApplyEntryTaskEnvelope
      → Outcome
      → M D.State ExternalTaskDispatchResult
  unfolding failed_result record_result
  conclude now recorded_at task_id envelope (raised class_name text) = do
    result ← some_or validation_error (failed_result envelope executor_name class_name text)
    saved ← record_result repr D now recorded_at task_id result (some executor_name)
    pure (failure_reply executor_name task_id result saved)
  conclude now recorded_at task_id envelope (returned result) = do
    saved ← record_result repr D now recorded_at task_id result (some executor_name)
    pure (reply executor_name task_id result saved)

module _ (repr : Json → String) (model_validate : Fields → Option FindApplyEntryTaskEnvelope)
    (D : TaskSession) (executor_name : String)
    (execute_find_apply_entry : FindApplyEntryTaskEnvelope → Outcome) where
  -- The test on the type of the task never fails, since there is one type.
  unfoldable pub dispatch : String → String → String → M D.State ExternalTaskDispatchResult
  unfolding mark_running
  dispatch now recorded_at task_id = do
    task ← mark_running repr D now task_id
    envelope ← some_or validation_error (model_validate task.input_payload)
    conclude repr D executor_name now recorded_at task_id envelope
        (execute_find_apply_entry envelope)
