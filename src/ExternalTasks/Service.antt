-- ===== src/ExternalTasks/Service.antt =====
-- external_tasks/service.py: the operations of ExternalAgentTaskService. `payload_hash` is the SHA-256
-- of the JSON text of a payload, `now` what the clock gives for a row and `recorded_at` for an event.
use offer_master.Prelude.{String, ◌<>◌, Option, none, some, [], ◌∷◌, str_eq}
use offer_master.Prelude.Json.{Json, str, obj, Fields, fields, insert, opt_str}
use offer_master.Prelude.Effects.{M, value_error, pure, require, some_or, ◌>>=◌, ◌>>◌}
use offer_master.ExternalTasks.Schemas.{
  type_value, ExternalAgentTaskStatus, status_value, ApplyEntryDiscoveryStatus, discovery_value,
  FindApplyEntryTaskEnvelope, ApplyEntryDiscoveryResult,
}
use offer_master.ExternalTasks.Payloads.{envelope_dump, result_dump, reason_text}
use offer_master.ExternalTasks.ResultEnvelope.{to_dict, build_apply_entry_task_result_envelope}
use offer_master.ExternalTasks.Session.{TaskSession}
use offer_master.ExternalTasks.Repository.{
  ExternalAgentTaskRecord, create, find_task, save, add_event, replace_artifacts,
}

abbrev pub status_for_result : ApplyEntryDiscoveryStatus → ExternalAgentTaskStatus
status_for_result ApplyEntryDiscoveryStatus.found_opened = ExternalAgentTaskStatus.succeeded
status_for_result ApplyEntryDiscoveryStatus.blocked = ExternalAgentTaskStatus.waiting_user
status_for_result ApplyEntryDiscoveryStatus.failed = ExternalAgentTaskStatus.failed

abbrev pub event_for_status : ExternalAgentTaskStatus → String
event_for_status ExternalAgentTaskStatus.succeeded = "task_succeeded"
event_for_status ExternalAgentTaskStatus.waiting_user = "task_waiting_user"
event_for_status ExternalAgentTaskStatus.failed = "task_failed"
event_for_status _ = "task_updated"

abbrev pub not_found : String → String
not_found task_id = "External agent task not found: " <> task_id

abbrev pub mismatch : String → String → String
mismatch given task_id =
    "External task result id does not match task: " <> (given <> (" != " <> task_id))

module _ (repr : Json → String) (payload_hash : Fields → String) (D : TaskSession) where
  unfoldable pub create_find_apply_entry_task :
      String → FindApplyEntryTaskEnvelope → M D.State ExternalAgentTaskRecord
  unfolding envelope_dump create add_event
  create_find_apply_entry_task now envelope = do
    let input_payload = envelope_dump envelope
    created ← create repr D now (record {
      task_id = envelope.task_id;
      task_type = envelope.task_type;
      status = ExternalAgentTaskStatus.queued;
      input_payload = input_payload;
      context_pack_hash = payload_hash input_payload;
      output_payload = none;
      blocked_reason = none;
    })
    add_event D created.task_id "task_queued" (
        fields (
          ("task_type", str (type_value created.task_type))
          ∷ ("status", str (status_value created.status))
          ∷ []))
    pure created

module _ (D : TaskSession) where
  unfoldable pub require_task : String → M D.State ExternalAgentTaskRecord
  unfolding find_task
  require_task task_id = do
    task ← find_task D task_id
    some_or (value_error (not_found task_id)) task

-- The payload of a result, with its envelope.
unfoldable pub output_payload :
    (Json → String) → ExternalAgentTaskRecord → ApplyEntryDiscoveryResult → Option String → Fields
unfolding result_dump insert to_dict build_apply_entry_task_result_envelope
output_payload repr task result executor_name =
    insert "result_envelope"
      (obj (
        to_dict (
          build_apply_entry_task_result_envelope repr (result_dump result) task.input_payload
            executor_name "medium")))
      (result_dump result)

module _ (repr : Json → String) (D : TaskSession) where
  unfoldable pub mark_running : String → String → M D.State ExternalAgentTaskRecord
  unfolding require_task save add_event
  mark_running now task_id = do
    task ← require_task D task_id
    saved ← save repr D now (record task { status = ExternalAgentTaskStatus.running })
    add_event D saved.task_id "task_running"
        (fields (("status", str (status_value saved.status)) ∷ []))
    pure saved

  unfoldable pub record_result :
      String
      → String
      → String
      → ApplyEntryDiscoveryResult
      → Option String
      → M D.State ExternalAgentTaskRecord
  unfolding require_task save add_event replace_artifacts output_payload result_dump to_dict
      build_apply_entry_task_result_envelope
  record_result now recorded_at task_id result executor_name = do
    task ← require_task D task_id
    require (str_eq result.task_id task_id) (value_error (mismatch result.task_id task_id))
    let status = status_for_result result.status
    let output = output_payload repr task result executor_name
    saved ← save repr D now (record task {
      status = status;
      output_payload = some output;
      blocked_reason = reason_text result.blocked_reason;
    })
    replace_artifacts D saved.task_id result.evidence_artifacts
    add_event D saved.task_id (event_for_status saved.status) (
        fields (
          ("status", str (status_value saved.status))
          ∷ ("result_status", str (discovery_value result.status))
          ∷ ("blocked_reason", opt_str saved.blocked_reason)
          ∷ ("recorded_at", str recorded_at)
          ∷ (
            "result_envelope",
            obj (
                to_dict (
                  build_apply_entry_task_result_envelope repr (result_dump result)
                    task.input_payload executor_name "medium")),
          )
          ∷ []))
    pure saved
