-- ===== src/ExternalTasks/Envelopes.antt =====
-- The status and the artifacts in the envelope of a result.
use offer_master.Prelude.{◌≡◌, refl, String, Option, str_eq}
use offer_master.Prelude.Json.{Json, Fields, get, str}
use offer_master.ExternalTasks.Schemas.{
  ApplyEntryDiscoveryStatus, ApplyEntryDiscoveryResult, status_value, discovery_value,
}
use offer_master.ExternalTasks.Payloads.{result_dump}
use offer_master.ExternalTasks.ResultEnvelope.{
  text_or, build_apply_entry_task_result_envelope, task_envelope_status,
}
use offer_master.ExternalTasks.Service.{status_for_result}

status_agrees :
    (repr : Json → String) (status : ApplyEntryDiscoveryStatus)
    → task_envelope_status (text_or repr "unknown" (str (discovery_value status)))
      ≡ status_value (status_for_result status)
unfolding str_eq
status_agrees repr ApplyEntryDiscoveryStatus.found_opened = refl
status_agrees repr ApplyEntryDiscoveryStatus.blocked = refl
status_agrees repr ApplyEntryDiscoveryStatus.failed = refl

-- The envelope that is built from the dump of a result has the status that the service gives the
-- task for the result.
pub build_apply_entry_task_result_envelope-status :
    (repr : Json → String) (result : ApplyEntryDiscoveryResult) (task_input_payload : Fields)
    → (executor_name : Option String) (risk_level : String)
    → (build_apply_entry_task_result_envelope repr
        (result_dump result)
        task_input_payload
        executor_name
        risk_level).status
      ≡ status_value (status_for_result result.status)
unfolding build_apply_entry_task_result_envelope result_dump get str_eq
build_apply_entry_task_result_envelope-status repr result input name risk =
    status_agrees repr result.status
