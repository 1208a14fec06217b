-- ===== src/ExternalTasks/Recording.antt =====
-- What the recording of a result writes, and what it refuses.
use offer_master.Prelude.{
  ◌≡◌, refl, ◌∙◌, String, false, Option, none, some, List, [], ◌∷◌, map, str_eq, str_eq_iff, All,
}
use offer_master.Prelude.Json.{Json, str, obj, fields, opt_str}
use offer_master.Prelude.Effects.{ok, raise, value_error}
use offer_master.ExternalTasks.Schemas.{
  status_value, discovery_value, ExternalAgentArtifactRef, ApplyEntryDiscoveryResult,
}
use offer_master.ExternalTasks.Payloads.{result_dump, reason_text}
use offer_master.ExternalTasks.ResultEnvelope.{to_dict, build_apply_entry_task_result_envelope}
use offer_master.ExternalTasks.Session.{
  ExternalAgentTask, ExternalAgentTaskEvent, ExternalAgentArtifact, TaskSession, IsLawful,
}
use offer_master.ExternalTasks.Repository.{
  ExternalAgentTaskRecord, row, save_over, artifact_row, completed_at, first_of, find_task, save,
  add_event, replace_artifacts,
}
use offer_master.ExternalTasks.Service.{
  status_for_result, event_for_status, mismatch, not_found, require_task, output_payload,
  record_result,
}
use offer_master.ExternalTasks.Writes.{
  Wrote, Readable, record_of, require_task_found, updated_here, event_after, others_updated,
}

module _ (D : TaskSession) (laws : IsLawful D) where
  -- A result that is recorded.
  abbrev pub result_record :
      (Json → String)
      → ExternalAgentTaskRecord
      → ApplyEntryDiscoveryResult
      → Option String
      → ExternalAgentTaskRecord
  result_record repr task result executor_name = record task {
    status = status_for_result result.status;
    output_payload = some (output_payload repr task result executor_name);
    blocked_reason = reason_text result.blocked_reason;
  }

  abbrev pub result_row :
      (Json → String)
      → String
      → (t : ExternalAgentTask) → Readable t
      → ApplyEntryDiscoveryResult
      → Option String
      → ExternalAgentTask
  result_row repr now t readable result executor_name =
      row repr (first_of t.completed_at (completed_at now (status_for_result result.status)))
        (result_record repr (record_of t readable) result executor_name)

  abbrev pub result_event :
      (Json → String)
      → String
      → (t : ExternalAgentTask) → ApplyEntryDiscoveryResult
      → Option String
      → ExternalAgentTaskEvent
  result_event repr recorded_at t result executor_name = record {
    task_id = t.id;
    event_type = event_for_status (status_for_result result.status);
    payload = fields (
        ("status", str (status_value (status_for_result result.status)))
        ∷ ("result_status", str (discovery_value result.status))
        ∷ ("blocked_reason", opt_str (reason_text result.blocked_reason))
        ∷ ("recorded_at", str recorded_at)
        ∷ (
          "result_envelope",
          obj (
              to_dict (
                build_apply_entry_task_result_envelope repr (result_dump result) t.input_payload
                  executor_name "medium")),
        )
        ∷ []);
  }

  owned_rows :
      (s : D.State) (t : ExternalAgentTask) (refs : List ExternalAgentArtifactRef)
      → D.get_task s t.id ≡ some t
      → All
          (λ (a : ExternalAgentArtifact).
            (u : ExternalAgentTask) × (D.get_task s a.task_id ≡ some u))
          (map (artifact_row t.id) refs)
  owned_rows s t [] at = tt
  owned_rows s t (ref ∷ refs) at = ((t, at), owned_rows s t refs at)

  pub record_result_found :
      (repr : Json → String) (now recorded_at : String) (s : D.State) (t : ExternalAgentTask)
      → (readable : Readable t) (result : ApplyEntryDiscoveryResult)
      → (executor_name : Option String) → D.get_task s t.id ≡ some t
      → result.task_id ≡ t.id
      → (s' : D.State) × (record_result repr D now recorded_at t.id result executor_name s
          ≡ (ok (result_record repr (record_of t readable) result executor_name), s'))
        × Wrote D s s'
            (result_row repr now t readable result executor_name)
            (result_event repr recorded_at t result executor_name)
  unfolding record_result save save_over replace_artifacts add_event
  record_result_found repr now recorded_at s t readable result executor_name at mine =
      let new : ExternalAgentTask = result_row repr now t readable result executor_name in
      let m : D.State = D.delete_artifacts (D.update_task s new) t.id in
      let here : D.get_task m t.id ≡ some new =
        laws.get_task-delete_artifacts (D.update_task s new) t.id t.id
        ∙ updated_here D laws s t new at refl in
      let (kept, added) =
        laws.insert_artifacts_known m (map (artifact_row t.id) result.evidence_artifacts)
          (owned_rows m new result.evidence_artifacts here) in
      let (s', inserted, wrote) =
        event_after D laws s kept new (result_event repr recorded_at t result executor_name)
          (laws.get_task-insert_artifacts m _ t.id added ∙ here)
          (λ k.
            laws.events_of-insert_artifacts m _ k added
            ∙ laws.events_of-delete_artifacts (D.update_task s new) t.id k
            ∙ laws.events_of-update_task s new k)
          (λ k other.
            laws.get_task-insert_artifacts m _ k added
            ∙ laws.get_task-delete_artifacts (D.update_task s new) t.id k
            ∙ others_updated D laws s t new at refl k other)
          refl in
      (
        s',
        rw
            (
              require_task_found D laws s t readable at,
              (str_eq_iff result.task_id t.id).1 mine,
              at,
              added,
              inserted,
            )
            refl,
        wrote,
      )

  -- A result for another task is refused before anything is written.
  pub record_result-mismatch :
      (repr : Json → String) (now recorded_at : String) (s : D.State) (t : ExternalAgentTask)
      → (readable : Readable t) (result : ApplyEntryDiscoveryResult)
      → (executor_name : Option String) → D.get_task s t.id ≡ some t
      → str_eq result.task_id t.id ≡ false
      → record_result repr D now recorded_at t.id result executor_name s
        ≡ (raise (value_error (mismatch result.task_id t.id)), s)
  unfolding record_result
  record_result-mismatch repr now recorded_at s t readable result executor_name at other =
      rw (require_task_found D laws s t readable at, other) refl

  -- A task that is not stored.
  pub require_task_missing :
      (s : D.State) (task_id : String)
      → D.get_task s task_id ≡ none
      → require_task D task_id s ≡ (raise (value_error (not_found task_id)), s)
  unfolding require_task find_task
  require_task_missing s task_id none_at = rw none_at refl
