-- ===== src/ExternalTasks/Writes.antt =====
-- The writes of the operations on one task: its row and its events.
use offer_master.Prelude.{
  ◌≡◌, refl, sym, ◌∙◌, subst, String, false, none, some, [], ◌∷◌, ◌++◌, str_eq, str_eq_iff,
  str_eq_refl,
}
use offer_master.Prelude.Json.{Json, str, Fields, fields}
use offer_master.Prelude.Effects.{ok}
use offer_master.ExternalTasks.Schemas.{
  ExternalTaskType, type_value, type_from_value, ExternalAgentTaskStatus, status_from_value,
  FindApplyEntryTaskEnvelope,
}
use offer_master.ExternalTasks.Payloads.{envelope_dump}
use offer_master.ExternalTasks.Session.{
  ExternalAgentTask, ExternalAgentTaskEvent, TaskSession, IsLawful,
}
use offer_master.ExternalTasks.Repository.{
  ExternalAgentTaskRecord, row, to_record, save_over, first_of, create, find_task, save, add_event,
}
use offer_master.ExternalTasks.Service.{create_find_apply_entry_task, require_task, mark_running}

-- The row of the task is `t`, its events end in a new `e`, and all else is as it was.
pub record Wrote (D : TaskSession) (s s' : D.State) (t : ExternalAgentTask)
    (e : ExternalAgentTaskEvent) : Type 0 where
  pub here : D.get_task s' t.id ≡ some t
  pub logged : D.events_of s' t.id ≡ D.events_of s t.id ++ (e ∷ [])
  pub elsewhere :
      (k : String)
      → str_eq t.id k ≡ false
      → (D.get_task s' k ≡ D.get_task s k) × (D.events_of s' k ≡ D.events_of s k)

-- A row that the repository can turn into a record.
pub record Readable (t : ExternalAgentTask) : Type 0 where
  pub task_type : ExternalTaskType
  pub status : ExternalAgentTaskStatus
  pub typed : type_from_value t.task_type ≡ some task_type
  pub known : status_from_value t.status ≡ some status

abbrev pub record_of : (t : ExternalAgentTask) → Readable t → ExternalAgentTaskRecord
record_of t readable = record {
  task_id = t.id;
  task_type = readable.task_type;
  status = readable.status;
  input_payload = t.input_payload;
  context_pack_hash = t.context_pack_hash;
  output_payload = t.output_payload;
  blocked_reason = t.blocked_reason;
}

module _ (D : TaskSession) (laws : IsLawful D) where
  -- Reading a stored task.
  pub require_task_found :
      (s : D.State) (t : ExternalAgentTask) (readable : Readable t)
      → D.get_task s t.id ≡ some t
      → require_task D t.id s ≡ (ok (record_of t readable), s)
  unfolding require_task find_task to_record
  require_task_found s t readable at = rw (at, readable.typed, readable.known) refl

  pub updated_here :
      (s : D.State) (t new : ExternalAgentTask)
      → D.get_task s t.id ≡ some t
      → new.id ≡ t.id
      → D.get_task (D.update_task s new) new.id ≡ some new
  updated_here s t new at same =
      laws.get_task-update_task s new new.id (subst (λ k. D.get_task s k ≡ some t) (sym same) at)
      ∙ rw (str_eq_refl new.id) refl

  -- A row that is written over a stored one, and an event of the task after it.
  pub event_after :
      (s m : D.State) (t : ExternalAgentTask) (e : ExternalAgentTaskEvent)
      → D.get_task m t.id ≡ some t
      → ((k : String) → D.events_of m k ≡ D.events_of s k)
      → ((k : String) → str_eq t.id k ≡ false → D.get_task m k ≡ D.get_task s k)
      → e.task_id ≡ t.id
      → (s' : D.State) × (D.insert_event m e ≡ some s') × Wrote D s s' t e
  event_after s m t e at quiet others mine =
      let known : D.get_task m e.task_id ≡ some t =
        subst (λ k. D.get_task m k ≡ some t) (sym mine) at in
      let (s', inserted) = laws.insert_event_known m e known in
      (
        s',
        inserted,
        record {
          here = laws.get_task-insert_event m e t.id inserted ∙ at;
          logged =
              laws.events_of-insert_event m e t.id inserted
              ∙ rw ((str_eq_iff e.task_id t.id).1 mine, quiet t.id) refl;
          elsewhere = λ k other. (
            laws.get_task-insert_event m e k inserted ∙ others k other,
            laws.events_of-insert_event m e k inserted ∙ rw (mine, other) (quiet k),
          );
        },
      )

  pub others_updated :
      (s : D.State) (t new : ExternalAgentTask)
      → D.get_task s t.id ≡ some t
      → new.id ≡ t.id
      → (k : String) → str_eq new.id k ≡ false
      → D.get_task (D.update_task s new) k ≡ D.get_task s k
  others_updated s t new at same k other =
      laws.get_task-update_task s new k (subst (λ k. D.get_task s k ≡ some t) (sym same) at)
      ∙ rw other refl

  -- A task that is marked running.
  abbrev pub running_row :
      (Json → String) → (t : ExternalAgentTask) → Readable t → ExternalAgentTask
  running_row repr t readable =
      row repr (first_of t.completed_at none)
        (record (record_of t readable) { status = ExternalAgentTaskStatus.running })

  abbrev pub running_event : String → ExternalAgentTaskEvent
  running_event task_id = record {
    task_id = task_id;
    event_type = "task_running";
    payload = fields (("status", str "running") ∷ []);
  }

  pub mark_running_found :
      (repr : Json → String) (now : String) (s : D.State) (t : ExternalAgentTask)
      → (readable : Readable t) → D.get_task s t.id ≡ some t
      → (s' : D.State) × (mark_running repr D now t.id s
          ≡ (ok (record (record_of t readable) { status = ExternalAgentTaskStatus.running }), s'))
        × Wrote D s s' (running_row repr t readable) (running_event t.id)
  unfolding mark_running save save_over add_event
  mark_running_found repr now s t readable at =
      let new : ExternalAgentTask = running_row repr t readable in
      let (s', inserted, wrote) =
        event_after s (D.update_task s new) new (running_event t.id) (updated_here s t new at refl)
          (laws.events_of-update_task s new) (others_updated s t new at refl) refl in
      (s', rw (require_task_found s t readable at, at, inserted) refl, wrote)

  -- A task that is created.
  abbrev pub queued_row :
      (Json → String) → (Fields → String) → FindApplyEntryTaskEnvelope → ExternalAgentTask
  queued_row repr payload_hash envelope = row repr none (record {
    task_id = envelope.task_id;
    task_type = envelope.task_type;
    status = ExternalAgentTaskStatus.queued;
    input_payload = envelope_dump envelope;
    context_pack_hash = payload_hash (envelope_dump envelope);
    output_payload = none;
    blocked_reason = none;
  })

  abbrev pub queued_event : FindApplyEntryTaskEnvelope → ExternalAgentTaskEvent
  queued_event envelope = record {
    task_id = envelope.task_id;
    event_type = "task_queued";
    payload =
        fields (("task_type", str (type_value envelope.task_type)) ∷ ("status", str "queued") ∷ []);
  }

  pub create_free :
      (repr : Json → String) (payload_hash : Fields → String) (now : String) (s : D.State)
      → (envelope : FindApplyEntryTaskEnvelope) → D.get_task s envelope.task_id ≡ none
      → (s' : D.State) × ((create_find_apply_entry_task repr payload_hash D now envelope s).1 ≡ s')
        × Wrote D s s' (queued_row repr payload_hash envelope) (queued_event envelope)
  unfolding create_find_apply_entry_task create add_event
  create_free repr payload_hash now s envelope free =
      let new : ExternalAgentTask = queued_row repr payload_hash envelope in
      let (m, added) = laws.insert_task_free s new free in
      let (s', inserted, wrote) =
        event_after s m new (queued_event envelope)
          (laws.get_task-insert_task s new new.id added ∙ rw (str_eq_refl new.id) refl)
          (λ k. laws.events_of-insert_task s new k added)
          (λ k other. laws.get_task-insert_task s new k added ∙ rw other refl) refl in
      (s', rw (added, inserted) refl, wrote)

  pub create_taken :
      (repr : Json → String) (payload_hash : Fields → String) (now : String) (s : D.State)
      → (envelope : FindApplyEntryTaskEnvelope) {t : ExternalAgentTask}
      → D.get_task s envelope.task_id ≡ some t
      → (create_find_apply_entry_task repr payload_hash D now envelope s).1 ≡ s
  unfolding create_find_apply_entry_task create
  create_taken repr payload_hash now s envelope taken =
      rw (laws.insert_task_taken s (queued_row repr payload_hash envelope) taken) refl
