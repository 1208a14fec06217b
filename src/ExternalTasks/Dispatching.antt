-- ===== src/ExternalTasks/Dispatching.antt =====
-- The dispatch of a task, by what comes of its executor.
use offer_master.Prelude.{
  ◌≡◌, ◌≢◌, refl, ◌∙◌, ap, String, false, Option, some, [], ◌∷◌, ◌++◌, str_eq, str_ne,
}
use offer_master.Prelude.Text.{is_empty}
use offer_master.Prelude.Json.{Json, Fields}
use offer_master.Prelude.Effects.{Result, ok, raise, value_error}
use offer_master.ExternalTasks.Schemas.{
  type_from_value, ExternalAgentTaskStatus, status_value, ApplyEntryDiscoveryStatus,
  FindApplyEntryTaskEnvelope, ApplyEntryDiscoveryResult, is_found_opened, checked_result,
  validate_status_contract, ExternalTaskType, type_value,
}
use offer_master.ExternalTasks.Session.{
  ExternalAgentTask, ExternalAgentTaskEvent, TaskSession, IsLawful,
}
use offer_master.ExternalTasks.Service.{status_for_result, event_for_status, mismatch}
use offer_master.ExternalTasks.Dispatcher.{
  ExternalTaskDispatchResult, Outcome, returned, raised, failure, failed_result, conclude, dispatch,
}
use offer_master.ExternalTasks.Refinement.{status_from_value-status_value}
use offer_master.ExternalTasks.Recording.{
  record_result_found, record_result-mismatch, result_row, result_event,
}
use offer_master.ExternalTasks.Writes.{
  Wrote, Readable, mark_running_found, running_row, running_event,
}

abbrev pub outcome_status : Outcome → ApplyEntryDiscoveryStatus
outcome_status (returned result) = result.status
outcome_status (raised _ _) = ApplyEntryDiscoveryStatus.failed

-- The executor gives a result for the task that it was asked about, or raises.
abbrev pub Answers : String → Outcome → Type 0
Answers task_id (returned result) = result.task_id ≡ task_id
Answers task_id (raised _ _) = Unit

type_from_value-type_value :
    (task_type : ExternalTaskType) → type_from_value (type_value task_type) ≡ some task_type
unfolding type_from_value str_eq
type_from_value-type_value ExternalTaskType.find_apply_entry = refl

-- What a dispatch leaves of a task whose executor ended with this status.
pub record Dispatched (D : TaskSession) (s : D.State) (t : ExternalAgentTask)
    (status : ApplyEntryDiscoveryStatus) (called : Result ExternalTaskDispatchResult × D.State)
    : Type 0 where
  pub answer : ExternalTaskDispatchResult
  pub answered : called.0 ≡ ok answer
  pub after : ExternalAgentTask
  pub stored : D.get_task called.1 t.id ≡ some after
  pub status_kept : after.status ≡ status_value (status_for_result status)
  pub status_told : answer.status ≡ after.status
  pub ok_told : answer.ok ≡ is_found_opened status
  pub events :
      (running last : ExternalAgentTaskEvent) × (running.event_type ≡ "task_running")
      × (last.event_type ≡ event_for_status (status_for_result status))
      × (D.events_of called.1 t.id ≡ (D.events_of s t.id ++ (running ∷ [])) ++ (last ∷ []))

module _ (repr : Json → String) (model_validate : Fields → Option FindApplyEntryTaskEnvelope)
    (D : TaskSession) (laws : IsLawful D) (executor_name : String)
    (execute : FindApplyEntryTaskEnvelope → Outcome) where
  abbrev running : (t : ExternalAgentTask) → Readable t → ExternalAgentTask
  running t r = running_row D laws repr t r

  -- The row of a running task can be read.
  running-Readable : (t : ExternalAgentTask) (r : Readable t) → Readable (running t r)
  running-Readable t r = record {
    task_type = r.task_type;
    status = ExternalAgentTaskStatus.running;
    typed = type_from_value-type_value r.task_type;
    known = status_from_value-status_value ExternalAgentTaskStatus.running;
  }

  -- The result that stands for an exception.
  abbrev failed_of : FindApplyEntryTaskEnvelope → String → String → ApplyEntryDiscoveryResult
  failed_of envelope name text = failure envelope executor_name name text

  failed_result_accepted :
      (envelope : FindApplyEntryTaskEnvelope) (name text : String)
      → is_empty envelope.task_id ≡ false
      → failed_result envelope executor_name name text ≡ some (failed_of envelope name text)
  unfolding failed_result checked_result validate_status_contract
  failed_result_accepted envelope name text filled = rw filled refl

  -- What a call that has recorded a result leaves.
  recorded-Dispatched :
      (now recorded_at : String) (s s' : D.State) (t : ExternalAgentTask) (r : Readable t)
      → (result : ApplyEntryDiscoveryResult) (answer : ExternalTaskDispatchResult)
      → Wrote D s s' (running t r) (running_event D laws t.id)
      → (s'' : D.State)
      → Wrote D s' s''
          (result_row D laws repr now
            (running t r)
            (running-Readable t r)
            result
            (some executor_name))
          (result_event D laws repr recorded_at (running t r) result (some executor_name))
      → answer.status ≡ status_value (status_for_result result.status)
      → answer.ok ≡ is_found_opened result.status
      → Dispatched D s t result.status (ok answer, s'')
  recorded-Dispatched now recorded_at s s' t r result answer first s'' second status told = record {
    answer = answer;
    answered = refl;
    after = _;
    stored = second.here;
    status_kept = refl;
    status_told = status;
    ok_told = told;
    events = (
      running_event D laws t.id,
      result_event D laws repr recorded_at (running t r) result (some executor_name),
      refl,
      refl,
      second.logged
          ∙ ap
              (λ l.
                l
                ++ (result_event D laws repr recorded_at (running t r) result (some executor_name)
                    ∷ []))
              first.logged,
    );
  }

  conclude-Dispatched :
      (now recorded_at : String) (s s' : D.State) (t : ExternalAgentTask) (r : Readable t)
      → (envelope : FindApplyEntryTaskEnvelope) (outcome : Outcome)
      → Wrote D s s' (running t r) (running_event D laws t.id)
      → envelope.task_id ≡ t.id
      → is_empty envelope.task_id ≡ false
      → Answers envelope.task_id outcome
      → Dispatched D s t
          (outcome_status outcome)
          (conclude repr D executor_name now recorded_at t.id envelope outcome s')
  unfolding conclude
  conclude-Dispatched now recorded_at s s' t r envelope (returned result) first own filled mine =
      let (s'', ran, second) =
        record_result_found D laws repr now recorded_at s' (running t r) (running-Readable t r)
          result (some executor_name) first.here (mine ∙ own) in
      rw ran (recorded-Dispatched now recorded_at s s' t r result _ first s'' second refl refl)
  conclude-Dispatched now recorded_at s s' t r envelope (raised name text) first own filled mine =
      let result : ApplyEntryDiscoveryResult = failed_of envelope name text in
      let (s'', ran, second) =
        record_result_found D laws repr now recorded_at s' (running t r) (running-Readable t r)
          result (some executor_name) first.here own in
      rw (failed_result_accepted envelope name text filled, ran)
        (recorded-Dispatched now recorded_at s s' t r result _ first s'' second refl refl)

  -- A stored, readable task whose payload is valid and names it, dispatched to an executor that
  -- answers for the task or raises: the call returns, the task's row has the status that answers
  -- to the executor's (failed, if it raised), the caller is told that status, and the events of the
  -- task have grown by task_running and the event of the new status.
  pub dispatch_lem :
      (now recorded_at : String) (s : D.State) (t : ExternalAgentTask) (r : Readable t)
      → (envelope : FindApplyEntryTaskEnvelope) → D.get_task s t.id ≡ some t
      → model_validate t.input_payload ≡ some envelope
      → envelope.task_id ≡ t.id
      → is_empty envelope.task_id ≡ false
      → Answers envelope.task_id (execute envelope)
      → Dispatched D s t
          (outcome_status (execute envelope))
          (dispatch repr model_validate D executor_name execute now recorded_at t.id s)
  unfolding dispatch
  dispatch_lem now recorded_at s t r envelope at valid own filled mine =
      let (s', ran, first) = mark_running_found D laws repr now s t r at in
      rw (ran, valid)
        (conclude-Dispatched now recorded_at s s' t r envelope (execute envelope) first own filled
          mine)

  -- The dispatch of a stored, readable task with a valid payload, whose executor gives the result
  -- of another task, raises the ValueError of record_result and leaves the task running.
  pub dispatch-mismatch :
      (now recorded_at : String) (s : D.State) (t : ExternalAgentTask) (r : Readable t)
      → (envelope : FindApplyEntryTaskEnvelope) (result : ApplyEntryDiscoveryResult)
      → D.get_task s t.id ≡ some t
      → model_validate t.input_payload ≡ some envelope
      → execute envelope ≡ returned result
      → result.task_id ≢ t.id
      → ((dispatch repr model_validate D executor_name execute now recorded_at t.id s).0
          ≡ raise (value_error (mismatch result.task_id t.id)))
        × ((after : ExternalAgentTask) × (D.get_task
                (dispatch repr model_validate D executor_name execute now recorded_at t.id s).1
                t.id
              ≡ some after)
            × (after.status ≡ "running"))
  unfolding dispatch conclude
  dispatch-mismatch now recorded_at s t r envelope result at valid gave other =
      let (s', ran, first) = mark_running_found D laws repr now s t r at in
      rw
        (
          ran,
          valid,
          gave,
          record_result-mismatch D laws repr now recorded_at s' (running t r) (running-Readable t r)
              result (some executor_name) first.here (str_ne _ _ other),
        )
        (refl, (running t r, first.here, refl))
