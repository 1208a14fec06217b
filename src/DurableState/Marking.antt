-- ===== src/DurableState/Marking.antt =====
-- What the four `mark_step_*` operations of durable_state/service.py leave in the session.
use offer_master.Prelude.{
  ◌≡◌, refl, sym, ap, ◌∙◌, ◌≢◌, String, Option, some, str_eq, str_eq_refl, str_ne, or_else,
  if◌then◌else◌,
}
use offer_master.Prelude.Json.{Fields}
use offer_master.DurableState.Schemas.{AgentTaskStatus, AgentStepStatus}
use offer_master.DurableState.Models.{Time, AgentTaskState, AgentStepState}
use offer_master.DurableState.Session.{Session, IsLawful}
use offer_master.Prelude.Effects.{ok}
use offer_master.DurableState.Service.{
  mark_step_running, mark_step_waiting_user, mark_step_succeeded, mark_step_failed, keep_unless,
  keep_unless_some,
}

-- From `s` to `s'` the rows of one step and of one task were written, and no other row.
pub record Marks (D : Session) (s s' : D.State) (step : AgentStepState) (task : AgentTaskState)
    : Type 0 where
  pub step_stored : D.get_step s' step.id ≡ some step
  pub task_stored : D.get_task s' task.id ≡ some task
  pub other_steps : (k : String) → step.id ≢ k → D.get_step s' k ≡ D.get_step s k
  pub other_tasks : (k : String) → task.id ≢ k → D.get_task s' k ≡ D.get_task s k

module _ (D : Session) (L : IsLawful D) (s : D.State) where
  update-Marks :
      (step : AgentStepState) (task : AgentTaskState) {old_step : AgentStepState}
      {old_task : AgentTaskState}
      → D.get_step s step.id ≡ some old_step
      → D.get_task s task.id ≡ some old_task
      → Marks D s (D.update_task (D.update_step s step) task) step task
  update-Marks step task {old_step} {old_task} has_step has_task = record {
    step_stored = get_step-after step.id ∙ rw str_eq_refl;
    task_stored = get_task-after task.id ∙ rw str_eq_refl;
    other_steps = λ k other. get_step-after k ∙ rw (str_ne _ _ other);
    other_tasks = λ k other. get_task-after k ∙ rw (str_ne _ _ other);
  }
    where
      still : D.get_task (D.update_step s step) task.id ≡ some old_task
      still = L.get_task-update_step s step task.id ∙ has_task

      get_step-after :
          (k : String)
          → D.get_step (D.update_task (D.update_step s step) task) k
            ≡ (if str_eq step.id k then some step else D.get_step s k)
      get_step-after k = L.get_step-update_task _ task k ∙ L.get_step-update_step s step k has_step

      get_task-after :
          (k : String)
          → D.get_task (D.update_task (D.update_step s step) task) k
            ≡ (if str_eq task.id k then some task else D.get_task s k)
      get_task-after k =
          L.get_task-update_task _ task k still
          ∙ ap (λ t. if str_eq task.id k then some task else t) (L.get_task-update_step s step k)

  module _ (step_id : String) (step : AgentStepState) (task : AgentTaskState)
      (has_step : D.get_step s step_id ≡ some step)
      (has_task : D.get_task s step.task_id ≡ some task) where
    step_id_eq : step.id ≡ step_id
    step_id_eq = L.get_step-id s step_id has_step

    task_id_eq : task.id ≡ step.task_id
    task_id_eq = L.get_task-id s step.task_id has_task

    marked :
        (step' : AgentStepState) (task' : AgentTaskState)
        → step'.id ≡ step.id
        → task'.id ≡ task.id
        → Marks D s (D.update_task (D.update_step s step') task') step' task'
    marked step' task' e f =
        update-Marks step' task' (ap (D.get_step s) (e ∙ step_id_eq) ∙ has_step)
          (ap (D.get_task s) (f ∙ task_id_eq) ∙ has_task)

    still : (step' : AgentStepState) → D.get_task (D.update_step s step') step.task_id ≡ some task
    still step' = L.get_task-update_step s step' step.task_id ∙ has_task

    abbrev pub running_step : Time → AgentStepState
    running_step now = record step {
      status = AgentStepStatus.running;
      started_at = some (or_else step.started_at now);
    }

    abbrev pub running_task : AgentTaskState
    running_task = record task { status = AgentTaskStatus.running; current_step_id = some step.id }

    -- Marking a step as running keeps its first start, makes it the current step of its running
    -- task, and leaves `completed_at` of the task and every other row as they were.
    pub mark_step_running_lem :
        (now : Time)
        → (s' : D.State) × (mark_step_running D now step_id s ≡ (ok (running_step now), s'))
          × Marks D s s' (running_step now) running_task
    unfolding mark_step_running
    mark_step_running_lem now = (
      D.update_task (D.update_step s (running_step now)) running_task,
      rw has_step (rw (still (running_step now))),
      marked (running_step now) running_task refl refl,
    )

    abbrev pub waiting_step : Option String → Option String → Option Fields → AgentStepState
    waiting_step approval_request_id tool_call_log_id output_payload = record step {
      status = AgentStepStatus.waiting_user;
      approval_request_id = approval_request_id;
      tool_call_log_id = keep_unless_some tool_call_log_id step.tool_call_log_id;
      output_payload = keep_unless output_payload step.output_payload;
    }

    abbrev pub waiting_task : AgentTaskState
    waiting_task = record task {
      status = AgentTaskStatus.waiting_user;
      current_step_id = some step.id;
    }

    -- A step that waits for the user takes the given approval request, and keeps its log and its
    -- output where none is given. Its task waits with it, and every other row is as it was.
    pub mark_step_waiting_user_lem :
        (approval_request_id tool_call_log_id : Option String) (output_payload : Option Fields)
        → let step' = waiting_step approval_request_id tool_call_log_id output_payload in
          (s' : D.State) × (mark_step_waiting_user D step_id approval_request_id tool_call_log_id
              output_payload s
            ≡ (ok step', s'))
          × Marks D s s' step' waiting_task
    unfolding mark_step_waiting_user
    mark_step_waiting_user_lem approval_request_id tool_call_log_id output_payload =
        let step' = waiting_step approval_request_id tool_call_log_id output_payload in
        (
          D.update_task (D.update_step s step') waiting_task,
          rw has_step (rw (still step')),
          marked step' waiting_task refl refl,
        )

    abbrev pub succeeded_step :
        Time → Option String → Option String → Option Fields → AgentStepState
    succeeded_step now tool_call_log_id external_task_id output_payload = record step {
      status = AgentStepStatus.succeeded;
      completed_at = some now;
      tool_call_log_id = tool_call_log_id;
      external_task_id = external_task_id;
      output_payload = keep_unless output_payload step.output_payload;
    }

    -- A step that succeeded is completed and takes the given references, also where they are None.
    -- Its task goes on running, and every other row is as it was.
    pub mark_step_succeeded_lem :
        (now : Time) (tool_call_log_id external_task_id : Option String)
        (output_payload : Option Fields)
        → let step' = succeeded_step now tool_call_log_id external_task_id output_payload in
          (s' : D.State) × (mark_step_succeeded D now step_id tool_call_log_id external_task_id
              output_payload s
            ≡ (ok step', s'))
          × Marks D s s' step' running_task
    unfolding mark_step_succeeded
    mark_step_succeeded_lem now tool_call_log_id external_task_id output_payload =
        let step' = succeeded_step now tool_call_log_id external_task_id output_payload in
        (
          D.update_task (D.update_step s step') running_task,
          rw has_step (rw (still step')),
          marked step' running_task refl refl,
        )

    abbrev pub failed_step : Time → Option Fields → AgentStepState
    failed_step now output_payload = record step {
      status = AgentStepStatus.failed;
      completed_at = some now;
      output_payload = keep_unless output_payload step.output_payload;
    }

    abbrev pub failed_task : Time → AgentTaskState
    failed_task later = record task {
      status = AgentTaskStatus.failed;
      current_step_id = some step.id;
      completed_at = some later;
    }

    -- A failed step is completed with the given output, its task fails and is completed at the
    -- later reading of the clock, and every other row is as it was.
    pub mark_step_failed_lem :
        (now later : Time) (output_payload : Option Fields)
        → let step' = failed_step now output_payload in
          (s' : D.State) × (mark_step_failed D now later step_id output_payload s ≡ (ok step', s'))
          × Marks D s s' step' (failed_task later)
    unfolding mark_step_failed
    mark_step_failed_lem now later output_payload =
        let step' = failed_step now output_payload in
        (
          D.update_task (D.update_step s step') (failed_task later),
          rw has_step (rw (still step')),
          marked step' (failed_task later) refl refl,
        )

-- A failed step that is marked as running again leaves its task running with the completion time
-- of the failure.
pub mark_step_running-mark_step_failed :
    (D : Session) (L : IsLawful D) (s : D.State) (step_id : String) (step : AgentStepState)
    (task : AgentTaskState) (now later again : Time) (output_payload : Option Fields)
    → D.get_step s step_id ≡ some step
    → D.get_task s step.task_id ≡ some task
    → let failed = (mark_step_failed D now later step_id output_payload s).1 in
      let rerun = (mark_step_running D again step_id failed).1 in
      (task' : AgentTaskState) × (D.get_task rerun step.task_id ≡ some task')
      × (task'.status ≡ AgentTaskStatus.running)
      × (task'.completed_at ≡ some later)
mark_step_running-mark_step_failed D L s step_id step task now later again output_payload has_step
      has_task =
    let named = L.get_task-id s step.task_id has_task in
    let step' = failed_step D L s step_id step task has_step has_task now output_payload in
    let task' = failed_task D L s step_id step task has_step has_task later in
    let (s1, ran1, marks1) =
      mark_step_failed_lem D L s step_id step task has_step has_task now later output_payload in
    let here : D.get_step s1 step_id ≡ some step' =
      ap (D.get_step s1) (sym (L.get_step-id s step_id has_step)) ∙ marks1.step_stored in
    let owner : D.get_task s1 step.task_id ≡ some task' =
      ap (D.get_task s1) (sym named) ∙ marks1.task_stored in
    let (s2, ran2, marks2) = mark_step_running_lem D L s1 step_id step' task' here owner again in
    rw ran1 (
      rw ran2 (
        running_task D L s1 step_id step' task' here owner,
        ap (D.get_task s2) (sym named) ∙ marks2.task_stored,
        refl,
        refl,
      ))
