-- ===== src/DurableState/Resume.antt =====
-- `resume_task` of durable_state/service.py: what it does to a closed task, and the step that it
-- adds to a task whose latest step was interrupted or failed.
use offer_master.Prelude.{
  ◌+◌, ◌≤◌, ◌<◌, ◌<>◌, ◌≡◌, refl, ◌∙◌, ap, ◌≢◌, ◌⊎◌, inl, inr, String, Bool, true, false, none,
  some, List, Memᴰ, arith, str_eq, str_eq_refl, str_ne, if◌then◌else◌,
}
use offer_master.Prelude.Int.{ℤ, pos_part}
use offer_master.Prelude.Text.{show}
use offer_master.Prelude.Json.{end}
use offer_master.DurableState.Schemas.{AgentTaskStatus, AgentStepStatus, step_command_ok}
use offer_master.DurableState.Models.{AgentTaskState, AgentStepState}
use offer_master.DurableState.Session.{Session, IsLawful}
use offer_master.Prelude.Effects.{ok}
use offer_master.DurableState.Repository.{step_row}
use offer_master.DurableState.ResumePolicy.{
  DurableResumeAction, DurableResumeDecision, DurableResumeResult, latest_step, decide,
}
use offer_master.DurableState.Service.{
  next_sequence_index, resume_command, resumed_result, resume_result_from_decision, resume_from,
  resume_task, act,
}
use offer_master.DurableState.Policy.{latest_step_greatest, lt-next_sequence_index, is_closed}

-- The step that takes up the source step: the same work, to be done once more and from the start.
pub record TakesUp (task_id : String) (source step : AgentStepState) : Type 0 where
  pub parent : step.parent_step_id ≡ some source.id
  pub named : step.id ≡ (source.id <> (":resume-" <> show step.sequence_index))
  pub owner : step.task_id ≡ task_id
  pub pending : step.status ≡ AgentStepStatus.pending
  pub retried : step.retry_count ≡ source.retry_count + 1
  pub step_type : step.step_type ≡ source.step_type
  pub executor_type : step.executor_type ≡ source.executor_type
  pub executor_name : step.executor_name ≡ source.executor_name
  pub capability : step.capability ≡ source.capability
  pub input_payload : step.input_payload ≡ source.input_payload
  pub output_payload : step.output_payload ≡ end
  pub tool_call_log_id : step.tool_call_log_id ≡ none
  pub external_task_id : step.external_task_id ≡ none
  pub approval_request_id : step.approval_request_id ≡ none
  pub started_at : step.started_at ≡ none
  pub completed_at : step.completed_at ≡ none

overwrite {ℓ} :
    {A : Type ℓ} (b : Bool) (new old : A) {a m w w' : A}
    → a ≡ (if b then new else m)
    → m ≡ (if b then old else w)
    → w ≡ w'
    → a ≡ (if b then new else w')
overwrite true new old e f g = e
overwrite false new old e f g = e ∙ f ∙ g

module _ (D : Session) (L : IsLawful D) (max_retries : ℤ) (task_id : String) where
  pub resume_task_acts :
      (s : D.State) {task : AgentTaskState}
      → D.get_task s task_id ≡ some task
      → let steps = D.steps_of s task_id in
        let d = decide max_retries task steps in
        resume_task D task_id max_retries s ≡ act D d.action task_id task steps d s
  unfolding resume_task
  resume_task_acts s has_task = rw has_task

  -- A task that succeeded or was canceled is not touched: its resumption reports, and leaves the
  -- session as it is.
  pub resume_task_closed :
      (s : D.State) (task : AgentTaskState)
      → D.get_task s task_id ≡ some task
      → is_closed task.status ≡ true
      → (result : DurableResumeResult) × (resume_task D task_id max_retries s ≡ (ok result, s))
        × (result.action ≡ DurableResumeAction.stop_and_report)
        × (result.resume_step_id ≡ none)
  unfolding decide
  resume_task_closed s task has_task closed = (
    resume_result_from_decision (decide max_retries task (D.steps_of s task_id)),
    resume_task_acts s has_task ∙ ground arith,
    ground arith,
    refl,
  )

  module _ (s : D.State) (task : AgentTaskState) (source : AgentStepState)
      (has_task : D.get_task s task_id ≡ some task) (open_task : is_closed task.status ≡ false)
      (found : latest_step (D.steps_of s task_id) ≡ some source) where
    abbrev pub steps : List AgentStepState
    steps = D.steps_of s task_id

    abbrev pub resume_step : AgentStepState
    resume_step = step_row (resume_command task_id (next_sequence_index steps) source)

    abbrev pub resumed_task : AgentTaskState
    resumed_task = record task {
      status = AgentTaskStatus.running;
      current_step_id = some resume_step.id;
      completed_at = none;
    }

    abbrev pub CanResume : Type 0
    CanResume =
        (source.status ≡ AgentStepStatus.failed) × (source.retry_count < pos_part max_retries)
        ⊎ (source.status ≡ AgentStepStatus.running)

    resume_step-TakesUp : TakesUp task_id source resume_step
    resume_step-TakesUp = record {
      parent = refl;
      named = refl;
      owner = refl;
      pending = refl;
      retried = refl;
      step_type = refl;
      executor_type = refl;
      executor_name = refl;
      capability = refl;
      input_payload = refl;
      output_payload = refl;
      tool_call_log_id = refl;
      external_task_id = refl;
      approval_request_id = refl;
      started_at = refl;
      completed_at = refl;
    }

    -- What the call leaves: the new step and the task, with every other row as it was.
    pub record Resumed (s' : D.State) : Type 0 where
      pub step_stored : D.get_step s' resume_step.id ≡ some resume_step
      pub task_stored : D.get_task s' task_id ≡ some resumed_task
      pub step_new : D.get_step s resume_step.id ≡ none
      pub other_steps : (k : String) → resume_step.id ≢ k → D.get_step s' k ≡ D.get_step s k
      pub other_tasks : (k : String) → task_id ≢ k → D.get_task s' k ≡ D.get_task s k

    source_stored : D.get_step s source.id ≡ some source
    source_stored = ((L.mem-steps_of s task_id source).0 (latest_step_greatest steps found).0).0

    resume_from_lem :
        (d : DurableResumeDecision) {s1 : D.State}
        → step_command_ok (resume_command task_id (next_sequence_index steps) source) ≡ true
        → D.insert_step s resume_step ≡ some s1
        → (s' : D.State) × (resume_from D task_id steps d (some source.id) s
            ≡ (ok (resumed_result d task_id source resume_step), s'))
          × Resumed s'
    unfolding resume_from
    resume_from_lem d {s1} valid inserted = (
      D.update_task s2 resumed_task,
      rw source_stored (rw valid (rw inserted (rw at_s1 (rw at_s2)))),
      record {
        step_stored = step-after resume_step.id ∙ rw str_eq_refl;
        task_stored = task-after task_id ∙ rw (named, str_eq_refl);
        step_new = L.insert_step_new s resume_step inserted;
        other_steps = λ k other. step-after k ∙ rw (str_ne _ _ other);
        other_tasks = λ k other. task-after k ∙ rw (named, str_ne _ _ other);
      },
    )
      where
        named : task.id ≡ task_id
        named = L.get_task-id s task_id has_task

        pointed : AgentTaskState
        pointed = record task { current_step_id = some resume_step.id }

        s2 : D.State
        s2 = D.update_task s1 pointed

        at_s1 : D.get_task s1 task_id ≡ some task
        at_s1 = L.get_task-insert_step s resume_step task_id inserted ∙ has_task

        own_s1 : D.get_task s1 task.id ≡ some task
        own_s1 = ap (D.get_task s1) named ∙ at_s1

        at_s2 : D.get_task s2 task_id ≡ some pointed
        at_s2 = L.get_task-update_task s1 pointed task_id own_s1 ∙ rw (named, str_eq_refl)

        own_s2 : D.get_task s2 task.id ≡ some pointed
        own_s2 = ap (D.get_task s2) named ∙ at_s2

        step-after :
            (k : String)
            → D.get_step (D.update_task s2 resumed_task) k
              ≡ (if str_eq resume_step.id k then some resume_step else D.get_step s k)
        step-after k =
            L.get_step-update_task s2 resumed_task k
            ∙ L.get_step-update_task s1 pointed k
            ∙ L.get_step-insert_step s resume_step k inserted

        task-after :
            (k : String)
            → D.get_task (D.update_task s2 resumed_task) k
              ≡ (if str_eq task.id k then some resumed_task else D.get_task s k)
        task-after k =
            overwrite (str_eq task.id k) _ _ (L.get_task-update_task s2 resumed_task k own_s2)
              (L.get_task-update_task s1 pointed k own_s1)
              (L.get_task-insert_step s resume_step k inserted)

    abbrev d : DurableResumeDecision
    d = decide max_retries task steps

    Decided : Type 0
    Decided =
        ((d.action ≡ DurableResumeAction.retry_failed_step)
          ⊎ (d.action ≡ DurableResumeAction.reissue_executor_task))
        × (d.step_id ≡ some source.id)

    decided : CanResume → Decided
    unfolding decide Decided
    decided (inl (failed, left)) = (inl (ground arith), ground arith)
    decided (inr running) = (inr (ground arith), ground arith)

    resuming :
        Decided
        → act D d.action task_id task steps d s ≡ resume_from D task_id steps d (some source.id) s
    unfolding Decided
    resuming (inl e, named) = rw e (rw named)
    resuming (inr e, named) = rw e (rw named)

    within_budget :
        CanResume
        → d.action ≡ DurableResumeAction.retry_failed_step
        → resume_step.retry_count ≤ pos_part max_retries
    unfolding decide
    within_budget (inl (failed, left)) e = omega arith
    within_budget (inr running) e = absurd (ground arith)

    -- A failed step with retries left, or one that was running, is resumed by one new step, if its
    -- command passes the checks and the database takes its row. The step is pending, numbered behind
    -- all others of the task and named after its parent and its number. It has its parent's type,
    -- executor, capability and input, no output or references, and one more retry than its parent,
    -- within the budget where it is a retry. The task runs it and has no completion time, and every
    -- other row is as it was.
    pub resume_task_adds_step :
        {s1 : D.State}
        → CanResume
        → step_command_ok (resume_command task_id (next_sequence_index steps) source) ≡ true
        → D.insert_step s resume_step ≡ some s1
        → (s' : D.State) × (result : DurableResumeResult) × (resume_task D task_id max_retries s
            ≡ (ok result, s'))
          × (result.resume_step_id ≡ some resume_step.id)
          × (result.action ≡ DurableResumeAction.retry_failed_step
              → resume_step.retry_count ≤ pos_part max_retries)
          × ((x : AgentStepState) → Memᴰ x steps → x.sequence_index < resume_step.sequence_index)
          × TakesUp task_id source resume_step
          × Resumed s'
    resume_task_adds_step {s1} can valid inserted =
        let d = decide max_retries task steps in
        let (s', ran, done) = resume_from_lem d valid inserted in
        (
          s',
          resumed_result d task_id source resume_step,
          resume_task_acts s has_task ∙ resuming (decided can) ∙ ran,
          refl,
          within_budget can,
          λ x at. lt-next_sequence_index steps at,
          resume_step-TakesUp,
          done,
        )
