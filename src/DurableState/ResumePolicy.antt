-- ===== src/DurableState/ResumePolicy.antt =====
-- durable_state/resume_policy.py: which step a task goes on from after an interruption.
use offer_master.Prelude.{
  ℕ, String, ◌<>◌, Bool, ◌&&◌, ◌||◌, Option, none, some, List, ltb, ◌==◌, if◌then◌else◌, get_last?,
}
use offer_master.Prelude.Text.{str_leb}
use offer_master.Prelude.Json.{Fields, end}
use offer_master.Prelude.Int.{ℤ, pos_part}
use offer_master.Prelude.Sort.{sorted}
use offer_master.DurableState.Schemas.{
  AgentTaskStatus, AgentStepStatus, task_status_value, step_status_value,
}
use offer_master.DurableState.Models.{AgentTaskState, AgentStepState}

pub data DurableResumeAction : Type 0 where
  retry_failed_step continue_from_next_step wait_user_action : DurableResumeAction
  reissue_executor_task replan_remaining_steps stop_and_report : DurableResumeAction

pub record DurableResumeDecision : Type 0 where
  pub action : DurableResumeAction
  pub task_id : String
  pub step_id : Option String
  pub reason : Option String
  pub approval_request_id : Option String
  pub executor_type : Option String
  pub executor_name : Option String
  pub capability : Option String
  pub payload : Fields

pub record DurableResumeResult : Type 0 where
  pub action : DurableResumeAction
  pub task_id : String
  pub source_step_id : Option String
  pub resume_step_id : Option String
  pub reason : Option String
  pub approval_request_id : Option String
  pub executor_type : Option String
  pub executor_name : Option String
  pub capability : Option String
  pub payload : Fields
  pub requires_user_action : Bool

-- The sort key: (sequence_index, id).
abbrev pub step_leb : AgentStepState → AgentStepState → Bool
step_leb a b =
    ltb a.sequence_index b.sequence_index
    || (a.sequence_index == b.sequence_index && str_leb a.id b.id)

unfoldable pub latest_step : List AgentStepState → Option AgentStepState
latest_step steps = get_last? (sorted step_leb steps)

-- A decision with the defaults of the data class.
abbrev decision : DurableResumeAction → String → Option String → String → DurableResumeDecision
decision action task_id step_id reason = record {
  action = action;
  task_id = task_id;
  step_id = step_id;
  reason = some reason;
  approval_request_id = none;
  executor_type = none;
  executor_name = none;
  capability = none;
  payload = end;
}

-- A decision that names the executor of the latest step.
abbrev step_decision :
    DurableResumeAction → String → AgentStepState → String → DurableResumeDecision
step_decision action task_id latest reason =
    record (decision action task_id (some latest.id) reason) {
      executor_type = some latest.executor_type;
      executor_name = some latest.executor_name;
      capability = some latest.capability;
    }

-- What is decided by the state of the latest step, with the retries left to it.
abbrev decide_step : AgentStepStatus → ℕ → String → AgentStepState → DurableResumeDecision
decide_step AgentStepStatus.waiting_user max_retries task_id latest =
    record (step_decision DurableResumeAction.wait_user_action task_id latest
      "latest step is waiting for user action") {
        approval_request_id = latest.approval_request_id;
        payload = latest.output_payload;
      }
decide_step AgentStepStatus.failed max_retries task_id latest =
    if ltb latest.retry_count max_retries
    then record (step_decision DurableResumeAction.retry_failed_step task_id latest
        "latest failed step is retryable") { payload = latest.input_payload }
    else step_decision DurableResumeAction.replan_remaining_steps task_id latest
        "retry budget exhausted"
decide_step AgentStepStatus.running max_retries task_id latest =
    record (step_decision DurableResumeAction.reissue_executor_task task_id latest
      "latest step was running when interrupted") { payload = latest.input_payload }
decide_step AgentStepStatus.succeeded max_retries task_id latest =
    record (decision DurableResumeAction.continue_from_next_step task_id (some latest.id)
      "latest step succeeded") {
        capability = some latest.capability;
        payload = latest.output_payload;
      }
decide_step status max_retries task_id latest =
    decision DurableResumeAction.replan_remaining_steps task_id (some latest.id)
      ("unsupported latest step status: " <> step_status_value status)

abbrev decide_open : ℕ → String → Option AgentStepState → DurableResumeDecision
decide_open max_retries task_id none =
    decision DurableResumeAction.replan_remaining_steps task_id none "task has no recorded steps"
decide_open max_retries task_id (some latest) = decide_step latest.status max_retries task_id latest

abbrev stop : AgentTaskStatus → String → Option AgentStepState → DurableResumeDecision
stop status task_id latest =
    decision DurableResumeAction.stop_and_report task_id
      (elim latest [ none ↦ none | some step ↦ some step.id ])
      ("task is already " <> task_status_value status)

-- A task that succeeded or was canceled is not resumed.
abbrev decide_task : AgentTaskStatus → ℕ → String → Option AgentStepState → DurableResumeDecision
decide_task AgentTaskStatus.succeeded max_retries task_id latest =
    stop AgentTaskStatus.succeeded task_id latest
decide_task AgentTaskStatus.canceled max_retries task_id latest =
    stop AgentTaskStatus.canceled task_id latest
decide_task _ max_retries task_id latest = decide_open max_retries task_id latest

-- DurableResumePolicy(max_retries=max_retries).decide(task, steps)
unfoldable pub decide : ℤ → AgentTaskState → List AgentStepState → DurableResumeDecision
decide max_retries task steps =
    decide_task task.status (pos_part max_retries) task.id (latest_step steps)
