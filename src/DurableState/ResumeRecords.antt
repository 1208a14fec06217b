-- ===== src/DurableState/ResumeRecords.antt =====
-- durable_state/service.py: the records that resume_task makes: the command for the step that it
-- adds, with its number, and the results that it returns.
use offer_master.Prelude.{ℕ, ◌+◌, max, String, ◌<>◌, Bool, true, false, none, some, List, [], ◌∷◌}
use offer_master.Prelude.Text.{show}
use offer_master.Prelude.Json.{end}
use offer_master.DurableState.Schemas.{AgentStepStatus, AgentStepStateCreate}
use offer_master.DurableState.Models.{AgentStepState}
use offer_master.DurableState.ResumePolicy.{
  DurableResumeAction, DurableResumeDecision, DurableResumeResult,
}

-- max(step.sequence_index for step in steps)
abbrev pub max_index : List AgentStepState → ℕ
max_index [] = 0
max_index (step ∷ steps) = max step.sequence_index (max_index steps)

abbrev pub next_sequence_index : List AgentStepState → ℕ
next_sequence_index [] = 1
next_sequence_index (step ∷ steps) = max_index (step ∷ steps) + 1

abbrev needs_user : DurableResumeAction → Bool
needs_user DurableResumeAction.wait_user_action = true
needs_user _ = false

abbrev pub resume_result_from_decision : DurableResumeDecision → DurableResumeResult
resume_result_from_decision d = record {
  action = d.action;
  task_id = d.task_id;
  source_step_id = d.step_id;
  resume_step_id = none;
  reason = d.reason;
  approval_request_id = d.approval_request_id;
  executor_type = d.executor_type;
  executor_name = d.executor_name;
  capability = d.capability;
  payload = d.payload;
  requires_user_action = needs_user d.action;
}

-- The step that a resume adds behind the steps of the task.
abbrev pub resume_command : String → ℕ → AgentStepState → AgentStepStateCreate
resume_command task_id next_index source = record {
  step_id = source.id <> (":resume-" <> show next_index);
  task_id = task_id;
  parent_step_id = some source.id;
  sequence_index = next_index;
  step_type = source.step_type;
  status = AgentStepStatus.pending;
  executor_type = source.executor_type;
  executor_name = source.executor_name;
  capability = source.capability;
  input_payload = source.input_payload;
  output_payload = end;
  tool_call_log_id = none;
  external_task_id = none;
  approval_request_id = none;
  retry_count = source.retry_count + 1;
}

abbrev pub resumed_result :
    DurableResumeDecision → String → AgentStepState → AgentStepState → DurableResumeResult
resumed_result d task_id source_step resume_step = record {
  action = d.action;
  task_id = task_id;
  source_step_id = some source_step.id;
  resume_step_id = some resume_step.id;
  reason = d.reason;
  approval_request_id = none;
  executor_type = some resume_step.executor_type;
  executor_name = some resume_step.executor_name;
  capability = some resume_step.capability;
  payload = resume_step.input_payload;
  requires_user_action = false;
}

abbrev pub waiting_result : DurableResumeDecision → String → DurableResumeResult
waiting_result d task_id = record {
  action = d.action;
  task_id = task_id;
  source_step_id = d.step_id;
  resume_step_id = none;
  reason = d.reason;
  approval_request_id = d.approval_request_id;
  executor_type = d.executor_type;
  executor_name = d.executor_name;
  capability = d.capability;
  payload = d.payload;
  requires_user_action = true;
}
