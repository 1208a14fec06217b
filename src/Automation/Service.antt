-- ===== src/Automation/Service.antt =====
-- automation/service.py with repository.py: the operations of AutomationService. The new identifier
-- (uuid4) is given, and so are the times that the clock gives.
use offer_master.Prelude.{String, ◌<>◌, Bool, true, false, Option, none, some}
use offer_master.Prelude.Text.{is_empty}
use offer_master.Prelude.Effects.{
  M, value_error, attribute_error, pure, modify, gets, require, some_or, attempt, ◌>>=◌, ◌>>◌,
}
use offer_master.Automation.Models.{
  WorkflowRunStatus, ApprovalRequestStatus, WorkflowRun, WorkflowCheckpoint, ToolCallLog,
  ApprovalRequest, WorkflowRunCreate, WorkflowCheckpointCreate, ToolCallLogCreate,
  ApprovalRequestCreate, WorkflowStarted, AutomationWaitingForUser, WorkflowCheckpointSaved,
  AutomationSession,
}

abbrev pub run_missing : String → String
run_missing id = "Workflow run not found: " <> id

abbrev pub approval_missing : String → String
approval_missing id = "Approval request not found: " <> id

abbrev pub not_pending : String → String
not_pending id = "Approval request is not pending: " <> id

abbrev pub is_pending : ApprovalRequestStatus → Bool
is_pending ApprovalRequestStatus.pending = true
is_pending _ = false

abbrev pub decision_status : Bool → ApprovalRequestStatus
decision_status true = ApprovalRequestStatus.approved
decision_status false = ApprovalRequestStatus.rejected

abbrev pub decision_value : Bool → String
decision_value true = "approved"
decision_value false = "rejected"

-- `decision or decision_status`
abbrev pub given_or : Option String → String → String
given_or none d = d
given_or (some s) d = elim (is_empty s) [ true ↦ d | false ↦ s ]

-- The run of an approval that is decided.
abbrev pub resumed : Bool → String → WorkflowRun → WorkflowRun
resumed true now run = record run { status = WorkflowRunStatus.running }
resumed false now run = record run {
  status = WorkflowRunStatus.canceled;
  current_step = some "approval_rejected";
  completed_at = some now;
}

module _ (D : AutomationSession) where
  unfoldable pub start_workflow : String → WorkflowRunCreate → M D.State WorkflowRun
  start_workflow id command = do
    let run : WorkflowRun = record {
      id = id;
      workflow_type = command.workflow_type;
      status = WorkflowRunStatus.running;
      current_step = command.current_step;
      user_goal = command.user_goal;
      related_job_id = command.related_job_id;
      related_application_id = command.related_application_id;
      approval_request_id = none;
      completed_at = none;
    }
    attempt (λ s. D.insert_run s run)
    pure run

  unfoldable pub start_workflow_with_event :
      String → String → WorkflowRunCreate → M D.State (WorkflowRun × WorkflowStarted)
  unfolding start_workflow
  start_workflow_with_event id now command = do
    run ← start_workflow id command
    pure (
      run,
      record { workflow_run_id = run.id; workflow_type = run.workflow_type; occurred_at = now },
    )

  unfoldable pub save_checkpoint :
      String
      → String
      → WorkflowCheckpointCreate
      → M D.State (WorkflowCheckpoint × WorkflowCheckpointSaved)
  save_checkpoint id now command = do
    let checkpoint : WorkflowCheckpoint = record {
      id = id;
      workflow_run_id = command.workflow_run_id;
      checkpoint_key = command.checkpoint_key;
      state = command.state;
    }
    attempt (λ s. D.insert_checkpoint s checkpoint)
    pure (
      checkpoint,
      record {
        workflow_run_id = checkpoint.workflow_run_id;
        checkpoint_key = checkpoint.checkpoint_key;
        occurred_at = now;
      },
    )

  unfoldable pub record_tool_call : String → ToolCallLogCreate → M D.State ToolCallLog
  record_tool_call id command = do
    let log : ToolCallLog = record {
      id = id;
      workflow_run_id = command.workflow_run_id;
      tool_name = command.tool_name;
      tool_group = command.tool_group;
      status = command.status;
      input_payload = command.input_payload;
      output_payload = command.output_payload;
      error = command.error;
      duration_ms = command.duration_ms;
    }
    attempt (λ s. D.insert_log s log)
    pure log

  unfoldable pub request_user_approval :
      String
      → String
      → ApprovalRequestCreate
      → M D.State (ApprovalRequest × AutomationWaitingForUser)
  request_user_approval id now command = do
    loaded ← gets (λ s. D.get_run s command.workflow_run_id)
    run ← some_or (value_error (run_missing command.workflow_run_id)) loaded
    let approval : ApprovalRequest = record {
      id = id;
      workflow_run_id = run.id;
      application_id = command.application_id;
      action_type = command.action_type;
      status = ApprovalRequestStatus.pending;
      prompt = command.prompt;
      payload = command.payload;
      decision = none;
      decided_at = none;
      expires_at = command.expires_at;
    }
    attempt (λ s. D.insert_approval s approval)
    modify (λ s. D.update_run s (record run {
      status = WorkflowRunStatus.waiting_user;
      approval_request_id = some approval.id;
    }))
    pure (
      approval,
      record {
        workflow_run_id = run.id;
        approval_request_id = approval.id;
        action_type = approval.action_type;
        occurred_at = now;
      },
    )

  unfoldable pub mark_decision :
      String → ApprovalRequestStatus → String → String → M D.State ApprovalRequest
  mark_decision id status decision decided_at = do
    modify (λ s. D.decide_where s id status decision decided_at)
    approval ← gets (λ s. D.get_approval s id)
    some_or (value_error (approval_missing id)) approval

  unfoldable pub decide_approval :
      String → String → String → Bool → Option String → M D.State ApprovalRequest
  unfolding mark_decision
  decide_approval now later id approved decision = do
    loaded ← gets (λ s. D.get_approval s id)
    approval ← some_or (value_error (approval_missing id)) loaded
    require (is_pending approval.status) (value_error (not_pending id))
    marked ←
        mark_decision id (decision_status approved) (given_or decision (decision_value approved))
          now
    owner ← gets (λ s. D.get_run s marked.workflow_run_id)
    run ← some_or attribute_error owner
    modify (λ s. D.update_run s (resumed approved later run))
    pure marked
