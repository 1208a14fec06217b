-- ===== src/Automation/Models.antt =====
-- automation/models.py, schemas.py and events.py: the rows, the commands and the events, and what the
-- repositories use of the database session, which is SQLAlchemy's. The columns that no operation
-- writes (`started_at`, `updated_at`, `created_at`, `error`) are left out. A datetime is its text.
use offer_master.Prelude.{◌≡◌, Option, some, none, String, str_eq, if◌then◌else◌}
use offer_master.Prelude.Int.{ℤ}
use offer_master.Prelude.Json.{Fields}

pub data WorkflowRunStatus : Type 0 where
  running waiting_user failed failed_recoverable completed canceled : WorkflowRunStatus

pub data ToolCallStatus : Type 0 where
  running succeeded failed blocked : ToolCallStatus

pub data ApprovalRequestStatus : Type 0 where
  pending approved rejected expired canceled : ApprovalRequestStatus

pub record WorkflowRun : Type 0 where
  pub id : String
  pub workflow_type : String
  pub status : WorkflowRunStatus
  pub current_step : Option String
  pub user_goal : Option String
  pub related_job_id : Option String
  pub related_application_id : Option String
  pub approval_request_id : Option String
  pub completed_at : Option String

pub record WorkflowCheckpoint : Type 0 where
  pub id : String
  pub workflow_run_id : String
  pub checkpoint_key : String
  pub state : Fields

pub record ToolCallLog : Type 0 where
  pub id : String
  pub workflow_run_id : String
  pub tool_name : String
  pub tool_group : String
  pub status : ToolCallStatus
  pub input_payload : Option Fields
  pub output_payload : Option Fields
  pub error : Option String
  pub duration_ms : Option ℤ

pub record ApprovalRequest : Type 0 where
  pub id : String
  pub workflow_run_id : String
  pub application_id : Option String
  pub action_type : String
  pub status : ApprovalRequestStatus
  pub prompt : String
  pub payload : Option Fields
  pub decision : Option String
  pub decided_at : Option String
  pub expires_at : Option String

pub record WorkflowRunCreate : Type 0 where
  pub workflow_type : String
  pub current_step : Option String
  pub user_goal : Option String
  pub related_job_id : Option String
  pub related_application_id : Option String

pub record WorkflowCheckpointCreate : Type 0 where
  pub workflow_run_id : String
  pub checkpoint_key : String
  pub state : Fields

pub record ToolCallLogCreate : Type 0 where
  pub workflow_run_id : String
  pub tool_name : String
  pub tool_group : String
  pub status : ToolCallStatus
  pub input_payload : Option Fields
  pub output_payload : Option Fields
  pub error : Option String
  pub duration_ms : Option ℤ

pub record ApprovalRequestCreate : Type 0 where
  pub workflow_run_id : String
  pub application_id : Option String
  pub action_type : String
  pub prompt : String
  pub payload : Option Fields
  pub expires_at : Option String

pub record WorkflowStarted : Type 0 where
  pub workflow_run_id : String
  pub workflow_type : String
  pub occurred_at : String

pub record AutomationWaitingForUser : Type 0 where
  pub workflow_run_id : String
  pub approval_request_id : String
  pub action_type : String
  pub occurred_at : String

pub record WorkflowCheckpointSaved : Type 0 where
  pub workflow_run_id : String
  pub checkpoint_key : String
  pub occurred_at : String

-- An approval is inserted through the relationship to its run, which is one to one and deletes an
-- orphan: the insertion of a second approval of a run may delete the first, so no law says that it
-- keeps the other approvals. `none` is the IntegrityError of a row that the database refuses. An update that finds no row of
-- its key changes nothing.
pub record AutomationSession : Type 1 where
  pub State : Type 0
  pub get_run : State → String → Option WorkflowRun
  pub get_approval : State → String → Option ApprovalRequest
  pub insert_run : State → WorkflowRun → Option State
  pub insert_checkpoint : State → WorkflowCheckpoint → Option State
  pub insert_log : State → ToolCallLog → Option State
  pub insert_approval : State → ApprovalRequest → Option State
  pub update_run : State → WorkflowRun → State
  pub decide_where : State → String → ApprovalRequestStatus → String → String → State

-- An approval with the values of a decision.
abbrev pub decided : ApprovalRequestStatus → String → String → ApprovalRequest → ApprovalRequest
decided status decision decided_at approval = record approval {
  status = status;
  decision = some decision;
  decided_at = some decided_at;
}

abbrev pub decided_at_key :
    String
    → String
    → (ApprovalRequest → ApprovalRequest)
    → Option ApprovalRequest
    → Option ApprovalRequest
decided_at_key written k change none = none
decided_at_key written k change (some a) = if str_eq written k then some (change a) else some a

-- A row is found under its key with the values last written, and a write touches no other row and
-- no other table.
pub record IsLawful (D : AutomationSession) : Type 0 where
  pub get_run-id : (s : D.State) (k : String) {r : WorkflowRun} → D.get_run s k ≡ some r → r.id ≡ k
  pub get_approval-decide_where :
      (s : D.State) (i : String) (status : ApprovalRequestStatus) (decision at k : String)
      → D.get_approval (D.decide_where s i status decision at) k
        ≡ decided_at_key i k (decided status decision at) (D.get_approval s k)
  pub get_run-decide_where :
      (s : D.State) (i : String) (status : ApprovalRequestStatus) (decision at k : String)
      → D.get_run (D.decide_where s i status decision at) k ≡ D.get_run s k
  pub get_run-update_run :
      (s : D.State) (r : WorkflowRun) (k : String) {old : WorkflowRun}
      → D.get_run s r.id ≡ some old
      → D.get_run (D.update_run s r) k ≡ (if str_eq r.id k then some r else D.get_run s k)
  pub get_approval-update_run :
      (s : D.State) (r : WorkflowRun) (k : String)
      → D.get_approval (D.update_run s r) k ≡ D.get_approval s k
