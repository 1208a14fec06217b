-- ===== src/DurableState/Schemas.antt =====
-- durable_state/schemas.py: the states of tasks and steps, and the commands with the checks that
-- their fields make. A negative `sequence_index` or `retry_count` is refused by `ge=0` in the
-- source and has no counterpart here.
use offer_master.Prelude.{ℕ, String, Bool, ◌&&◌, not, Option}
use offer_master.Prelude.Text.{is_empty}
use offer_master.Prelude.Json.{Fields}

pub data AgentTaskStatus : Type 0 where
  created planning running waiting_user succeeded failed canceled : AgentTaskStatus

pub data AgentStepStatus : Type 0 where
  pending running waiting_user succeeded failed skipped blocked : AgentStepStatus

pub data AgentMemoryVisibilityScope : Type 0 where
  runtime_only main_agent_only executor_safe : AgentMemoryVisibilityScope

pub data AgentArtifactSourceKind : Type 0 where
  result_envelope external_agent tool_result user_upload : AgentArtifactSourceKind

abbrev pub task_status_value : AgentTaskStatus → String
task_status_value created = "created"
task_status_value planning = "planning"
task_status_value AgentTaskStatus.running = "running"
task_status_value AgentTaskStatus.waiting_user = "waiting_user"
task_status_value AgentTaskStatus.succeeded = "succeeded"
task_status_value AgentTaskStatus.failed = "failed"
task_status_value canceled = "canceled"

abbrev pub step_status_value : AgentStepStatus → String
step_status_value pending = "pending"
step_status_value AgentStepStatus.running = "running"
step_status_value AgentStepStatus.waiting_user = "waiting_user"
step_status_value AgentStepStatus.succeeded = "succeeded"
step_status_value AgentStepStatus.failed = "failed"
step_status_value skipped = "skipped"
step_status_value blocked = "blocked"

pub record AgentTaskStateCreate : Type 0 where
  pub task_id : String
  pub root_workflow_run_id : String
  pub conversation_session_id : String
  pub task_type : String
  pub capability : String
  pub status : AgentTaskStatus
  pub current_step_id : Option String
  pub owner_executor : Option String
  pub user_goal : Option String
  pub input_payload : Fields
  pub output_payload : Fields

pub record AgentStepStateCreate : Type 0 where
  pub step_id : String
  pub task_id : String
  pub parent_step_id : Option String
  pub sequence_index : ℕ
  pub step_type : String
  pub status : AgentStepStatus
  pub executor_type : String
  pub executor_name : String
  pub capability : String
  pub input_payload : Fields
  pub output_payload : Fields
  pub tool_call_log_id : Option String
  pub external_task_id : Option String
  pub approval_request_id : Option String
  pub retry_count : ℕ

pub record AgentMemorySnapshotCreate : Type 0 where
  pub snapshot_id : String
  pub task_id : String
  pub step_id : Option String
  pub memory_id : String
  pub source_type : String
  pub usage_reason : String
  pub visibility_scope : AgentMemoryVisibilityScope
  pub passed_to_executor : Bool
  pub memory_payload : Fields

pub record AgentArtifactIndexCreate : Type 0 where
  pub artifact_id : String
  pub task_id : String
  pub step_id : Option String
  pub sequence_index : ℕ
  pub source_kind : AgentArtifactSourceKind
  pub artifact_type : String
  pub title : Option String
  pub uri : String
  pub mime_type : Option String
  pub artifact_metadata : Fields

-- `min_length=1`
abbrev given : String → Bool
given s = not (is_empty s)

abbrev pub task_command_ok : AgentTaskStateCreate → Bool
task_command_ok c =
    given c.task_id
    && given c.root_workflow_run_id
    && given c.conversation_session_id
    && given c.task_type
    && given c.capability

abbrev pub step_command_ok : AgentStepStateCreate → Bool
step_command_ok c =
    given c.step_id
    && given c.task_id
    && given c.step_type
    && given c.executor_type
    && given c.executor_name
    && given c.capability

abbrev pub snapshot_command_ok : AgentMemorySnapshotCreate → Bool
snapshot_command_ok c =
    given c.snapshot_id
    && given c.task_id
    && given c.memory_id
    && given c.source_type
    && given c.usage_reason

abbrev pub artifact_command_ok : AgentArtifactIndexCreate → Bool
artifact_command_ok c =
    given c.artifact_id && given c.task_id && given c.artifact_type && given c.uri
