-- ===== src/DurableState/Models.antt =====
-- durable_state/models.py: the rows. The columns `created_at` and `updated_at`, which the database
-- layer fills and no operation of the service reads, are left out.
use offer_master.Prelude.{ℕ, String, Bool, Option}
use offer_master.Prelude.Json.{Fields}
use offer_master.DurableState.Schemas.{
  AgentTaskStatus, AgentStepStatus, AgentMemoryVisibilityScope, AgentArtifactSourceKind,
}

-- A time stamp, as the clock gives it.
abbrev pub Time : Type 0
Time = ℕ

pub record AgentTaskState : Type 0 where
  pub id : String
  pub root_workflow_run_id : String
  pub conversation_session_id : String
  pub task_type : String
  pub capability : String
  pub status : AgentTaskStatus
  pub current_step_id : Option String
  pub owner_executor : Option String
  pub user_goal : Option String
  pub input_payload : Fields
  pub output_payload : Fields
  pub completed_at : Option Time

pub record AgentStepState : Type 0 where
  pub id : String
  pub task_id : String
  pub parent_step_id : Option String
  pub sequence_index : ℕ
  pub step_type : String
  pub status : AgentStepStatus
  pub executor_type : String
  pub executor_name : String
  pub capability : String
  pub input_payload : Fields
  pub output_payload : Fields
  pub tool_call_log_id : Option String
  pub external_task_id : Option String
  pub approval_request_id : Option String
  pub retry_count : ℕ
  pub started_at : Option Time
  pub completed_at : Option Time

pub record AgentMemorySnapshot : Type 0 where
  pub id : String
  pub task_id : String
  pub step_id : Option String
  pub memory_id : String
  pub source_type : String
  pub usage_reason : String
  pub visibility_scope : AgentMemoryVisibilityScope
  pub passed_to_executor : Bool
  pub memory_payload : Fields

pub record AgentArtifactIndex : Type 0 where
  pub id : String
  pub task_id : String
  pub step_id : Option String
  pub sequence_index : ℕ
  pub source_kind : AgentArtifactSourceKind
  pub artifact_type : String
  pub title : Option String
  pub uri : String
  pub mime_type : Option String
  pub artifact_metadata : Fields

-- external_tasks/models.py: an artifact that an external agent left for its task.
pub record ExternalAgentArtifact : Type 0 where
  pub id : String
  pub task_id : String
  pub artifact_type : String
  pub path_or_uri : String
  pub mime_type : Option String
  pub artifact_metadata : Option Fields
