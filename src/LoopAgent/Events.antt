-- ===== src/LoopAgent/Events.antt =====
-- loop_agent/events.py: what a run reports. The time stamp of an event is left out.
use offer_master.Prelude.{ℕ, String, Bool, true, false, Option}
use offer_master.Prelude.Json.{Fields}

pub data LoopAgentEventType : Type 0 where
  task_started turn_started model_decision tool_started : LoopAgentEventType
  tool_finished turn_finished waiting_user task_finished : LoopAgentEventType

pub record LoopAgentEvent : Type 0 where
  pub event_type : LoopAgentEventType
  pub session_id : Option String
  pub task_id : Option String
  pub run_id : Option String
  pub turn_index : Option ℕ
  pub step_index : Option ℕ
  pub capability : Option String
  pub tool_call_id : Option String
  pub status : Option String
  pub summary : Option String
  pub metadata : Fields

abbrev pub is_tool_started : LoopAgentEventType → Bool
is_tool_started LoopAgentEventType.tool_started = true
is_tool_started _ = false

abbrev pub is_tool_finished : LoopAgentEventType → Bool
is_tool_finished LoopAgentEventType.tool_finished = true
is_tool_finished _ = false

abbrev pub is_task_finished : LoopAgentEventType → Bool
is_task_finished LoopAgentEventType.task_finished = true
is_task_finished _ = false
