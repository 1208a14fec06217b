-- ===== src/LoopAgent/OuterSession.antt =====
-- loop_agent/outer_session.py: one active task for each session, over the runs of the inner loop.
-- The inner loop is a callback over an environment of any type; it returns and leaves the store
-- alone. The identifiers that uuid4 makes are given. A state of the store is one object, which the
-- methods change and save again; here the changed state is saved.
pub mod Handling
pub mod Reachable
mod Examples
use offer_master.Prelude.{
  ℕ, suc, ◌-◌, ◌<◌, String, ◌<>◌, Bool, true, false, ◌||◌, Option, none, some, List, [], ◌∷◌, ◌++◌,
  ltb, str_eq, get_last?, if◌then◌else◌, or_else,
}
use offer_master.Prelude.Text.{is_empty, strip}
use offer_master.Prelude.Json.{Json, null, str, arr, nil, obj, Fields, field, end, insert, opt_str}
use offer_master.Prelude.Dict.{fetch, put}
use offer_master.LoopAgent.Events.{LoopAgentEvent}
use offer_master.LoopAgent.Schemas.{
  LoopAgentStopReason, LoopAgentDecision, LoopAgentTraceEntry, LoopAgentRunResult,
  decision_metadata, executed_step_count, stop_reason_value, count_json, trace_items,
}

pub data OuterSessionStatus : Type 0 where
  running waiting_user finished failed : OuterSessionStatus

pub record OuterSessionRunRequest : Type 0 where
  pub session_id : String
  pub task_id : String
  pub run_id : String
  pub user_goal : String
  pub user_message : String
  pub is_resume : Bool
  pub turn_index : ℕ
  pub resume_context : Fields

pub record OuterSessionState : Type 0 where
  pub session_id : String
  pub active_task_id : String
  pub user_goal : String
  pub status : OuterSessionStatus
  pub run_count : ℕ
  pub active_run_id : Option String
  pub waiting_message : Option String
  pub pending_decision : Option LoopAgentDecision
  pub last_inner_result : Option LoopAgentRunResult
  pub user_followups : List String
  pub events : List LoopAgentEvent
  pub metadata : Fields

pub record OuterSessionTurnResult : Type 0 where
  pub status : OuterSessionStatus
  pub session_id : String
  pub task_id : String
  pub run_id : String
  pub inner_result : LoopAgentRunResult
  pub final_answer : Option String
  pub waiting_message : Option String
  pub requires_user_action : Bool
  pub events : List LoopAgentEvent
  pub metadata : Fields

abbrev pub Store : Type 0
Store = List (String × OuterSessionState)

abbrev pub is_waiting : OuterSessionStatus → Bool
is_waiting OuterSessionStatus.waiting_user = true
is_waiting _ = false

-- `str(value or "").strip() or None`
abbrev non_empty_text : String → Option String
non_empty_text text = if is_empty text then none else some text

unfoldable pub non_empty : Option String → Option String
non_empty none = none
non_empty (some text) = non_empty_text (strip text)

abbrev pub is_running : OuterSessionStatus → Bool
is_running OuterSessionStatus.running = true
is_running _ = false

abbrev pub new_state : String → String → String → ℕ → OuterSessionState
new_state session_id task_id user_goal run_count = record {
  session_id = session_id;
  active_task_id = task_id;
  user_goal = user_goal;
  status = OuterSessionStatus.running;
  run_count = run_count;
  active_run_id = none;
  waiting_message = none;
  pending_decision = none;
  last_inner_result = none;
  user_followups = [];
  events = [];
  metadata = end;
}

abbrev pending_json : Option LoopAgentDecision → Json
pending_json none = null
pending_json (some decision) = obj (decision_metadata decision)

abbrev previous_reason : Option LoopAgentRunResult → Json
previous_reason none = null
previous_reason (some result) = str (stop_reason_value result.stop_reason)

abbrev previous_trace : Option LoopAgentRunResult → Json
previous_trace none = arr nil
previous_trace (some result) = arr (trace_items result.trace)

abbrev pub resume_context : OuterSessionState → Fields
resume_context state = field "waiting_message" (opt_str state.waiting_message) (
    field "pending_decision" (pending_json state.pending_decision) (
      field "previous_stop_reason" (previous_reason state.last_inner_result)
        (field "previous_trace" (previous_trace state.last_inner_result) end)))

abbrev same_task : Option String → String → Bool
same_task none active = false
same_task (some task_id) active = str_eq active task_id

-- A session that waits goes on with its task, whatever task the message names; so does a session
-- whose task the message names. `task_uuid` is for a task that is new.
abbrev pub state_for_message :
    Option OuterSessionState → String → String → Option String → String → OuterSessionState
state_for_message none session_id user_message task_id task_uuid =
    new_state session_id (or_else (non_empty task_id) ("outer-task-" <> task_uuid)) user_message 0
state_for_message (some state) session_id user_message task_id task_uuid =
    if is_waiting state.status || same_task (non_empty task_id) state.active_task_id
    then state
    else new_state session_id (or_else (non_empty task_id) ("outer-task-" <> task_uuid))
        user_message 0

abbrev pub begun : OuterSessionState → String → String → OuterSessionState
begun state user_message run_id = record state {
  user_followups =
      if is_waiting state.status
      then state.user_followups ++ user_message ∷ []
      else state.user_followups;
  status = OuterSessionStatus.running;
  run_count = suc state.run_count;
  active_run_id = some run_id;
  waiting_message = none;
  pending_decision = none;
}

abbrev pub request_of : OuterSessionState → String → String → String → OuterSessionRunRequest
request_of state session_id user_message run_id = record {
  session_id = session_id;
  task_id = state.active_task_id;
  run_id = run_id;
  user_goal = state.user_goal;
  user_message = user_message;
  is_resume = is_waiting state.status;
  turn_index = suc state.run_count;
  resume_context = if is_waiting state.status then resume_context state else end;
}

-- What a message comes with, and the texts that uuid4 gives for it.
pub record Message : Type 0 where
  pub session_id : String
  pub user_message : String
  pub task_id : Option String
  pub run_id : Option String
  pub task_uuid : String
  pub run_uuid : String

abbrev pub run_id_of : Message → String
run_id_of m = or_else (non_empty m.run_id) ("outer-run-" <> m.run_uuid)

abbrev pub addressed : Store → Message → OuterSessionState
addressed store m =
    state_for_message (fetch m.session_id store) m.session_id m.user_message m.task_id m.task_uuid

-- The store is keyed by the state's own session.
abbrev pub save : Store → OuterSessionState → Store
save store state = put state.session_id state store

unfoldable pub begin_user_message : Store → Message → OuterSessionRunRequest × Store
begin_user_message store m =
    let state = addressed store m in
    (
      request_of state m.session_id m.user_message (run_id_of m),
      save store (begun state m.user_message (run_id_of m)),
    )

abbrev status_of_reason : LoopAgentStopReason → OuterSessionStatus
status_of_reason LoopAgentStopReason.waiting_user = OuterSessionStatus.waiting_user
status_of_reason LoopAgentStopReason.model_final = OuterSessionStatus.finished
status_of_reason LoopAgentStopReason.stopped = OuterSessionStatus.finished
status_of_reason _ = OuterSessionStatus.failed

abbrev pub outer_status_from_inner_result : LoopAgentRunResult → OuterSessionStatus
outer_status_from_inner_result result =
    if result.requires_user_action
    then OuterSessionStatus.waiting_user
    else status_of_reason result.stop_reason

abbrev first_text : Option String → Option String → Option String
first_text none b = b
first_text (some a) b = some a

abbrev last_summary : Option LoopAgentTraceEntry → Option String
last_summary none = none
last_summary (some entry) = non_empty entry.observation_summary

abbrev message_of : Option LoopAgentDecision → List LoopAgentTraceEntry → Option String
message_of none trace = last_summary (get_last? trace)
message_of (some decision) trace =
    first_text (non_empty decision.message) (non_empty decision.reason)

abbrev pub waiting_message : LoopAgentRunResult → Option String
waiting_message result = message_of result.pending_decision result.trace

abbrev pub message_if_waiting : LoopAgentRunResult → Option String
message_if_waiting result =
    if is_waiting (outer_status_from_inner_result result) then waiting_message result else none

abbrev pub applied : OuterSessionState → LoopAgentRunResult → OuterSessionState
applied state result = record state {
  status = outer_status_from_inner_result result;
  waiting_message = message_if_waiting result;
  pending_decision = result.pending_decision;
  last_inner_result = some result;
  events = state.events ++ result.events;
  metadata =
      insert "last_executed_step_count" (count_json (executed_step_count result))
        (insert "last_stop_reason" (str (stop_reason_value result.stop_reason)) state.metadata);
}

abbrev pub turn_result : OuterSessionState → LoopAgentRunResult → OuterSessionTurnResult
turn_result state result = record {
  status = outer_status_from_inner_result result;
  session_id = state.session_id;
  task_id = state.active_task_id;
  run_id = or_else state.active_run_id "";
  inner_result = result;
  final_answer = result.final_answer;
  waiting_message = message_if_waiting result;
  requires_user_action = is_waiting (outer_status_from_inner_result result);
  events = result.events;
  metadata =
      field "run_count" (count_json state.run_count)
        (field "stop_reason" (str (stop_reason_value result.stop_reason)) end);
}

-- The state that a result is for: the stored one, unless it is gone or has another task by now.
abbrev pub owner_state : Option OuterSessionState → OuterSessionRunRequest → OuterSessionState
owner_state none request =
    new_state request.session_id request.task_id request.user_goal (request.turn_index - 1)
owner_state (some state) request =
    if str_eq state.active_task_id request.task_id
    then state
    else new_state request.session_id request.task_id request.user_goal (request.turn_index - 1)

abbrev pub counted : OuterSessionState → OuterSessionRunRequest → OuterSessionState
counted state request = record state {
  active_run_id = some request.run_id;
  run_count =
      if ltb state.run_count request.turn_index then request.turn_index else state.run_count;
}

unfoldable pub complete_turn :
    Store → OuterSessionRunRequest → LoopAgentRunResult → OuterSessionTurnResult × Store
complete_turn store request result =
    let state = counted (owner_state (fetch request.session_id store) request) request in
    (turn_result (applied state result) result, save store (applied state result))

unfoldable pub handle_user_message :
    {E : Type 0}
    → (E → OuterSessionRunRequest → LoopAgentRunResult × E)
    → Store
    → E
    → Message
    → OuterSessionTurnResult × Store × E
handle_user_message run_inner_loop store environment m =
    let (request, opened) = begin_user_message store m in
    let (inner_result, environment') = run_inner_loop environment request in
    let (turn, closed) = complete_turn opened request inner_result in (turn, closed, environment')
