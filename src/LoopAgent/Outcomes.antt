-- ===== src/LoopAgent/Outcomes.antt =====
-- loop_agent/controller.py: the state of a run, the events that it reports and the ways in which a
-- turn ends. The event sink gets each event as it is appended, so what it has seen is the list of
-- events.
use offer_master.Prelude.{
  ℕ, String, true, false, ◌||◌, Option, none, some, List, [], ◌∷◌, ◌++◌, str_eq, if◌then◌else◌,
}
use offer_master.Prelude.Text.{is_empty}
use offer_master.Prelude.Json.{field, end, obj, get, truthy}
use offer_master.LoopAgent.Events.{LoopAgentEvent, LoopAgentEventType}
use offer_master.LoopAgent.Schemas.{
  LoopAgentStopReason, LoopAgentDecision, LoopAgentObservation, LoopAgentTraceEntry,
  LoopAgentRunResult, observation_metadata,
}
use offer_master.LoopAgent.DeadLoopDetector.{
  ToolLoopIntervention, intervention_metadata, action_key,
}

-- The callbacks and the identifiers that a run is given.
pub record Run (E : Type 0) : Type 0 where
  pub decide_next_step : E → List LoopAgentTraceEntry → LoopAgentDecision × E
  pub execute_step : E → LoopAgentDecision → LoopAgentObservation × E
  pub session_id : Option String
  pub task_id : Option String
  pub run_id : Option String

-- The variables of the loop.
pub record Loop (E : Type 0) : Type 0 where
  pub trace : List LoopAgentTraceEntry
  pub events : List LoopAgentEvent
  pub next_decision : Option LoopAgentDecision
  pub executed_action_keys : List String
  pub environment : E

-- A turn ends the run with a result, or goes on to the next turn.
pub data Turn (E : Type 0) : Type 0 where
  finished : LoopAgentRunResult → E → Turn E
  continue : Loop E → Turn E

-- `a or b` of two optional texts, where an empty text is false.
abbrev pub or_text : Option String → Option String → Option String
or_text none b = b
or_text (some a) b = if is_empty a then b else some a

module _ {E : Type 0} (run : Run E) where
  abbrev pub make_event : LoopAgentEventType → LoopAgentEvent
  make_event event_type = record {
    event_type = event_type;
    session_id = run.session_id;
    task_id = run.task_id;
    run_id = run.run_id;
    turn_index = none;
    step_index = none;
    capability = none;
    tool_call_id = none;
    status = none;
    summary = none;
    metadata = end;
  }

  abbrev pub emit : Loop E → LoopAgentEvent → Loop E
  emit loop event = record loop { events = loop.events ++ event ∷ [] }

  -- The event of a turn, with its status.
  abbrev pub turn_event : LoopAgentEventType → ℕ → String → LoopAgentEvent
  turn_event event_type iteration status = record (make_event event_type) {
    turn_index = some iteration;
    status = some status;
  }

  abbrev pub step_event :
      LoopAgentEventType → ℕ → LoopAgentDecision → String → Option String → LoopAgentEvent
  step_event event_type iteration decision status summary =
      record (turn_event event_type iteration status) {
        step_index = some iteration;
        capability = decision.capability;
        summary = summary;
      }

  abbrev pub result_of :
      LoopAgentStopReason → Loop E → Option LoopAgentDecision → LoopAgentRunResult
  result_of stop_reason loop pending = record {
    stop_reason = stop_reason;
    trace = loop.trace;
    final_answer = none;
    pending_decision = pending;
    requires_user_action = false;
    metadata = end;
    events = [];
  }

  -- The result takes all events, the closing one included.
  abbrev pub finish : Loop E → LoopAgentRunResult → String → Option String → Turn E
  finish loop result status summary =
      let closed = emit loop (record (make_event LoopAgentEventType.task_finished) {
        status = some status;
        summary = summary;
      }) in
      finished (record result { events = closed.events }) loop.environment

  abbrev pub final_turn : Loop E → LoopAgentDecision → Turn E
  final_turn loop decision =
      finish loop
        (record (result_of LoopAgentStopReason.model_final loop (some decision)) {
          final_answer = decision.message;
        })
        "succeeded" decision.message

  abbrev pub wait_turn : ℕ → Loop E → LoopAgentDecision → Turn E
  wait_turn iteration loop decision =
      let summary = or_text decision.message decision.reason in
      finish
        (emit loop (record (turn_event LoopAgentEventType.waiting_user iteration "waiting_user") {
          capability = decision.capability;
          summary = summary;
        }))
        (record (result_of LoopAgentStopReason.waiting_user loop (some decision)) {
          requires_user_action = true;
        })
        "waiting_user" summary

  abbrev pub replan_turn : Loop E → LoopAgentDecision → Turn E
  replan_turn loop decision =
      finish loop (result_of LoopAgentStopReason.replan_required loop (some decision))
        "replan_required" decision.reason

  abbrev pub stop_turn : Loop E → LoopAgentDecision → Turn E
  stop_turn loop decision =
      finish loop
        (record (result_of LoopAgentStopReason.stopped loop (some decision)) {
          final_answer = decision.message;
        })
        "stopped" (or_text decision.message decision.reason)

  abbrev pub dead_loop_turn : Loop E → LoopAgentDecision → ToolLoopIntervention → Turn E
  dead_loop_turn loop decision intervention =
      finish loop
        (record (result_of LoopAgentStopReason.replan_required loop (some decision)) {
          metadata = field "loop_intervention" (obj (intervention_metadata intervention)) end;
        })
        "replan_required" (some intervention.reason)

  abbrev pub trace_entry : ℕ → LoopAgentDecision → LoopAgentObservation → LoopAgentTraceEntry
  trace_entry iteration decision observation = record {
    iteration = iteration;
    action = decision.action;
    capability = decision.capability;
    decision_reason = decision.reason;
    observation_status = some observation.status;
    observation_summary = some observation.summary;
    tool_call_id = observation.tool_call_id;
    metadata =
        field "decision" (obj decision.metadata)
          (field "observation" (obj (observation_metadata observation)) end);
  }

  abbrev pub start_event : ℕ → LoopAgentDecision → LoopAgentEvent
  start_event iteration decision =
      record (step_event LoopAgentEventType.tool_started iteration decision "running"
        decision.reason) { metadata = field "tool_input" (obj decision.tool_input) end }

  abbrev pub done_event : ℕ → LoopAgentDecision → LoopAgentObservation → LoopAgentEvent
  done_event iteration decision observation =
      record (step_event LoopAgentEventType.tool_finished iteration decision observation.status
        (some observation.summary)) {
          tool_call_id = observation.tool_call_id;
          metadata = observation_metadata observation;
        }

  abbrev pub over_event : ℕ → LoopAgentDecision → LoopAgentObservation → LoopAgentEvent
  over_event iteration decision observation =
      record (step_event LoopAgentEventType.turn_finished iteration decision observation.status
        (some observation.summary)) { tool_call_id = observation.tool_call_id }

  -- The key is recorded and the start is reported before the step is executed.
  abbrev pub started : ℕ → Loop E → LoopAgentDecision → Loop E
  started iteration loop decision =
      emit
        (record loop {
          executed_action_keys = loop.executed_action_keys ++ action_key decision ∷ [];
        })
        (start_event iteration decision)

  -- The end is reported, the trace grows by one entry, and the turn is closed.
  abbrev pub observed : ℕ → Loop E → LoopAgentDecision → LoopAgentObservation → Loop E
  observed iteration loop decision observation =
      let seen = emit loop (done_event iteration decision observation) in
      emit (record seen { trace = seen.trace ++ trace_entry iteration decision observation ∷ [] })
        (over_event iteration decision observation)

  abbrev pub user_turn : ℕ → Loop E → LoopAgentDecision → LoopAgentObservation → Turn E
  user_turn iteration loop decision observation =
      finish
        (emit loop
          (record (step_event LoopAgentEventType.waiting_user iteration decision "waiting_user"
            (some observation.summary)) { tool_call_id = observation.tool_call_id }))
        (record (result_of LoopAgentStopReason.waiting_user loop (some decision)) {
          requires_user_action = true;
        })
        "waiting_user" (some observation.summary)

  abbrev pub failed_turn : Loop E → LoopAgentDecision → LoopAgentObservation → Turn E
  failed_turn loop decision observation =
      finish loop (result_of LoopAgentStopReason.step_failed loop (some decision)) "failed"
        (some observation.summary)

  -- What follows the execution: waiting, a failure that is not recoverable, or the next turn with
  -- the decision that the observation suggests.
  abbrev pub after_step : ℕ → Loop E → LoopAgentDecision → LoopAgentObservation → Turn E
  after_step iteration loop decision observation =
      if observation.requires_user_action || str_eq observation.status "waiting_user"
      then user_turn iteration loop decision observation
      else if str_eq observation.status "failed"
      then if truthy (get "recoverable" observation.metadata)
        then continue (record loop { next_decision = observation.suggested_next_decision })
        else failed_turn loop decision observation
      else continue (record loop { next_decision = observation.suggested_next_decision })
