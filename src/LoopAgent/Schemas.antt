-- ===== src/LoopAgent/Schemas.antt =====
-- loop_agent/schemas.py: decisions, observations, the trace and the result of a run.
use offer_master.Prelude.{ℕ, suc, String, Bool, Option, none, some, List, [], ◌∷◌, ltb}
use offer_master.Prelude.Text.{show}
use offer_master.Prelude.Json.{
  Json, null, bool, num, str, obj, Items, nil, cons, Fields, field, end, opt_str,
}
use offer_master.LoopAgent.Events.{LoopAgentEvent}

pub data LoopAgentAction : Type 0 where
  call_tool final_answer wait_user replan stop : LoopAgentAction

pub data LoopAgentStopReason : Type 0 where
  model_final waiting_user budget_exhausted replan_required stopped step_failed :
      LoopAgentStopReason

abbrev pub action_value : LoopAgentAction → String
action_value call_tool = "call_tool"
action_value final_answer = "final_answer"
action_value wait_user = "wait_user"
action_value replan = "replan"
action_value stop = "stop"

pub record LoopAgentDecision : Type 0 where
  pub action : LoopAgentAction
  pub capability : Option String
  pub tool_input : Fields
  pub message : Option String
  pub reason : Option String
  pub metadata : Fields

abbrev pub decision_metadata : LoopAgentDecision → Fields
decision_metadata d = field "action" (str (action_value d.action)) (
    field "capability" (opt_str d.capability) (
      field "tool_input" (obj d.tool_input) (
        field "message" (opt_str d.message)
          (field "reason" (opt_str d.reason) (field "metadata" (obj d.metadata) end)))))

pub record LoopAgentObservation : Type 0 where
  pub status : String
  pub summary : String
  pub result_payload : Fields
  pub requires_user_action : Bool
  pub tool_call_id : Option String
  pub metadata : Fields
  pub suggested_next_decision : Option LoopAgentDecision

abbrev suggestion : Option LoopAgentDecision → Json
suggestion none = null
suggestion (some d) = obj (decision_metadata d)

abbrev pub observation_metadata : LoopAgentObservation → Fields
observation_metadata o = field "status" (str o.status) (
    field "summary" (str o.summary) (
      field "requires_user_action" (bool o.requires_user_action) (
        field "tool_call_id" (opt_str o.tool_call_id) (
          field "metadata" (obj o.metadata)
            (field "suggested_next_decision" (suggestion o.suggested_next_decision) end)))))

pub record LoopAgentTraceEntry : Type 0 where
  pub iteration : ℕ
  pub action : LoopAgentAction
  pub capability : Option String
  pub decision_reason : Option String
  pub observation_status : Option String
  pub observation_summary : Option String
  pub tool_call_id : Option String
  pub metadata : Fields

pub record LoopAgentRunResult : Type 0 where
  pub stop_reason : LoopAgentStopReason
  pub trace : List LoopAgentTraceEntry
  pub final_answer : Option String
  pub pending_decision : Option LoopAgentDecision
  pub requires_user_action : Bool
  pub metadata : Fields
  pub events : List LoopAgentEvent

abbrev count_call : LoopAgentAction → ℕ → ℕ
count_call call_tool n = suc n
count_call _ n = n

abbrev count_calls : List LoopAgentTraceEntry → ℕ
count_calls [] = 0
count_calls (entry ∷ trace) = count_call entry.action (count_calls trace)

abbrev pub executed_step_count : LoopAgentRunResult → ℕ
executed_step_count result = count_calls result.trace

abbrev pub stop_reason_value : LoopAgentStopReason → String
stop_reason_value model_final = "model_final"
stop_reason_value waiting_user = "waiting_user"
stop_reason_value budget_exhausted = "budget_exhausted"
stop_reason_value replan_required = "replan_required"
stop_reason_value stopped = "stopped"
stop_reason_value step_failed = "step_failed"

abbrev pub count_json : ℕ → Json
count_json n = num (ltb 0 n) (show n)

abbrev pub trace_metadata : LoopAgentTraceEntry → Fields
trace_metadata entry = field "iteration" (count_json entry.iteration) (
    field "action" (str (action_value entry.action)) (
      field "capability" (opt_str entry.capability) (
        field "decision_reason" (opt_str entry.decision_reason) (
          field "observation_status" (opt_str entry.observation_status) (
            field "observation_summary" (opt_str entry.observation_summary) (
              field "tool_call_id" (opt_str entry.tool_call_id)
                (field "metadata" (obj entry.metadata) end)))))))

abbrev pub trace_items : List LoopAgentTraceEntry → Items
trace_items [] = nil
trace_items (entry ∷ trace) = cons (obj (trace_metadata entry)) (trace_items trace)
