-- ===== src/LoopAgent/Closing.antt =====
-- A run that is closed, and how the closing event closes a run that was steady.
use offer_master.Prelude.{
  ℕ, ◌≤◌, ◌≡◌, refl, ◌∙◌, ap, String, Bool, true, false, Option, none, some, List, [], ◌∷◌, ◌++◌,
  arith, length,
}
use offer_master.LoopAgent.Events.{
  LoopAgentEvent, LoopAgentEventType, is_tool_finished, is_task_finished,
}
use offer_master.LoopAgent.Schemas.{LoopAgentStopReason, LoopAgentTraceEntry, LoopAgentRunResult}
use offer_master.LoopAgent.DeadLoopDetector.{count}
use offer_master.LoopAgent.Steady.{
  Steady, started_keys, count_events, snoc_miss, snoc_hit, snoc_quiet_keys,
}

abbrev pub final_status : LoopAgentStopReason → String
final_status LoopAgentStopReason.model_final = "succeeded"
final_status LoopAgentStopReason.waiting_user = "waiting_user"
final_status LoopAgentStopReason.budget_exhausted = "budget_exhausted"
final_status LoopAgentStopReason.replan_required = "replan_required"
final_status LoopAgentStopReason.stopped = "stopped"
final_status LoopAgentStopReason.step_failed = "failed"

abbrev pub waits : LoopAgentStopReason → Bool
waits LoopAgentStopReason.waiting_user = true
waits _ = false

abbrev pub last_status : List LoopAgentEvent → Option String
last_status [] = none
last_status (e ∷ []) = e.status
last_status (e ∷ f ∷ events) = last_status (f ∷ events)

-- A closed run of at most `total` turns.
pub record Closed (limit total : ℕ) (result : LoopAgentRunResult) : Type 0 where
  pub within : length result.trace ≤ total
  pub called : length (started_keys result.events) ≡ length result.trace
  pub completed : count_events is_tool_finished result.events ≡ length result.trace
  pub bounded : (k : String) → count k (started_keys result.events) ≤ limit
  pub closed_once : count_events is_task_finished result.events ≡ 1
  pub last_event : last_status result.events ≡ some (final_status result.stop_reason)
  pub asks : result.requires_user_action ≡ waits result.stop_reason
  pub spent :
      result.stop_reason ≡ LoopAgentStopReason.budget_exhausted → length result.trace ≡ total

pub last_status-snoc :
    (events : List LoopAgentEvent) (e : LoopAgentEvent) → last_status (events ++ e ∷ []) ≡ e.status
last_status-snoc [] e = refl
last_status-snoc (x ∷ []) e = refl
last_status-snoc (x ∷ y ∷ events) e = last_status-snoc (y ∷ events) e

-- The closing event of a run that stops for a reason.
pub close-Closed :
    {limit n : ℕ} {trace : List LoopAgentTraceEntry} {events : List LoopAgentEvent}
    {keys : List String} (total : ℕ) (result : LoopAgentRunResult) (e : LoopAgentEvent)
    → Steady limit n trace events keys
    → n ≤ total
    → result.trace ≡ trace
    → result.events ≡ events ++ e ∷ []
    → e.event_type ≡ LoopAgentEventType.task_finished
    → e.status ≡ some (final_status result.stop_reason)
    → result.requires_user_action ≡ waits result.stop_reason
    → (result.stop_reason ≡ LoopAgentStopReason.budget_exhausted → n ≡ total)
    → Closed limit total result
close-Closed {events} total result e st fits same_trace same_events type status asks spent =
    let keyed : started_keys result.events ≡ _ =
      ap started_keys same_events ∙ snoc_quiet_keys events e (rw type) ∙ st.keyed in
    record {
      within = rw same_trace (omega (arith, st.traced));
      called = ap length keyed ∙ rw same_trace (omega (arith, st.traced, st.called));
      completed =
          rw (same_events, same_trace)
            (snoc_miss is_tool_finished events e (rw type)
              ∙ omega (arith, st.traced, st.completed));
      bounded = λ k. rw keyed (st.bounded k);
      closed_once =
          rw same_events
            (snoc_hit is_task_finished events e (rw type) ∙ omega (arith, st.unclosed));
      last_event = rw same_events (last_status-snoc events e ∙ status);
      asks = asks;
      spent = λ exhausted. rw same_trace (omega (arith, st.traced, spent exhausted));
    }

abbrev pub is_exhausted : LoopAgentStopReason → Bool
is_exhausted LoopAgentStopReason.budget_exhausted = true
is_exhausted _ = false

not_spent :
    (reason : LoopAgentStopReason) {n total : ℕ}
    → is_exhausted reason ≡ false
    → reason ≡ LoopAgentStopReason.budget_exhausted
    → n ≡ total
not_spent reason early spent = cc (ap is_exhausted spent)

-- The same for a reason other than the budget.
pub stop-Closed :
    {limit n : ℕ} {trace : List LoopAgentTraceEntry} {events : List LoopAgentEvent}
    {keys : List String} (total : ℕ) (result : LoopAgentRunResult) (e : LoopAgentEvent)
    → Steady limit n trace events keys
    → n ≤ total
    → result.trace ≡ trace
    → result.events ≡ events ++ e ∷ []
    → e.event_type ≡ LoopAgentEventType.task_finished
    → e.status ≡ some (final_status result.stop_reason)
    → result.requires_user_action ≡ waits result.stop_reason
    → is_exhausted result.stop_reason ≡ false
    → Closed limit total result
stop-Closed total result e st fits same_trace same_events type status asks early =
    close-Closed total result e st fits same_trace same_events type status asks
      (not_spent result.stop_reason early)
