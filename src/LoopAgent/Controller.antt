-- ===== src/LoopAgent/Controller.antt =====
-- loop_agent/controller.py: LoopAgentController.run. The two callbacks stand over an environment of
-- any type, which they may change; they return.
use offer_master.Prelude.{ℕ, zero, suc, Option, none, some, [], ◌∷◌}
use offer_master.Prelude.Json.{field, end, obj}
use offer_master.Prelude.Int.{ℤ, pos_part}
use offer_master.LoopAgent.Events.{LoopAgentEvent, LoopAgentEventType}
use offer_master.LoopAgent.Schemas.{
  LoopAgentAction, LoopAgentStopReason, LoopAgentDecision, decision_metadata,
}
use offer_master.LoopAgent.DeadLoopDetector.{ToolLoopIntervention, intervention_for}
pub use offer_master.LoopAgent.Outcomes.{
  Run, Loop, Turn, finished, continue, or_text, make_event, emit, turn_event, step_event, result_of,
  finish, final_turn, wait_turn, replan_turn, stop_turn, dead_loop_turn, trace_entry, start_event,
  done_event, over_event, started, observed, user_turn, failed_turn, after_step,
}

module _ {E : Type 0} (run : Run E) where
  unfoldable pub execute_turn : ℕ → Loop E → LoopAgentDecision → Turn E
  execute_turn iteration loop decision =
      let begun = started run iteration loop decision in
      let (observation, environment) = run.execute_step begun.environment decision in
      let over =
        observed run iteration (record begun { environment = environment }) decision observation in
      after_step run iteration over decision observation

  abbrev guard_turn : ℕ → Loop E → LoopAgentDecision → Option ToolLoopIntervention → Turn E
  guard_turn iteration loop decision (some intervention) =
      dead_loop_turn run loop decision intervention
  guard_turn iteration loop decision none = execute_turn iteration loop decision

  module _ (limit : ℕ) where
    unfoldable pub act : LoopAgentAction → ℕ → Loop E → LoopAgentDecision → Turn E
    act LoopAgentAction.final_answer iteration loop decision = final_turn run loop decision
    act LoopAgentAction.wait_user iteration loop decision = wait_turn run iteration loop decision
    act LoopAgentAction.replan iteration loop decision = replan_turn run loop decision
    act LoopAgentAction.stop iteration loop decision = stop_turn run loop decision
    act LoopAgentAction.call_tool iteration loop decision =
        guard_turn iteration loop decision
          (intervention_for limit decision loop.executed_action_keys)

    abbrev decision_event : ℕ → LoopAgentDecision → LoopAgentEvent
    decision_event iteration decision =
        record (turn_event run LoopAgentEventType.model_decision iteration "decided") {
          capability = decision.capability;
          summary = or_text decision.reason decision.message;
          metadata = field "decision" (obj (decision_metadata decision)) end;
        }

    abbrev decided : ℕ → Loop E → LoopAgentDecision → Turn E
    decided iteration loop decision =
        act decision.action iteration
          (emit run (record loop { next_decision = none }) (decision_event iteration decision))
          decision

    -- `next_decision or decide_next_step(trace)`
    abbrev choose : ℕ → Loop E → Option LoopAgentDecision → Turn E
    choose iteration loop (some decision) = decided iteration loop decision
    choose iteration loop none =
        let (decision, environment) = run.decide_next_step loop.environment loop.trace in
        decided iteration (record loop { environment = environment }) decision

    -- One round of the `for` loop.
    unfoldable pub turn : ℕ → Loop E → Turn E
    turn iteration loop =
        choose iteration
          (emit run loop (turn_event run LoopAgentEventType.turn_started iteration "running"))
          loop.next_decision

    abbrev exhausted : Loop E → Turn E
    exhausted loop =
        finish run loop (result_of run LoopAgentStopReason.budget_exhausted loop loop.next_decision)
          "budget_exhausted" none

    -- The rounds that are left, from the given iteration on.
    unfoldable pub turns : ℕ → ℕ → Loop E → Turn E
    turns zero iteration loop = exhausted loop
    turns (suc left) iteration loop = elim (turn iteration loop) [
      | finished result environment ↦ finished result environment
      | continue loop' ↦ turns left (suc iteration) loop'
    ]

    abbrev pub opened : E → Loop E
    opened environment = record {
      trace = [];
      events =
          record (make_event run LoopAgentEventType.task_started) { status = some "running" } ∷ [];
      next_decision = none;
      executed_action_keys = [];
      environment = environment;
    }

    unfoldable pub run_loop : ℤ → E → Turn E
    run_loop max_steps environment = turns (pos_part max_steps) 1 (opened environment)
