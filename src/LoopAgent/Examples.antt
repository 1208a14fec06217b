-- ===== src/LoopAgent/Examples.antt =====
-- Tests of the controller's loop on one run, whose model asks for the same call in every turn.
use offer_master.Prelude.Text.{join, str_leb, show}
use offer_master.Prelude.Sort.{sorted, insert_sorted}
use offer_master.Prelude.JsonText.{dumps, quote}
use offer_master.Prelude.{ℕ, str_eq, suc, ◌≡◌, refl, false, Option, none, some}
use offer_master.Prelude.Json.{get, end, field, str}
use offer_master.Prelude.Int.{pos, pos_part}
use offer_master.LoopAgent.Schemas.{
  LoopAgentAction, LoopAgentStopReason, LoopAgentDecision, LoopAgentObservation,
}
use offer_master.LoopAgent.DeadLoopDetector.{max_repeated_calls, intervention_for, key_of}
use offer_master.LoopAgent.Controller.{
  Run, Turn, finished, continue, execute_turn, act, turn, turns, run_loop,
}
use offer_master.LoopAgent.Runs.{Ends, run_loop_closes}

abbrev search_again : LoopAgentDecision
search_again = record {
  action = LoopAgentAction.call_tool;
  capability = some "job.search";
  tool_input = field "city" (str "Berlin") end;
  message = none;
  reason = some "look for jobs";
  metadata = end;
}

abbrev nothing_found : LoopAgentObservation
nothing_found = record {
  status = "succeeded";
  summary = "no jobs";
  result_payload = end;
  requires_user_action = false;
  tool_call_id = some "call-1";
  metadata = end;
  suggested_next_decision = none;
}

-- The environment counts the calls.
abbrev repeating : Run ℕ
repeating = record {
  decide_next_step = λ calls trace. (search_again, calls);
  execute_step = λ calls decision. (nothing_found, suc calls);
  session_id = some "session-1";
  task_id = none;
  run_id = some "run-1";
}

abbrev outcome : Turn ℕ → Option (LoopAgentStopReason × ℕ)
outcome (finished result calls) = some (result.stop_reason, calls)
outcome (continue loop) = none

repeated_call :
    outcome (run_loop repeating 2 (pos 5) 0) ≡ some (LoopAgentStopReason.replan_required, 2)
unfolding run_loop turns turn act execute_turn intervention_for key_of dumps quote join sorted
    insert_sorted str_leb str_eq get show
repeated_call = refl

short_budget :
    outcome (run_loop repeating 3 (pos 1) 0) ≡ some (LoopAgentStopReason.budget_exhausted, 1)
unfolding run_loop turns turn act execute_turn intervention_for key_of dumps quote join sorted
    insert_sorted str_leb str_eq get show
short_budget = refl

run_loop_closes_example :
    Ends
      (max_repeated_calls (pos 2))
      (pos_part (pos 5))
      (run_loop repeating (max_repeated_calls (pos 2)) (pos 5) 0)
run_loop_closes_example = run_loop_closes repeating (pos 2) (pos 5) 0
