-- ===== src/LoopAgent/OuterSession/Examples.antt =====
-- Tests of the outer loop over an inner run that asks the user once and then answers.
use offer_master.Prelude.{ℕ, zero, suc, ◌≡◌, refl, true, false, none, some, [], str_eq}
use offer_master.Prelude.Text.{is_space, lstrip, rstrip, strip}
use offer_master.Prelude.Json.{end}
use offer_master.Prelude.Dict.{fetch, put}
use offer_master.LoopAgent.Schemas.{LoopAgentStopReason, LoopAgentRunResult}
use offer_master.LoopAgent.OuterSession.{
  OuterSessionStatus, OuterSessionRunRequest, OuterSessionState, Store, Message, begin_user_message,
  complete_turn, handle_user_message, non_empty,
}
use offer_master.LoopAgent.OuterSession.Reachable.{Settled, begins, empty, later, Reach-Settled}
use offer_master.LoopAgent.OuterSession.Handling.{
  Handled, Resumes, handle_user_message_lem, begin_user_message-handle_user_message,
}

abbrev asking : LoopAgentRunResult
asking = record {
  stop_reason = LoopAgentStopReason.waiting_user;
  trace = [];
  final_answer = none;
  pending_decision = none;
  requires_user_action = true;
  metadata = end;
  events = [];
}

abbrev answering : LoopAgentRunResult
answering = record asking {
  stop_reason = LoopAgentStopReason.model_final;
  final_answer = some "done";
  requires_user_action = false;
}

-- The environment counts the runs.
abbrev inner : ℕ → OuterSessionRunRequest → LoopAgentRunResult × ℕ
inner zero request = (asking, 1)
inner (suc runs) request = (answering, suc (suc runs))

abbrev first : Message
first = record {
  session_id = "s1";
  user_message = "find a job";
  task_id = none;
  run_id = none;
  task_uuid = "t1";
  run_uuid = "r1";
}

abbrev reply : Message
reply = record first { user_message = "in Berlin"; task_id = some "other"; run_uuid = "r2" }

abbrev after_first : Store
after_first = (handle_user_message inner [] 0 first).1

reply_goes_on : (handle_user_message inner after_first 1 reply).0.task_id ≡ "outer-task-t1"
unfolding handle_user_message begin_user_message complete_turn fetch put non_empty strip lstrip
    rstrip is_space str_eq
reply_goes_on = refl

abbrev opened : Store
opened = (begin_user_message [] first).1

abbrev opened_state : OuterSessionState
opened_state = record {
  session_id = "s1";
  active_task_id = "outer-task-t1";
  user_goal = "find a job";
  status = OuterSessionStatus.running;
  run_count = 1;
  active_run_id = some "outer-run-r1";
  waiting_message = none;
  pending_decision = none;
  last_inner_result = none;
  user_followups = [];
  events = [];
  metadata = end;
}

Reach-Settled_example : Settled "s1" opened_state
unfolding begin_user_message fetch put non_empty str_eq
Reach-Settled_example = Reach-Settled (later empty (begins [] first)) "s1" opened_state refl

handle_user_message_lem_example :
    Handled opened reply
      (inner 1 (begin_user_message opened reply).0).0
      (handle_user_message inner opened 1 reply).0
      (handle_user_message inner opened 1 reply).1
handle_user_message_lem_example =
    handle_user_message_lem inner opened 1 reply (Reach-Settled (later empty (begins [] first)))

begin_user_message-handle_user_message_example :
    Resumes opened first reply
      (handle_user_message inner opened 0 first).0
      (handle_user_message inner opened 0 first).1
unfolding handle_user_message begin_user_message complete_turn
begin_user_message-handle_user_message_example =
    begin_user_message-handle_user_message inner opened 0 first reply
      (Reach-Settled (later empty (begins [] first))) refl refl
