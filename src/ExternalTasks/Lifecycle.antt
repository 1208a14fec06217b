-- ===== src/ExternalTasks/Lifecycle.antt =====
-- What the service promises of a task, without the rows: a status, the reason why it is blocked,
-- whether it was ever completed, and the kinds of its events. A ledger has this for each task.
use offer_master.Prelude.{
  String, Bool, false, ◌||◌, ◌&&◌, Option, none, some, List, [], ◌∷◌, ◌++◌, str_eq, if◌then◌else◌,
}
use offer_master.Prelude.Json.{Json, Fields}
use offer_master.ExternalTasks.Schemas.{
  ExternalAgentTaskStatus, FindApplyEntryTaskEnvelope, ApplyEntryDiscoveryResult,
}
use offer_master.ExternalTasks.Payloads.{reason_text}
use offer_master.ExternalTasks.Session.{TaskSession}
use offer_master.ExternalTasks.Repository.{is_final}
use offer_master.ExternalTasks.Service.{
  status_for_result, event_for_status, create_find_apply_entry_task, mark_running, record_result,
}

pub record TaskView : Type 0 where
  pub status : ExternalAgentTaskStatus
  pub blocked_reason : Option String
  pub completed : Bool
  pub log : List String

abbrev pub Ledger : Type 0
Ledger = String → Option TaskView

-- A call of the service, with what the clock gives for it.
pub data Command : Type 0 where
  create : String → FindApplyEntryTaskEnvelope → Command
  start : String → String → Command
  finish : String → String → String → ApplyEntryDiscoveryResult → Option String → Command

abbrev pub queued : TaskView
queued = record {
  status = ExternalAgentTaskStatus.queued;
  blocked_reason = none;
  completed = false;
  log = "task_queued" ∷ [];
}

abbrev pub started : TaskView → TaskView
started v = record v {
  status = ExternalAgentTaskStatus.running;
  log = v.log ++ ("task_running" ∷ []);
}

abbrev pub finished : ApplyEntryDiscoveryResult → TaskView → TaskView
finished result v = record {
  status = status_for_result result.status;
  blocked_reason = reason_text result.blocked_reason;
  completed = v.completed || is_final (status_for_result result.status);
  log = v.log ++ (event_for_status (status_for_result result.status) ∷ []);
}

abbrev pub view_map : (TaskView → TaskView) → Option TaskView → Option TaskView
view_map f none = none
view_map f (some v) = some (f v)

abbrev pub or_queued : Option TaskView → Option TaskView
or_queued none = some queued
or_queued (some v) = some v

-- A ledger after a call: a task is created once, only a stored task changes, and only by a result
-- that is its own.
unfoldable pub spec : Command → Ledger → Ledger
spec (create now envelope) a k = if str_eq envelope.task_id k then or_queued (a k) else a k
spec (start now task_id) a k = if str_eq task_id k then view_map started (a k) else a k
spec (finish now recorded_at task_id result executor_name) a k =
    if str_eq task_id k && str_eq result.task_id task_id
    then view_map (finished result) (a k)
    else a k

abbrev pub spec_all : List Command → Ledger → Ledger
spec_all [] a = a
spec_all (c ∷ commands) a = spec_all commands (spec c a)

module _ (repr : Json → String) (payload_hash : Fields → String) (D : TaskSession) where
  -- The session after a call, whether it returns or raises.
  unfoldable pub perform : Command → D.State → D.State
  unfolding create_find_apply_entry_task mark_running record_result
  perform (create now envelope) s =
      (create_find_apply_entry_task repr payload_hash D now envelope s).1
  perform (start now task_id) s = (mark_running repr D now task_id s).1
  perform (finish now recorded_at task_id result executor_name) s =
      (record_result repr D now recorded_at task_id result executor_name s).1

  unfoldable pub perform_all : List Command → D.State → D.State
  unfolding perform
  perform_all [] s = s
  perform_all (c ∷ commands) s = perform_all commands (perform c s)
