-- ===== src/ExternalTasks/Agreement.antt =====
-- The tasks that calls of the service alone have written.
use offer_master.Prelude.{
  ◌≡◌, ◌≢◌, refl, sym, ◌∙◌, ap, subst, String, ◌<>◌, Bool, true, false, ◌||◌, ◌&&◌, Option, none,
  some, List, [], ◌∷◌, ◌++◌, str_eq, get_last?, if◌then◌else◌, arith,
}
use mathlib.Core.Option.{some-injective}
use offer_master.Prelude.Json.{Json, Fields}
use offer_master.ExternalTasks.Schemas.{
  ExternalAgentTaskStatus, status_value, ApplyEntryDiscoveryStatus, ApplyEntryDiscoveryResult,
}
use offer_master.ExternalTasks.Session.{ExternalAgentTask, TaskSession, IsLawful}
use offer_master.ExternalTasks.Repository.{is_final}
use offer_master.ExternalTasks.Service.{event_for_status, status_for_result}
use offer_master.ExternalTasks.Lifecycle.{
  TaskView, Ledger, Command, started, finished, view_map, or_queued, spec, spec_all, perform_all,
}
use offer_master.ExternalTasks.Refinement.{kinds, Matches, given}
use offer_master.ExternalTasks.Simulation.{perform_all-Implements}

-- The last event of a view names its status, and a view with a final status was completed.
pub record Agrees (v : TaskView) : Type 0 where
  pub named : get_last? v.log ≡ some ("task_" <> status_value v.status)
  pub closed : is_final v.status ≡ true → v.completed ≡ true

abbrev Fine : Option TaskView → Type 0
Fine none = Unit
Fine (some v) = Agrees v

get_last?-append_one : {A : Type 0} (xs : List A) (x : A) → get_last? (xs ++ (x ∷ [])) ≡ some x
get_last?-append_one [] x = refl
get_last?-append_one (y ∷ []) x = refl
get_last?-append_one (y ∷ z ∷ xs) x = get_last?-append_one (z ∷ xs) x

event_named :
    (status : ApplyEntryDiscoveryStatus)
    → event_for_status (status_for_result status)
      ≡ ("task_" <> status_value (status_for_result status))
event_named ApplyEntryDiscoveryStatus.found_opened = refl
event_named ApplyEntryDiscoveryStatus.blocked = refl
event_named ApplyEntryDiscoveryStatus.failed = refl

or_true : (a b : Bool) → b ≡ true → (a || b) ≡ true
or_true a b h = ground arith

started-Fine : (o : Option TaskView) → Fine o → Fine (view_map started o)
started-Fine none h = tt
started-Fine (some v) h = record {
  named = get_last?-append_one v.log "task_running";
  closed = λ e. cc;
}

finished-Fine :
    (result : ApplyEntryDiscoveryResult) (o : Option TaskView)
    → Fine o
    → Fine (view_map (finished result) o)
finished-Fine result none h = tt
finished-Fine result (some v) h = record {
  named = get_last?-append_one v.log _ ∙ ap some (event_named result.status);
  closed = or_true v.completed _;
}

or_queued-Fine : (o : Option TaskView) → Fine o → Fine (or_queued o)
or_queued-Fine none h = record { named = refl; closed = λ e. cc }
or_queued-Fine (some v) h = h

chosen-Fine : (b : Bool) (o p : Option TaskView) → Fine o → Fine p → Fine (if b then o else p)
chosen-Fine true o p h k = h
chosen-Fine false o p h k = k

spec-Fine :
    (c : Command) (a : Ledger) → ((k : String) → Fine (a k)) → (k : String) → Fine (spec c a k)
unfolding spec
spec-Fine (Command.create now e) a h k =
    chosen-Fine (str_eq e.task_id k) _ _ (or_queued-Fine (a k) (h k)) (h k)
spec-Fine (Command.start now i) a h k =
    chosen-Fine (str_eq i k) _ _ (started-Fine (a k) (h k)) (h k)
spec-Fine (Command.finish now recorded_at i result executor_name) a h k =
    chosen-Fine (str_eq i k && str_eq result.task_id i) _ _ (finished-Fine result (a k) (h k)) (h k)

spec_all-Fine :
    (commands : List Command) (a : Ledger)
    → ((k : String) → Fine (a k))
    → (k : String) → Fine (spec_all commands a k)
spec_all-Fine [] a h = h
spec_all-Fine (c ∷ commands) a h = spec_all-Fine commands (spec c a) (spec-Fine c a h)

abbrev pub Empty : (D : TaskSession) → D.State → Type 0
Empty D s = (k : String) → (D.get_task s k ≡ none) × (D.events_of s k ≡ [])

-- A stored task has a status, its last event names it, and it is completed if the status is final.
pub record Settled (D : TaskSession) (s : D.State) (t : ExternalAgentTask) : Type 0 where
  pub status : ExternalAgentTaskStatus
  pub spelled : t.status ≡ status_value status
  pub named : get_last? (kinds (D.events_of s t.id)) ≡ some ("task_" <> status_value status)
  pub closed : is_final status ≡ true → given t.completed_at ≡ true

none_ne_some : (t : ExternalAgentTask) → none ≢ some t
none_ne_some t e = cc

shown-Settled :
    (D : TaskSession) (laws : IsLawful D) (s : D.State) (k : String) (t : ExternalAgentTask)
    → (o : Option TaskView) → Matches D s k o
    → Fine o
    → D.get_task s k ≡ some t
    → Settled D s t
shown-Settled D laws s k t none (free, _) fine at = absurd (none_ne_some t (sym free ∙ at))
shown-Settled D laws s k t (some v) shows fine at =
    subst (λ (t : ExternalAgentTask). Settled D s t) (some-injective _ _ (sym shows.stored ∙ at))
      (record {
        status = v.status;
        spelled = shows.status;
        named =
            ap (λ k. get_last? (kinds (D.events_of s k))) (laws.get_task-id s k shows.stored)
            ∙ ap get_last? shows.log
            ∙ fine.named;
        closed = λ e. shows.completed ∙ fine.closed e;
      })

-- After any calls of the service on a session without tasks and events, every stored task has a
-- status that the code knows, the last of its events is named after that status, and if the status
-- is final the task has a time of completion.
pub perform_all-Settled :
    (repr : Json → String) (payload_hash : Fields → String) (D : TaskSession) (laws : IsLawful D)
    → (commands : List Command) (s : D.State) → Empty D s
    → (k : String) {t : ExternalAgentTask}
    → D.get_task (perform_all repr payload_hash D commands s) k ≡ some t
    → Settled D (perform_all repr payload_hash D commands s) t
perform_all-Settled repr payload_hash D laws commands s empty k {t} at =
    shown-Settled D laws _ k t (spec_all commands (λ k. none) k)
      (perform_all-Implements repr payload_hash D laws commands s (λ k. none) empty k)
      (spec_all-Fine commands (λ k. none) (λ k. tt) k) at
