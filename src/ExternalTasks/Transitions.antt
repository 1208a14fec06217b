-- ===== src/ExternalTasks/Transitions.antt =====
-- The calls of the service on one task, stored or not, against the ledger.
use offer_master.Prelude.{
  ◌≡◌, refl, sym, ◌∙◌, ap, subst, String, false, Option, none, some, str_eq, str_eq_iff,
  str_eq_refl,
}
use offer_master.Prelude.Json.{Json, Fields}
use offer_master.ExternalTasks.Schemas.{
  ExternalTaskType, type_value, status_value, ApplyEntryDiscoveryResult,
}
use offer_master.ExternalTasks.Session.{ExternalAgentTask, TaskSession, IsLawful}
use offer_master.ExternalTasks.Service.{mark_running, record_result, status_for_result}
use offer_master.ExternalTasks.Lifecycle.{TaskView, Ledger, Command, spec, perform}
use offer_master.ExternalTasks.Recording.{
  record_result_found, record_result-mismatch, require_task_missing, result_row,
}
use offer_master.ExternalTasks.Writes.{mark_running_found, running_row}
use offer_master.ExternalTasks.Refinement.{
  kinds, Implements, readable, wrote-Implements, log_after, given-first_of, first_of-none, given,
}

pub one_type :
    (task_type : ExternalTaskType)
    → type_value task_type ≡ type_value ExternalTaskType.find_apply_entry
one_type ExternalTaskType.find_apply_entry = refl

module _ (repr : Json → String) (payload_hash : Fields → String) (D : TaskSession)
    (laws : IsLawful D) where
  pub start_stored :
      (now : String) (s : D.State) (a : Ledger) (t : ExternalAgentTask) (v : TaskView)
      → t.task_type ≡ type_value ExternalTaskType.find_apply_entry
      → t.status ≡ status_value v.status
      → t.blocked_reason ≡ v.blocked_reason
      → given t.completed_at ≡ v.completed
      → Implements D s a
      → (k : String) → t.id ≡ k
      → D.get_task s k ≡ some t
      → kinds (D.events_of s k) ≡ v.log
      → a k ≡ some v
      → Implements D
          (perform repr payload_hash D (Command.start now k) s)
          (spec (Command.start now k) a)
  unfolding perform spec
  start_stored now s a t v typed status blocked completed all k mine =
      subst
        (λ (k : String).
          D.get_task s k ≡ some t
          → kinds (D.events_of s k) ≡ v.log
          → a k ≡ some v
          → Implements D (perform repr payload_hash D (Command.start now k) s)
              (spec (Command.start now k) a))
        mine
        (λ at log view.
          let (s', ran, wrote) =
            mark_running_found D laws repr now s t (readable t v.status typed status) at in
          subst (λ (x : D.State). Implements D x (spec (Command.start now t.id) a))
            (sym (ap (λ p. p.1) ran))
            (wrote-Implements D s s' _ _ a (spec (Command.start now t.id) a) wrote all
              (rw (str_eq_refl t.id, view)
                (record {
                  task = running_row D laws repr t (readable t v.status typed status);
                  stored = wrote.here;
                  typed = one_type _;
                  status = refl;
                  blocked_reason = blocked;
                  completed = first_of-none t.completed_at ∙ completed;
                  log = log_after D s s' _ _ v.log wrote log;
                }))
              (λ k other. rw other refl)))

  pub finish_stored :
      (now recorded_at : String) (result : ApplyEntryDiscoveryResult)
      (executor_name : Option String)
      → (s : D.State) (a : Ledger) (t : ExternalAgentTask) (v : TaskView)
      → t.task_type ≡ type_value ExternalTaskType.find_apply_entry
      → t.status ≡ status_value v.status
      → given t.completed_at ≡ v.completed
      → Implements D s a
      → (k : String) → t.id ≡ k
      → result.task_id ≡ k
      → D.get_task s k ≡ some t
      → kinds (D.events_of s k) ≡ v.log
      → a k ≡ some v
      → Implements D
          (perform repr payload_hash D (Command.finish now recorded_at k result executor_name) s)
          (spec (Command.finish now recorded_at k result executor_name) a)
  unfolding perform spec
  finish_stored now recorded_at result executor_name s a t v typed status completed all k mine =
      subst
        (λ (k : String).
          result.task_id ≡ k
          → D.get_task s k ≡ some t
          → kinds (D.events_of s k) ≡ v.log
          → a k ≡ some v
          → Implements D
              (perform repr payload_hash D (Command.finish now recorded_at k result executor_name)
                s)
              (spec (Command.finish now recorded_at k result executor_name) a))
        mine
        (λ own at log view.
          let (s', ran, wrote) =
            record_result_found D laws repr now recorded_at s t (readable t v.status typed status)
              result executor_name at own in
          subst
            (λ (x : D.State).
              Implements D x (spec (Command.finish now recorded_at t.id result executor_name) a))
            (sym (ap (λ p. p.1) ran))
            (wrote-Implements D s s' _ _ a
              (spec (Command.finish now recorded_at t.id result executor_name) a) wrote all
              (rw (str_eq_refl t.id, (str_eq_iff result.task_id t.id).1 own, view)
                (record {
                  task =
                      result_row D laws repr now t (readable t v.status typed status) result
                        executor_name;
                  stored = wrote.here;
                  typed = one_type _;
                  status = refl;
                  blocked_reason = refl;
                  completed =
                      given-first_of t.completed_at now (status_for_result result.status)
                      ∙ rw completed refl;
                  log = log_after D s s' _ _ v.log wrote log;
                }))
              (λ k other. rw other refl)))

  -- A call on a task that is not stored.
  pub start_missing :
      (now : String) (s : D.State) (k : String)
      → D.get_task s k ≡ none
      → perform repr payload_hash D (Command.start now k) s ≡ s
  unfolding perform mark_running
  start_missing now s k free = rw (perform, mark_running, require_task_missing D laws s k free) refl

  pub finish_missing :
      (now recorded_at : String) (result : ApplyEntryDiscoveryResult)
      (executor_name : Option String)
      → (s : D.State) (k : String) → D.get_task s k ≡ none
      → perform repr payload_hash D (Command.finish now recorded_at k result executor_name) s ≡ s
  unfolding perform record_result
  finish_missing now recorded_at result executor_name s k free =
      rw (perform, record_result, require_task_missing D laws s k free) refl

  pub finish_mismatch :
      (now recorded_at : String) (result : ApplyEntryDiscoveryResult)
      (executor_name : Option String)
      → (s : D.State) (t : ExternalAgentTask) (v : TaskView)
      → t.task_type ≡ type_value ExternalTaskType.find_apply_entry
      → t.status ≡ status_value v.status
      → (k : String) → t.id ≡ k
      → D.get_task s k ≡ some t
      → str_eq result.task_id k ≡ false
      → perform repr payload_hash D (Command.finish now recorded_at k result executor_name) s ≡ s
  unfolding perform
  finish_mismatch now recorded_at result executor_name s t v typed status k mine =
      subst
        (λ (k : String).
          D.get_task s k ≡ some t
          → str_eq result.task_id k ≡ false
          → perform repr payload_hash D (Command.finish now recorded_at k result executor_name) s
            ≡ s)
        mine
        (λ at other.
          ap (λ p. p.1)
            (record_result-mismatch D laws repr now recorded_at s t
              (readable t v.status typed status) result executor_name at other))
