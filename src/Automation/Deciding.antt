-- ===== src/Automation/Deciding.antt =====
-- Decisions on approvals.
use offer_master.Prelude.{
  ◌≡◌, refl, sym, ap, ◌∙◌, subst, String, Bool, true, false, Option, none, some, str_eq,
  str_eq_refl,
}
use offer_master.Prelude.Effects.{ok, raise, value_error}
use offer_master.Automation.Models.{
  WorkflowRunStatus, ApprovalRequestStatus, WorkflowRun, ApprovalRequest, AutomationSession,
  IsLawful, decided, decided_at_key,
}
use offer_master.Automation.Service.{
  not_pending, is_pending, decision_status, decision_value, given_or, resumed, mark_decision,
  decide_approval,
}

-- The text of a decision: the one that was given, if it is not empty, else the status.
abbrev pub answer : Bool → Option String → String
answer true none = "approved"
answer true (some String.[]) = "approved"
answer true (some (String.◌∷◌ c text)) = String.◌∷◌ c text
answer false none = "rejected"
answer false (some String.[]) = "rejected"
answer false (some (String.◌∷◌ c text)) = String.◌∷◌ c text

-- An approval with its answer.
abbrev pub answered : String → Bool → Option String → ApprovalRequest → ApprovalRequest
answered now true decision approval = record approval {
  status = ApprovalRequestStatus.approved;
  decision = some (answer true decision);
  decided_at = some now;
}
answered now false decision approval = record approval {
  status = ApprovalRequestStatus.rejected;
  decision = some (answer false decision);
  decided_at = some now;
}

-- A run that goes on once it is approved, and is canceled for good once it is rejected.
abbrev pub continued : Bool → String → WorkflowRun → WorkflowRun
continued true now run = record run { status = WorkflowRunStatus.running }
continued false now run = record run {
  status = WorkflowRunStatus.canceled;
  current_step = some "approval_rejected";
  completed_at = some now;
}

given_or-answer :
    (approved : Bool) (decision : Option String)
    → given_or decision (decision_value approved) ≡ answer approved decision
given_or-answer true none = refl
given_or-answer true (some String.[]) = refl
given_or-answer true (some (String.◌∷◌ c text)) = refl
given_or-answer false none = refl
given_or-answer false (some String.[]) = refl
given_or-answer false (some (String.◌∷◌ c text)) = refl

-- What the service writes is the approval with its answer, and the run that goes on or is canceled.
decided-answered :
    (now : String) (approved : Bool) (decision : Option String) (approval : ApprovalRequest)
    → decided (decision_status approved) (given_or decision (decision_value approved)) now approval
      ≡ answered now approved decision approval
decided-answered now true decision approval =
    ap (λ (text : String). decided ApprovalRequestStatus.approved text now approval)
      (given_or-answer true decision)
decided-answered now false decision approval =
    ap (λ (text : String). decided ApprovalRequestStatus.rejected text now approval)
      (given_or-answer false decision)

resumed-continued :
    (approved : Bool) (now : String) (run : WorkflowRun)
    → resumed approved now run ≡ continued approved now run
resumed-continued true now run = refl
resumed-continued false now run = refl

-- What a decision leaves: the approval and the run are these, and nothing else has changed.
pub record Decided (D : AutomationSession) (s s' : D.State) (id : String)
    (approval : ApprovalRequest) (run : WorkflowRun) : Type 0 where
  pub kept : D.get_approval s' id ≡ some approval
  pub settled : is_pending approval.status ≡ false
  pub ran : D.get_run s' run.id ≡ some run
  pub other_approvals :
      (k : String) → str_eq id k ≡ false → D.get_approval s' k ≡ D.get_approval s k
  pub other_runs : (k : String) → str_eq run.id k ≡ false → D.get_run s' k ≡ D.get_run s k

answered_settles :
    (now : String) (approved : Bool) (decision : Option String) (approval : ApprovalRequest)
    → is_pending (answered now approved decision approval).status ≡ false
answered_settles now true decision approval = refl
answered_settles now false decision approval = refl

continued-id :
    (approved : Bool) (now : String) (run : WorkflowRun) → (continued approved now run).id ≡ run.id
continued-id true now run = refl
continued-id false now run = refl

answered-run :
    (now : String) (approved : Bool) (decision : Option String) (approval : ApprovalRequest)
    → (answered now approved decision approval).workflow_run_id ≡ approval.workflow_run_id
answered-run now true decision approval = refl
answered-run now false decision approval = refl

at_other :
    (i k : String) (change : ApprovalRequest → ApprovalRequest) (o : Option ApprovalRequest)
    → str_eq i k ≡ false
    → decided_at_key i k change o ≡ o
at_other i k change none other = refl
at_other i k change (some a) other = rw other refl

module _ (D : AutomationSession) (laws : IsLawful D) where
  -- A decision on an approval that is not pending.
  pub decide_approval_settled :
      (now later id : String) (approved : Bool) (decision : Option String) (s : D.State)
      → {a : ApprovalRequest} → D.get_approval s id ≡ some a
      → is_pending a.status ≡ false
      → decide_approval D now later id approved decision s
        ≡ (raise (value_error (not_pending id)), s)
  unfolding decide_approval
  decide_approval_settled now later id approved decision s at settled = rw (at, settled) refl

  pub decide_approval_lem :
      (now later id : String) (approved : Bool) (decision : Option String) (s : D.State)
      → (a : ApprovalRequest) (run : WorkflowRun) → D.get_approval s id ≡ some a
      → is_pending a.status ≡ true
      → D.get_run s a.workflow_run_id ≡ some run
      → (s' : D.State) × (decide_approval D now later id approved decision s
          ≡ (ok (answered now approved decision a), s'))
        × Decided D s s' id (answered now approved decision a) (continued approved later run)
  unfolding decide_approval mark_decision
  decide_approval_lem now later id approved decision s a run at pending owner =
      let status = decision_status approved in
      let text = given_or decision (decision_value approved) in
      let m : D.State = D.decide_where s id status text now in
      let new : WorkflowRun = continued approved later run in
      let marked : D.get_approval m id ≡ some (answered now approved decision a) =
        laws.get_approval-decide_where s id status text now id
        ∙ rw (at, str_eq_refl id) (ap some (decided-answered now approved decision a)) in
      let same_run : (answered now approved decision a).workflow_run_id ≡ a.workflow_run_id =
        answered-run now approved decision a in
      let owned : D.get_run m (answered now approved decision a).workflow_run_id ≡ some run =
        ap (D.get_run m) same_run
        ∙ laws.get_run-decide_where s id status text now a.workflow_run_id
        ∙ owner in
      let stored : D.get_run m new.id ≡ some run =
        subst (λ k. D.get_run m k ≡ some run)
          (sym (laws.get_run-id m _ owned) ∙ sym (continued-id approved later run)) owned in
      (
        D.update_run m new,
        rw (at, pending, marked, owned, resumed-continued approved later run) refl,
        record {
          kept = laws.get_approval-update_run m new id ∙ marked;
          settled = answered_settles now approved decision a;
          ran = laws.get_run-update_run m new new.id stored ∙ rw (str_eq_refl new.id) refl;
          other_approvals = λ k other.
              laws.get_approval-update_run m new k
              ∙ laws.get_approval-decide_where s id status text now k
              ∙ at_other id k _ (D.get_approval s k) other;
          other_runs = λ k other.
              laws.get_run-update_run m new k stored
              ∙ rw other (laws.get_run-decide_where s id status text now k);
        },
      )

  -- A decision on a pending approval whose run is stored returns and stores the approval as approved
  -- or rejected, as was decided, with the text of the decision (that of the status, if none was
  -- given) and the time. The run is set running if it was approved, and else canceled at the step
  -- approval_rejected with a completion time. No other approval and no other run changes, and every
  -- later decision on the approval raises the ValueError and changes nothing.
  pub decide_approval-decide_approval :
      (now later id : String) (approved : Bool) (decision : Option String) (s : D.State)
      → (a : ApprovalRequest) (run : WorkflowRun) → D.get_approval s id ≡ some a
      → is_pending a.status ≡ true
      → D.get_run s a.workflow_run_id ≡ some run
      → (s' : D.State) × (decide_approval D now later id approved decision s
          ≡ (ok (answered now approved decision a), s'))
        × Decided D s s' id (answered now approved decision a) (continued approved later run)
        × ((again after : String) (reversed : Bool) (reason : Option String)
            → decide_approval D again after id reversed reason s'
              ≡ (raise (value_error (not_pending id)), s'))
  decide_approval-decide_approval now later id approved decision s a run at pending owner =
      let (s', returned, left) =
        decide_approval_lem now later id approved decision s a run at pending owner in
      (
        s',
        returned,
        left,
        λ again after reversed reason.
            decide_approval_settled again after id reversed reason s' left.kept left.settled,
      )
