-- ===== src/Automation/Examples.antt =====
-- Tests of the approvals: a run that waits for an approval, which is rejected.
use offer_master.Prelude.{◌≡◌, refl, String, Bool, false, Option, none, some, [], ◌∷◌, str_eq}
use offer_master.Prelude.Effects.{ok, raise, value_error}
use offer_master.Prelude.Table.{find}
use offer_master.Automation.Models.{
  WorkflowRunStatus, ApprovalRequestStatus, WorkflowRun, ApprovalRequest,
}
use offer_master.Automation.Service.{not_pending, decide_approval, request_user_approval}
use offer_master.Automation.Deciding.{Decided, answered, continued, decide_approval-decide_approval}
use offer_master.Automation.Memory.{Tables, memory, memory-IsLawful, run_in, approval_in}

abbrev waiting : WorkflowRun
waiting = record {
  id = "run-1";
  workflow_type = "application_assist";
  status = WorkflowRunStatus.waiting_user;
  current_step = some "submit";
  user_goal = none;
  related_job_id = none;
  related_application_id = none;
  approval_request_id = some "approval-1";
  completed_at = none;
}

abbrev asked : ApprovalRequest
asked = record {
  id = "approval-1";
  workflow_run_id = "run-1";
  application_id = none;
  action_type = "submit_application";
  status = ApprovalRequestStatus.pending;
  prompt = "Submit?";
  payload = none;
  decision = none;
  decided_at = none;
  expires_at = none;
}

abbrev tables : Tables
tables = record { runs = waiting ∷ []; approvals = asked ∷ []; checkpoints = []; logs = [] }

has_approval : approval_in tables "approval-1" ≡ some asked
unfolding find str_eq
has_approval = refl

has_run : run_in tables "run-1" ≡ some waiting
unfolding find str_eq
has_run = refl

-- Asking for the approval makes the run wait for it.
asks :
    (request_user_approval memory "approval-1" "10:00"
      (record {
        workflow_run_id = "run-1";
        application_id = none;
        action_type = "submit_application";
        prompt = "Submit?";
        payload = none;
        expires_at = none;
      })
      (record tables {
        runs = record waiting { status = WorkflowRunStatus.running } ∷ [];
        approvals = [];
      })).1.approvals
    ≡ asked ∷ []
unfolding request_user_approval find str_eq
asks = refl

decide_approval-decide_approval_example :
    (s' : Tables) × (decide_approval memory "10:00" "10:01" "approval-1" false
        (some "not now")
        tables
      ≡ (ok (answered "10:00" false (some "not now") asked), s'))
    × Decided memory tables s' "approval-1"
        (answered "10:00" false (some "not now") asked)
        (continued false "10:01" waiting)
    × ((again after : String) (reversed : Bool) (reason : Option String)
        → decide_approval memory again after "approval-1" reversed reason s'
          ≡ (raise (value_error (not_pending "approval-1")), s'))
decide_approval-decide_approval_example =
    decide_approval-decide_approval memory memory-IsLawful "10:00" "10:01" "approval-1" false
      (some "not now") tables asked waiting has_approval refl has_run
