-- ===== src/Automation/Memory.antt =====
-- A session whose tables are lists. It shows that the laws asked of a session can hold, and runs the
-- examples.
use offer_master.Prelude.{
  ◌≡◌, refl, sym, subst, ap, ◌∙◌, Bool, str_eq_cases, str_ne, ne_of_str_ne, inl, inr, String, true,
  false, Option, none, some, List, [], ◌∷◌, map, str_eq, str_eq_iff, if◌then◌else◌, Bool-cases,
}
use offer_master.Prelude.Table.{find, find-key}
use offer_master.Automation.Models.{
  WorkflowRun, WorkflowCheckpoint, ToolCallLog, ApprovalRequest, ApprovalRequestStatus,
  AutomationSession, IsLawful, decided, decided_at_key,
}

pub record Tables : Type 0 where
  pub runs : List WorkflowRun
  pub approvals : List ApprovalRequest
  pub checkpoints : List WorkflowCheckpoint
  pub logs : List ToolCallLog

abbrev pub run_in : Tables → String → Option WorkflowRun
run_in s = find (λ r. r.id) s.runs

abbrev pub approval_in : Tables → String → Option ApprovalRequest
approval_in s = find (λ a. a.id) s.approvals

abbrev unless_taken : {A : Type 0} → Option A → Tables → Option Tables
unless_taken none s = some s
unless_taken (some _) s = none

abbrev if_known : {A : Type 0} → Option A → Tables → Option Tables
if_known none s = none
if_known (some _) s = some s

-- The approvals without those of a run, which a new one takes the place of.
abbrev without_run : String → List ApprovalRequest → List ApprovalRequest
without_run run_id [] = []
without_run run_id (a ∷ rows) =
    let rest = without_run run_id rows in if str_eq a.workflow_run_id run_id then rest else a ∷ rest

abbrev decide_row :
    String → ApprovalRequestStatus → String → String → ApprovalRequest → ApprovalRequest
decide_row i status decision at a = if str_eq a.id i then decided status decision at a else a

abbrev pub memory : AutomationSession
memory = record {
  State = Tables;
  get_run = run_in;
  get_approval = approval_in;
  insert_run = λ s r. unless_taken (run_in s r.id) (record s { runs = r ∷ s.runs });
  insert_checkpoint =
      λ s c. if_known (run_in s c.workflow_run_id) (record s { checkpoints = c ∷ s.checkpoints });
  insert_log = λ s l. if_known (run_in s l.workflow_run_id) (record s { logs = l ∷ s.logs });
  insert_approval = λ s a.
      unless_taken (approval_in s a.id)
        (record s { approvals = a ∷ without_run a.workflow_run_id s.approvals });
  update_run = λ s r. record s { runs = r ∷ s.runs };
  decide_where = λ s i status decision at. record s {
    approvals = map (decide_row i status decision at) s.approvals;
  };
}

str_eq_comm : (i x : String) → str_eq i x ≡ str_eq x i
str_eq_comm i x = elim (str_eq_cases i x) [
  | inl same ↦ ap (λ y. str_eq y x) same ∙ ap (λ y. str_eq x y) (sym same)
  | inr other ↦ other ∙ sym (str_ne x i (λ e. ne_of_str_ne i x other (sym e)))
]

-- Two keys of which one is that of a row.
key_eq : (x i k : String) (b : Bool) → str_eq x i ≡ b → str_eq x k ≡ true → str_eq i k ≡ b
key_eq x i k b e here =
    subst (λ (y : String). str_eq i y ≡ b) ((str_eq_iff x k).0 here) (str_eq_comm i x ∙ e)

find-decide_row :
    (i : String) (status : ApprovalRequestStatus) (decision at k : String)
    → (rows : List ApprovalRequest)
    → find (λ a. a.id) (map (decide_row i status decision at) rows) k
      ≡ decided_at_key i k (decided status decision at) (find (λ a. a.id) rows k)
unfolding find
find-decide_row i status decision at k [] = refl
find-decide_row i status decision at k (a ∷ rows) =
    let rest = find-decide_row i status decision at k rows in
    elim (Bool-cases (str_eq a.id i)) [
      | inl mine ↦ elim (Bool-cases (str_eq a.id k)) [
        | inl here ↦ rw (mine, here, key_eq a.id i k true mine here) refl
        | inr there ↦ rw (mine, there) rest
      ]
      | inr other ↦ elim (Bool-cases (str_eq a.id k)) [
        | inl here ↦ rw (other, here, key_eq a.id i k false other here) refl
        | inr there ↦ rw (other, there) rest
      ]
    ]

pub memory-IsLawful : IsLawful memory
unfolding find
memory-IsLawful = record {
  get_run-id = λ s k e. find-key (λ r. r.id) s.runs k e;
  get_approval-decide_where =
      λ s i status decision at k. find-decide_row i status decision at k s.approvals;
  get_run-decide_where = λ s i status decision at k. refl;
  get_run-update_run = λ s r k e. refl;
  get_approval-update_run = λ s r k. refl;
}
