-- ===== src/ExternalTasks/Schemas.antt =====
-- external_tasks/schemas.py: the task for an external agent, and the result that it gives back. A
-- datetime is its text, and a float its text beside the answer to whether it is other than zero.
use offer_master.Prelude.{
  String, Bool, true, false, ◌&&◌, ◌||◌, not, Option, none, some, List, [], ◌∷◌, str_eq,
  if◌then◌else◌,
}
use offer_master.Prelude.Text.{is_empty}
use offer_master.Prelude.Json.{Fields}

pub data ExternalTaskType : Type 0 where
  find_apply_entry : ExternalTaskType

abbrev pub type_value : ExternalTaskType → String
type_value ExternalTaskType.find_apply_entry = "find_apply_entry"

-- `ExternalTaskType(text)`, where `none` is the ValueError.
unfoldable pub type_from_value : String → Option ExternalTaskType
type_from_value text =
    if str_eq text "find_apply_entry" then some ExternalTaskType.find_apply_entry else none

pub data ExternalAgentTaskStatus : Type 0 where
  created queued running waiting_user succeeded failed canceled : ExternalAgentTaskStatus

abbrev pub status_value : ExternalAgentTaskStatus → String
status_value ExternalAgentTaskStatus.created = "created"
status_value ExternalAgentTaskStatus.queued = "queued"
status_value ExternalAgentTaskStatus.running = "running"
status_value ExternalAgentTaskStatus.waiting_user = "waiting_user"
status_value ExternalAgentTaskStatus.succeeded = "succeeded"
status_value ExternalAgentTaskStatus.failed = "failed"
status_value ExternalAgentTaskStatus.canceled = "canceled"

-- `ExternalAgentTaskStatus(text)`, where `none` is the ValueError.
unfoldable pub status_from_value : String → Option ExternalAgentTaskStatus
status_from_value text =
    if str_eq text "created"
    then some ExternalAgentTaskStatus.created
    else if str_eq text "queued"
    then some ExternalAgentTaskStatus.queued
    else if str_eq text "running"
    then some ExternalAgentTaskStatus.running
    else if str_eq text "waiting_user"
    then some ExternalAgentTaskStatus.waiting_user
    else if str_eq text "succeeded"
    then some ExternalAgentTaskStatus.succeeded
    else if str_eq text "failed"
    then some ExternalAgentTaskStatus.failed
    else if str_eq text "canceled"
    then some ExternalAgentTaskStatus.canceled
    else none

pub data ApplyEntryDiscoveryStatus : Type 0 where
  found_opened blocked failed : ApplyEntryDiscoveryStatus

abbrev pub discovery_value : ApplyEntryDiscoveryStatus → String
discovery_value ApplyEntryDiscoveryStatus.found_opened = "found_opened"
discovery_value ApplyEntryDiscoveryStatus.blocked = "blocked"
discovery_value ApplyEntryDiscoveryStatus.failed = "failed"

pub data ApplyEntryBlockedReason : Type 0 where
  login_required captcha no_apply_button job_closed ambiguous_multiple_jobs :
      ApplyEntryBlockedReason
  sensitive_question final_submit network_error unknown : ApplyEntryBlockedReason

abbrev pub reason_value : ApplyEntryBlockedReason → String
reason_value ApplyEntryBlockedReason.login_required = "login_required"
reason_value ApplyEntryBlockedReason.captcha = "captcha"
reason_value ApplyEntryBlockedReason.no_apply_button = "no_apply_button"
reason_value ApplyEntryBlockedReason.job_closed = "job_closed"
reason_value ApplyEntryBlockedReason.ambiguous_multiple_jobs = "ambiguous_multiple_jobs"
reason_value ApplyEntryBlockedReason.sensitive_question = "sensitive_question"
reason_value ApplyEntryBlockedReason.final_submit = "final_submit"
reason_value ApplyEntryBlockedReason.network_error = "network_error"
reason_value ApplyEntryBlockedReason.unknown = "unknown"

pub record ExternalTaskJobContext : Type 0 where
  pub job_id : String
  pub company_name : String
  pub title : String
  pub source_url : Option String
  pub apply_url_candidate : Option String
  pub jd_summary : Option String

pub record ExternalTaskCandidateProfileRef : Type 0 where
  pub profile_id : String
  pub resume_version_id : String

pub record FindApplyEntryTaskEnvelope : Type 0 where
  pub schema_version : String
  pub task_id : String
  pub trace_id : String
  pub task_type : ExternalTaskType
  pub created_at : String
  pub objective : String
  pub job : ExternalTaskJobContext
  pub candidate_profile_ref : ExternalTaskCandidateProfileRef
  pub allowed_actions : List String
  pub forbidden_actions : List String
  pub human_approval_required : List String
  pub output_schema : String
  pub evidence_required : List String

-- The fields that a task has by default.
abbrev pub default_schema_version : String
default_schema_version = "offer_master.find_apply_entry_task.v1"

abbrev pub default_objective : String
default_objective =
    "Find the real application entry for this job and open it in Edge. Stop before final submit."

abbrev pub default_allowed_actions : List String
default_allowed_actions =
    "web_search" ∷ "open_browser" ∷ "click_apply_button" ∷ "read_visible_page" ∷ "screenshot" ∷ []

abbrev pub default_forbidden_actions : List String
default_forbidden_actions =
    "submit_application" ∷ "answer_sensitive_questions" ∷ "change_resume_source_file" ∷ "send_email"
    ∷ "create_account" ∷ []

abbrev pub default_human_approval_required : List String
default_human_approval_required =
    "login_required" ∷ "captcha" ∷ "file_upload_uncertain" ∷ "sensitive_question" ∷ "final_submit"
    ∷ []

abbrev pub default_output_schema : String
default_output_schema = "ApplyEntryDiscoveryResultV1"

abbrev pub default_evidence_required : List String
default_evidence_required =
    "final_url" ∷ "button_text" ∷ "screenshot_path" ∷ "reasoning_summary" ∷ []

-- A task with the default fields.
abbrev pub find_apply_entry_task :
    String
    → String
    → String
    → ExternalTaskJobContext
    → ExternalTaskCandidateProfileRef
    → FindApplyEntryTaskEnvelope
find_apply_entry_task task_id trace_id created_at job candidate_profile_ref = record {
  schema_version = default_schema_version;
  task_id = task_id;
  trace_id = trace_id;
  task_type = ExternalTaskType.find_apply_entry;
  created_at = created_at;
  objective = default_objective;
  job = job;
  candidate_profile_ref = candidate_profile_ref;
  allowed_actions = default_allowed_actions;
  forbidden_actions = default_forbidden_actions;
  human_approval_required = default_human_approval_required;
  output_schema = default_output_schema;
  evidence_required = default_evidence_required;
}

pub record ExternalAgentArtifactRef : Type 0 where
  pub artifact_type : String
  pub path_or_uri : String
  pub mime_type : Option String
  pub metadata : Fields

pub record ApplyEntryDiscoveryResult : Type 0 where
  pub schema_version : String
  pub task_id : String
  pub status : ApplyEntryDiscoveryStatus
  pub confidence : Bool × String
  pub company_name : Option String
  pub job_title : Option String
  pub source_url : Option String
  pub apply_url : Option String
  pub final_browser_url : Option String
  pub platform : Option String
  pub button_text : Option String
  pub requires_login : Bool
  pub blocked_reason : Option ApplyEntryBlockedReason
  pub candidate_urls : List String
  pub evidence_artifacts : List ExternalAgentArtifactRef
  pub notes : Option String
  pub next_action : Option String

-- The truth test of an optional text.
abbrev pub present : Option String → Bool
present none = false
present (some s) = not (is_empty s)

abbrev pub no_items : {A : Type 0} → List A → Bool
no_items [] = true
no_items (_ ∷ _) = false

abbrev pub is_found_opened : ApplyEntryDiscoveryStatus → Bool
is_found_opened ApplyEntryDiscoveryStatus.found_opened = true
is_found_opened _ = false

abbrev pub is_blocked : ApplyEntryDiscoveryStatus → Bool
is_blocked ApplyEntryDiscoveryStatus.blocked = true
is_blocked _ = false

abbrev pub has_reason : Option ApplyEntryBlockedReason → Bool
has_reason none = false
has_reason (some _) = true

-- `false` is the ValueError.
unfoldable pub validate_status_contract : ApplyEntryDiscoveryResult → Bool
validate_status_contract r =
    if is_found_opened r.status && not (present r.apply_url || present r.final_browser_url)
    then false
    else if is_found_opened r.status && no_items r.evidence_artifacts
    then false
    else not (is_blocked r.status && not (has_reason r.blocked_reason))

-- The constructor's checks on a result whose confidence lies between 0 and 1 and whose artifacts
-- have passed theirs.
unfoldable pub checked_result : ApplyEntryDiscoveryResult → Option ApplyEntryDiscoveryResult
unfolding validate_status_contract
checked_result r =
    if is_empty r.task_id then none else if validate_status_contract r then some r else none
