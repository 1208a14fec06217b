-- ===== src/ExternalTasks/Payloads.antt =====
-- external_tasks/schemas.py: what `model_dump(mode="json")` gives for a task and for a result, field
-- by field, in the order of their declarations.
use offer_master.Prelude.{String, Option, none, some, List, [], ◌∷◌, map}
use offer_master.Prelude.Json.{Json, bool, num, str, arr, obj, items, Fields, fields, opt_str}
use offer_master.ExternalTasks.Schemas.{
  type_value, discovery_value, ApplyEntryBlockedReason, reason_value, ExternalTaskJobContext,
  ExternalTaskCandidateProfileRef, FindApplyEntryTaskEnvelope, ExternalAgentArtifactRef,
  ApplyEntryDiscoveryResult,
}

abbrev strings : List String → Json
strings texts = arr (items (map str texts))

abbrev pub job_dump : ExternalTaskJobContext → Fields
job_dump j = fields (
    ("job_id", str j.job_id)
    ∷ ("company_name", str j.company_name)
    ∷ ("title", str j.title)
    ∷ ("source_url", opt_str j.source_url)
    ∷ ("apply_url_candidate", opt_str j.apply_url_candidate)
    ∷ ("jd_summary", opt_str j.jd_summary)
    ∷ [])

abbrev profile_dump : ExternalTaskCandidateProfileRef → Fields
profile_dump p =
    fields (("profile_id", str p.profile_id) ∷ ("resume_version_id", str p.resume_version_id) ∷ [])

unfoldable pub envelope_dump : FindApplyEntryTaskEnvelope → Fields
envelope_dump e = fields (
    ("schema_version", str e.schema_version)
    ∷ ("task_id", str e.task_id)
    ∷ ("trace_id", str e.trace_id)
    ∷ ("task_type", str (type_value e.task_type))
    ∷ ("created_at", str e.created_at)
    ∷ ("objective", str e.objective)
    ∷ ("job", obj (job_dump e.job))
    ∷ ("candidate_profile_ref", obj (profile_dump e.candidate_profile_ref))
    ∷ ("allowed_actions", strings e.allowed_actions)
    ∷ ("forbidden_actions", strings e.forbidden_actions)
    ∷ ("human_approval_required", strings e.human_approval_required)
    ∷ ("output_schema", str e.output_schema)
    ∷ ("evidence_required", strings e.evidence_required)
    ∷ [])

abbrev pub artifact_dump : ExternalAgentArtifactRef → Fields
artifact_dump a = fields (
    ("artifact_type", str a.artifact_type)
    ∷ ("path_or_uri", str a.path_or_uri)
    ∷ ("mime_type", opt_str a.mime_type)
    ∷ ("metadata", obj a.metadata)
    ∷ [])

abbrev pub reason_text : Option ApplyEntryBlockedReason → Option String
reason_text none = none
reason_text (some reason) = some (reason_value reason)

unfoldable pub result_dump : ApplyEntryDiscoveryResult → Fields
result_dump r = fields (
    ("schema_version", str r.schema_version)
    ∷ ("task_id", str r.task_id)
    ∷ ("status", str (discovery_value r.status))
    ∷ ("confidence", num r.confidence.0 r.confidence.1)
    ∷ ("company_name", opt_str r.company_name)
    ∷ ("job_title", opt_str r.job_title)
    ∷ ("source_url", opt_str r.source_url)
    ∷ ("apply_url", opt_str r.apply_url)
    ∷ ("final_browser_url", opt_str r.final_browser_url)
    ∷ ("platform", opt_str r.platform)
    ∷ ("button_text", opt_str r.button_text)
    ∷ ("requires_login", bool r.requires_login)
    ∷ ("blocked_reason", opt_str (reason_text r.blocked_reason))
    ∷ ("candidate_urls", strings r.candidate_urls)
    ∷ ("evidence_artifacts", arr (items (map (λ a. obj (artifact_dump a)) r.evidence_artifacts)))
    ∷ ("notes", opt_str r.notes)
    ∷ ("next_action", opt_str r.next_action)
    ∷ [])
