-- ===== src/ExternalTasks/ResultEnvelope.antt =====
-- routing/result_envelope.py: the envelope of the result of a task, with ResultEnvelope of
-- routing/schemas.py. `repr` is the text of a list or of a dict.
use offer_master.Prelude.{
  String, ◌<>◌, Bool, true, false, ◌&&◌, Option, none, some, List, [], ◌∷◌, ◌++◌, map, str_eq,
  if◌then◌else◌,
}
use offer_master.Prelude.Text.{is_empty, strip}
use offer_master.Prelude.Json.{
  Json, null, bool, str, arr, obj, Items, nil, cons, items, Fields, end, fields, get, or_json,
  str_value, opt_str,
}

pub record Artifact : Type 0 where
  pub kind : String
  pub title : String
  pub url : String

abbrev pub artifact_fields : Artifact → Json
artifact_fields a =
    obj (fields (("type", str a.kind) ∷ ("title", str a.title) ∷ ("url", str a.url) ∷ []))

pub record ResultEnvelope : Type 0 where
  pub status : String
  pub capability : String
  pub executor : String
  pub summary : String
  pub artifacts : List Artifact
  pub observations : List String
  pub requires_user_action : Bool
  pub risk_level : String
  pub raw_result : Fields
  pub error_code : Option String
  pub retryable : Option Bool
  pub next_action : Option String
  pub business_refs : List Fields
  pub source_type : Option String
  pub tool_call_log_id : Option String
  pub step_id : Option String

abbrev pub opt_bool : Option Bool → Json
opt_bool none = null
opt_bool (some b) = bool b

unfoldable pub to_dict : ResultEnvelope → Fields
to_dict e = fields (
    ("status", str e.status)
    ∷ ("capability", str e.capability)
    ∷ ("executor", str e.executor)
    ∷ ("summary", str e.summary)
    ∷ ("artifacts", arr (items (map artifact_fields e.artifacts)))
    ∷ ("observations", arr (items (map str e.observations)))
    ∷ ("requires_user_action", bool e.requires_user_action)
    ∷ ("risk_level", str e.risk_level)
    ∷ ("raw_result", obj e.raw_result)
    ∷ ("error_code", opt_str e.error_code)
    ∷ ("retryable", opt_bool e.retryable)
    ∷ ("next_action", opt_str e.next_action)
    ∷ ("business_refs", arr (items (map obj e.business_refs)))
    ∷ ("source_type", opt_str e.source_type)
    ∷ ("tool_call_log_id", opt_str e.tool_call_log_id)
    ∷ ("step_id", opt_str e.step_id)
    ∷ [])

abbrev pub task_envelope_status : String → String
task_envelope_status status =
    if str_eq status "found_opened"
    then "succeeded"
    else if str_eq status "blocked"
    then "waiting_user"
    else "failed"

-- `d.get(key)` of a dict, if it is a dict, else the empty one.
abbrev pub object_or_empty : Json → Fields
object_or_empty (obj fs) = fs
object_or_empty _ = end

abbrev pub same_artifact : Artifact → Artifact → Bool
same_artifact a b = str_eq a.kind b.kind && str_eq a.title b.title && str_eq a.url b.url

unfoldable pub seen_in : Artifact → List Artifact → Bool
seen_in a [] = false
seen_in a (b ∷ seen) = if same_artifact b a then true else seen_in a seen

-- The loop that keeps the first of equal artifacts.
unfoldable pub unique_from : List Artifact → List Artifact → List Artifact
unfolding seen_in
unique_from seen [] = []
unique_from seen (a ∷ rest) =
    let skipped = unique_from seen rest in
    let kept = unique_from (a ∷ seen) rest in if seen_in a seen then skipped else a ∷ kept

module _ (repr : Json → String) where
  -- `str(value or default)`
  abbrev pub text_or : String → Json → String
  text_or default value = str_value repr (or_json value (str default))

  unfoldable pub evidence_of : Fields → List Artifact
  unfolding strip get
  evidence_of item =
      let path_or_uri = strip (text_or "" (get "path_or_uri" item)) in
      let artifact_type = strip (text_or "artifact" (get "artifact_type" item)) in
      if is_empty path_or_uri
      then []
      else record { kind = artifact_type; title = artifact_type; url = path_or_uri } ∷ []

  unfoldable pub evidence_artifacts : Items → List Artifact
  evidence_artifacts nil = []
  evidence_artifacts (cons (obj item) rest) = evidence_of item ++ evidence_artifacts rest
  evidence_artifacts (cons _ rest) = evidence_artifacts rest

  unfoldable pub all_evidence : Json → List Artifact
  unfolding evidence_artifacts
  all_evidence (arr evidence) = evidence_artifacts evidence
  all_evidence _ = []

  abbrev pub entry_artifact : String → List Artifact
  entry_artifact apply_url =
      if is_empty apply_url
      then []
      else record { kind = "url"; title = "application_entry"; url = apply_url } ∷ []

  unfoldable pub apply_entry_artifacts : Fields → String → List Artifact
  unfolding unique_from get
  apply_entry_artifacts result_payload apply_url =
      unique_from []
        (entry_artifact apply_url ++ all_evidence (get "evidence_artifacts" result_payload))

  unfoldable pub entry_url : Fields → String
  unfolding strip get
  entry_url result_payload = strip (
      text_or ""
        (or_json (get "apply_url" result_payload) (get "final_browser_url" result_payload)))

  unfoldable pub summary_of : Fields → Fields → String → String
  unfolding get
  summary_of result_payload job result_status =
      let company_name =
        text_or "目标公司" (or_json (get "company_name" result_payload) (get "company_name" job)) in
      let title = text_or "目标岗位" (or_json (get "job_title" result_payload) (get "title" job)) in
      let apply_url = entry_url result_payload in
      let summary = company_name <> (" - " <> (title <> (" 申请入口任务状态：" <> result_status))) in
      if is_empty apply_url then summary else summary <> ("，入口：" <> apply_url)

  unfoldable pub build_apply_entry_task_result_envelope :
      Fields → Fields → Option String → String → ResultEnvelope
  unfolding get apply_entry_artifacts
  build_apply_entry_task_result_envelope result_payload task_input_payload executor_name
        risk_level =
      let job = object_or_empty (get "job" task_input_payload) in
      let result_status = text_or "unknown" (get "status" result_payload) in
      let summary = summary_of result_payload job result_status in
      record {
        status = task_envelope_status result_status;
        capability = "applications.find_apply_entry";
        executor =
            text_or "external_agent"
              (or_json (opt_str executor_name) (get "executor_name" result_payload));
        summary = summary;
        artifacts = apply_entry_artifacts result_payload (entry_url result_payload);
        observations = summary ∷ [];
        requires_user_action = true;
        risk_level = risk_level;
        raw_result = result_payload;
        error_code = none;
        retryable = none;
        next_action = none;
        business_refs = [];
        source_type = none;
        tool_call_log_id = none;
        step_id = none;
      }
