-- ===== src/DurableState/Artifacts.antt =====
-- durable_state/service.py: the artifacts that a result envelope or an external agent brings.
-- `repr` is Python's text of a list or of a dict, and `uuid` gives the fresh keys of the rows.
use offer_master.Prelude.{
  ℕ, suc, String, ◌<>◌, Option, none, some, List, [], ◌∷◌, or_else, if◌then◌else◌,
}
use offer_master.Prelude.Text.{strip, show, is_empty}
use offer_master.Prelude.Json.{
  Json, null, str, obj, arr, Items, nil, cons, Fields, field, end, get, or_json, str_value,
}
use offer_master.DurableState.Schemas.{AgentArtifactSourceKind, AgentArtifactIndexCreate}
use offer_master.DurableState.Models.{AgentArtifactIndex, ExternalAgentArtifact}
use offer_master.DurableState.Session.{Session}
use offer_master.Prelude.Effects.{M, pure, gets, ◌>>=◌, ◌>>◌}
use offer_master.DurableState.Service.{record_artifact, check_owner}

abbrev non_empty : String → Option String
non_empty text = if is_empty text then none else some text

-- `text or None`, of the stripped text of a value that is not None.
abbrev pub optional_str : (Json → String) → Json → Option String
optional_str repr null = none
optional_str repr value = non_empty (strip (str_value repr value))

abbrev first_some {ℓ} : {A : Type ℓ} → Option A → Option A → Option A
first_some none b = b
first_some (some a) b = some a

unfoldable pub artifact_uri : (Json → String) → Fields → Option String
artifact_uri repr artifact = first_some (optional_str repr (get "uri" artifact)) (
    first_some (optional_str repr (get "url" artifact)) (
      first_some (optional_str repr (get "path_or_uri" artifact))
        (optional_str repr (get "path" artifact))))

-- `result_envelope.get("artifacts")` of a dict.
abbrev envelope_field : String → Json → Json
envelope_field key (obj envelope) = get key envelope
envelope_field key _ = null

module _ (repr : Json → String) (uuid : ℕ → String) (task_id : String)
    (step_id : Option String) where
  abbrev pub envelope_command : Json → ℕ → Fields → String → AgentArtifactIndexCreate
  envelope_command envelope index artifact uri = record {
    artifact_id = "artifact-" <> uuid index;
    task_id = task_id;
    step_id = step_id;
    sequence_index = index;
    source_kind = AgentArtifactSourceKind.result_envelope;
    artifact_type =
        str_value repr
          (or_json (get "type" artifact) (or_json (get "artifact_type" artifact) (str "artifact")));
    title = some (or_else (optional_str repr (get "title" artifact)) ("artifact-" <> show index));
    uri = uri;
    mime_type = optional_str repr (get "mime_type" artifact);
    artifact_metadata =
        field "capability" (envelope_field "capability" envelope)
          (field "executor" (envelope_field "executor" envelope) (field "raw" (obj artifact) end));
  }

  abbrev metadata_of : Option Fields → Fields
  metadata_of metadata = or_else metadata end

  abbrev pub external_command : String → ℕ → ExternalAgentArtifact → AgentArtifactIndexCreate
  external_command external_task_id index artifact = record {
    artifact_id = "artifact-" <> uuid index;
    task_id = task_id;
    step_id = step_id;
    sequence_index = index;
    source_kind = AgentArtifactSourceKind.external_agent;
    artifact_type = artifact.artifact_type;
    title = some (
        or_else (optional_str repr (get "title" (metadata_of artifact.artifact_metadata)))
          artifact.artifact_type);
    uri = artifact.path_or_uri;
    mime_type = artifact.mime_type;
    artifact_metadata = field "external_task_id" (str external_task_id) (
        field "external_artifact_id" (str artifact.id)
          (field "raw_metadata" (obj (metadata_of artifact.artifact_metadata)) end));
  }

  module _ (D : Session) where
    -- One round of the loop, before the rounds that follow.
    abbrev record_first :
        AgentArtifactIndexCreate
        → M D.State (List AgentArtifactIndex)
        → M D.State (List AgentArtifactIndex)
    record_first command rest = do row ← record_artifact D command; rows ← rest; pure (row ∷ rows)

    abbrev visit :
        Json
        → ℕ
        → Fields
        → Option String
        → M D.State (List AgentArtifactIndex)
        → M D.State (List AgentArtifactIndex)
    visit envelope index artifact none rest = rest
    visit envelope index artifact (some uri) rest =
        record_first (envelope_command envelope index artifact uri) rest

    -- The loop, where `index` is the position of the next item, from 1. An item that is no dict or
    -- has no URI is passed over, and keeps its position.
    unfoldable pub record_items : Json → ℕ → Items → M D.State (List AgentArtifactIndex)
    record_items envelope index nil = pure []
    record_items envelope index (cons (obj artifact) items) =
        visit envelope index artifact (artifact_uri repr artifact)
          (record_items envelope (suc index) items)
    record_items envelope index (cons _ items) = record_items envelope (suc index) items

    abbrev record_list : Json → Json → M D.State (List AgentArtifactIndex)
    record_list envelope (arr items) = record_items envelope 1 items
    record_list envelope _ = pure []

    unfoldable pub record_artifacts_from_result_envelope :
        Json → M D.State (List AgentArtifactIndex)
    unfolding record_items
    record_artifacts_from_result_envelope envelope =
        record_list envelope (envelope_field "artifacts" envelope)

    unfoldable pub record_externals :
        String → ℕ → List ExternalAgentArtifact → M D.State (List AgentArtifactIndex)
    record_externals external_task_id index [] = pure []
    record_externals external_task_id index (artifact ∷ artifacts) =
        record_first (external_command external_task_id index artifact)
          (record_externals external_task_id (suc index) artifacts)

    unfoldable pub sync_external_agent_artifacts : String → M D.State (List AgentArtifactIndex)
    unfolding record_externals
    sync_external_agent_artifacts external_task_id = do
      check_owner D task_id step_id
      artifacts ← gets (λ s. D.external_artifacts_of s external_task_id)
      record_externals external_task_id 1 artifacts
