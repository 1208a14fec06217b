-- ===== src/ExternalTasks/Examples.antt =====
-- Tests of the external tasks over a session in memory: a task that is created, dispatched to an
-- executor that finds the entry, that raises, and that answers for another task.
use offer_master.Prelude.{
  ◌↔◌, Memᴰ, ◌≡◌, ◌≢◌, refl, String, true, false, Option, none, some, List, [], ◌∷◌, str_eq,
  ne_of_str_ne,
}
use offer_master.Prelude.Json.{Json, Fields, end}
use offer_master.Prelude.Effects.{raise, value_error}
use offer_master.ExternalTasks.Schemas.{
  find_apply_entry_task, ExternalTaskType, ExternalAgentTaskStatus, ApplyEntryDiscoveryStatus,
  FindApplyEntryTaskEnvelope, ExternalAgentArtifactRef, ApplyEntryDiscoveryResult, type_from_value,
  status_from_value, checked_result, validate_status_contract,
}
use offer_master.ExternalTasks.Payloads.{envelope_dump, result_dump}
use offer_master.ExternalTasks.ResultEnvelope.{Artifact, build_apply_entry_task_result_envelope}
use offer_master.ExternalTasks.Repository.{create, add_event}
use offer_master.Prelude.Table.{find}
use offer_master.ExternalTasks.Service.{mismatch, create_find_apply_entry_task}
use offer_master.ExternalTasks.Dispatcher.{Outcome, returned, raised, dispatch}
use offer_master.ExternalTasks.Session.{ExternalAgentTask}
use offer_master.ExternalTasks.Memory.{Tables, memory, memory-IsLawful, task_in, keep}
use offer_master.ExternalTasks.Lifecycle.{Command, perform, perform_all, spec_all}
use offer_master.ExternalTasks.Refinement.{Matches}
use offer_master.ExternalTasks.Simulation.{perform_all-Implements}
use offer_master.ExternalTasks.Agreement.{Empty, Settled, perform_all-Settled}
use offer_master.ExternalTasks.Dispatching.{Dispatched, dispatch_lem, dispatch-mismatch}
use offer_master.ExternalTasks.EnvelopeArtifacts.{
  Distinct, Shown, build_apply_entry_task_result_envelope-artifacts,
}
use offer_master.ExternalTasks.Envelopes.{build_apply_entry_task_result_envelope-status}
use offer_master.ExternalTasks.Writes.{Readable, queued_row}

abbrev repr : Json → String
repr _ = "{}"

abbrev payload_hash : Fields → String
payload_hash _ = "44136fa3"

abbrev envelope : FindApplyEntryTaskEnvelope
envelope =
    find_apply_entry_task "task-1" "trace-1" "2026-06-01T08:00:00"
      (record {
        job_id = "job-1";
        company_name = "Acme";
        title = "Engineer";
        source_url = none;
        apply_url_candidate = none;
        jd_summary = none;
      })
      (record { profile_id = "profile-1"; resume_version_id = "resume-1" })

abbrev screenshot : ExternalAgentArtifactRef
screenshot = record {
  artifact_type = "screenshot";
  path_or_uri = "shots/1.png";
  mime_type = some "image/png";
  metadata = end;
}

abbrev opened : ApplyEntryDiscoveryResult
opened = record {
  schema_version = "offer_master.apply_entry_result.v1";
  task_id = "task-1";
  status = ApplyEntryDiscoveryStatus.found_opened;
  confidence = (true, "0.9");
  company_name = some "Acme";
  job_title = some "Engineer";
  source_url = none;
  apply_url = some "https://acme.example/apply";
  final_browser_url = none;
  platform = none;
  button_text = some "Apply";
  requires_login = false;
  blocked_reason = none;
  candidate_urls = [];
  evidence_artifacts = screenshot ∷ screenshot ∷ [];
  notes = none;
  next_action = none;
}

abbrev strayed : ApplyEntryDiscoveryResult
strayed = record opened { task_id = "task-2" }

abbrev empty : Tables
empty = record { tasks = []; events = []; artifacts = [] }

abbrev queued : ExternalAgentTask
queued = queued_row memory memory-IsLawful repr payload_hash envelope

abbrev one_task : Tables
one_task = record { tasks = queued ∷ []; events = []; artifacts = [] }

queued-Readable : Readable queued
unfolding type_from_value status_from_value str_eq
queued-Readable = record {
  task_type = ExternalTaskType.find_apply_entry;
  status = ExternalAgentTaskStatus.queued;
  typed = refl;
  known = refl;
}

abbrev model_validate : Fields → Option FindApplyEntryTaskEnvelope
model_validate _ = some envelope

abbrev failing : FindApplyEntryTaskEnvelope → Outcome
failing _ = raised "TimeoutError" "no reply"

abbrev straying : FindApplyEntryTaskEnvelope → Outcome
straying _ = returned strayed

result_is_valid : checked_result opened ≡ some opened
unfolding checked_result validate_status_contract
result_is_valid = refl

abbrev commands : List Command
commands =
    Command.create "09:00" envelope
    ∷ Command.start "09:01" "task-1"
    ∷ Command.finish "09:02" "09:03" "task-1" strayed none
    ∷ Command.finish "09:04" "09:05" "task-1" opened (some "edge")
    ∷ []

empty-Empty : Empty memory empty
unfolding find keep
empty-Empty k = (refl, refl)

perform_all-Implements_example :
    Matches memory
      (perform_all repr payload_hash memory commands empty)
      "task-1"
      (spec_all commands (λ k. none) "task-1")
perform_all-Implements_example =
    perform_all-Implements repr payload_hash memory memory-IsLawful commands empty (λ k. none)
      empty-Empty "task-1"

-- Creating the task stores its row.
stored_queued :
    memory.get_task
      (perform_all repr payload_hash memory (Command.create "09:00" envelope ∷ []) empty)
      "task-1"
    ≡ some queued
unfolding perform_all perform create_find_apply_entry_task create add_event find str_eq
stored_queued = refl

queued_stored : memory.get_task one_task "task-1" ≡ some queued
unfolding find str_eq
queued_stored = refl

strayed_apart : strayed.task_id ≢ "task-1"
unfolding str_eq
strayed_apart = ne_of_str_ne "task-2" "task-1" refl

perform_all-Settled_example :
    Settled memory
      (perform_all repr payload_hash memory (Command.create "09:00" envelope ∷ []) empty)
      queued
perform_all-Settled_example =
    perform_all-Settled repr payload_hash memory memory-IsLawful
      (Command.create "09:00" envelope ∷ []) empty empty-Empty "task-1" stored_queued

dispatch_lem_example :
    Dispatched memory one_task queued ApplyEntryDiscoveryStatus.failed
      (dispatch repr model_validate memory "edge" failing "09:01" "09:02" "task-1" one_task)
dispatch_lem_example =
    dispatch_lem repr model_validate memory memory-IsLawful "edge" failing "09:01" "09:02" one_task
      queued queued-Readable envelope queued_stored refl refl refl tt

dispatch-mismatch_example :
    ((dispatch repr model_validate memory "edge" straying "09:01" "09:02" "task-1" one_task).0
      ≡ raise (value_error (mismatch "task-2" "task-1")))
    × ((after : ExternalAgentTask) × (task_in
            (dispatch repr model_validate memory "edge" straying "09:01" "09:02" "task-1"
              one_task).1
            "task-1"
          ≡ some after)
        × (after.status ≡ "running"))
dispatch-mismatch_example =
    dispatch-mismatch repr model_validate memory memory-IsLawful "edge" straying "09:01" "09:02"
      one_task queued queued-Readable envelope strayed queued_stored refl refl strayed_apart

build_apply_entry_task_result_envelope-artifacts_example :
    let shown =
      (build_apply_entry_task_result_envelope repr
        (result_dump opened)
        (envelope_dump envelope)
        (some "edge")
        "medium").artifacts in
    Distinct shown × ((a : Artifact) → Memᴰ a shown ↔ Shown opened a)
build_apply_entry_task_result_envelope-artifacts_example =
    build_apply_entry_task_result_envelope-artifacts repr opened (envelope_dump envelope)
      (some "edge") "medium"

build_apply_entry_task_result_envelope-status_example :
    (build_apply_entry_task_result_envelope repr
      (result_dump opened)
      (envelope_dump envelope)
      (some "edge")
      "medium").status
    ≡ "succeeded"
build_apply_entry_task_result_envelope-status_example =
    build_apply_entry_task_result_envelope-status repr opened (envelope_dump envelope) (some "edge")
      "medium"
