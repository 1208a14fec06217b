-- ===== src/DurableState/Failures.antt =====
-- The calls of durable_state/service.py that raise, and what they leave in the session.
use offer_master.Prelude.{
  ◌≡◌, ◌≢◌, refl, sym, ◌∙◌, inl, inr, String, true, Option, none, some, Option-cases,
}
use offer_master.Prelude.Json.{Fields}
use offer_master.DurableState.Schemas.{
  AgentStepStateCreate, AgentArtifactIndexCreate, AgentMemorySnapshotCreate, step_command_ok,
}
use offer_master.DurableState.Models.{Time, AgentTaskState}
use offer_master.DurableState.Session.{Session, IsLawful}
use offer_master.Prelude.Effects.{raise, task_not_found, step_not_found, integrity_error}
use offer_master.DurableState.Repository.{step_row}
use offer_master.DurableState.Service.{
  add_step, mark_step_running, mark_step_waiting_user, mark_step_succeeded, mark_step_failed,
  record_artifact, record_memory_snapshot, check_owner, get_task,
}

no_owner_stored : (t : AgentTaskState) → none ≢ some t
no_owner_stored t e = cc

module _ (D : Session) (s : D.State) where
  -- Each of the four marks of a step that does not exist raises the same error and changes nothing.
  pub mark_step_missing :
      (step_id : String) (now later : Time) (a b c d : Option String) (e f g : Option Fields)
      → D.get_step s step_id ≡ none
      → (mark_step_running D now step_id s ≡ (raise (step_not_found step_id), s))
        × (mark_step_waiting_user D step_id a b e s ≡ (raise (step_not_found step_id), s))
        × (mark_step_succeeded D now step_id c d f s ≡ (raise (step_not_found step_id), s))
        × (mark_step_failed D now later step_id g s ≡ (raise (step_not_found step_id), s))
  unfolding mark_step_running mark_step_waiting_user mark_step_succeeded mark_step_failed
  mark_step_missing step_id now later a b c d e f g missing = rw missing (refl, refl, refl, refl)

  no_owner :
      (task_id : String) (step_id : Option String)
      → D.get_task s task_id ≡ none
      → check_owner D task_id step_id s ≡ (raise (task_not_found task_id), s)
  unfolding get_task
  no_owner task_id none no_task = rw no_task
  no_owner task_id (some step_id) no_task = rw no_task

  -- The three operations that record something of a task, called for a task that does not exist, with
  -- a step whose command passes the checks. An artifact and a memory snapshot are refused by the
  -- look-up of the task. The step is inserted before the task is looked up, so it is the foreign key
  -- of its row that refuses it, and the call raises the database's IntegrityError, not the error for a
  -- missing task. None of the three writes anything.
  pub add_step-orphan :
      IsLawful D
      → (command : AgentStepStateCreate)
      → (artifact : AgentArtifactIndexCreate) (snapshot : AgentMemorySnapshotCreate)
      → step_command_ok command ≡ true
      → D.get_task s command.task_id ≡ none
      → D.get_task s artifact.task_id ≡ none
      → D.get_task s snapshot.task_id ≡ none
      → (add_step D command s ≡ (raise integrity_error, s))
        × (record_artifact D artifact s ≡ (raise (task_not_found artifact.task_id), s))
        × (record_memory_snapshot D snapshot s ≡ (raise (task_not_found snapshot.task_id), s))
  unfolding add_step record_artifact record_memory_snapshot
  add_step-orphan L command artifact snapshot valid no_task no_task' no_task'' = (
    elim (Option-cases (D.insert_step s (step_row command))) [
      | inl refused ↦ rw (valid, refused) refl
      | inr (s', inserted) ↦
          let (t, owned) = L.insert_step_owner s (step_row command) inserted in
          absurd (no_owner_stored t (sym no_task ∙ owned))
    ],
    rw (no_owner artifact.task_id artifact.step_id no_task'),
    rw (no_owner snapshot.task_id snapshot.step_id no_task''),
  )
