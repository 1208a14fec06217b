-- ===== src/ExternalTasks/Session.antt =====
-- external_tasks/models.py: the rows, and what the repository uses of the database session, which is
-- SQLAlchemy's. The columns that the database layer fills (the keys of events and artifacts,
-- `created_at` and `updated_at`) are left out. A status is kept as its text.
use offer_master.Prelude.{
  ◌≡◌, Option, none, some, String, List, [], ◌∷◌, ◌++◌, str_eq, if◌then◌else◌, All,
}
use offer_master.Prelude.Json.{Fields}

pub record ExternalAgentTask : Type 0 where
  pub id : String
  pub task_type : String
  pub status : String
  pub trace_id : Option String
  pub context_pack_hash : String
  pub input_payload : Fields
  pub output_payload : Option Fields
  pub blocked_reason : Option String
  pub completed_at : Option String

pub record ExternalAgentTaskEvent : Type 0 where
  pub task_id : String
  pub event_type : String
  pub payload : Fields

pub record ExternalAgentArtifact : Type 0 where
  pub task_id : String
  pub artifact_type : String
  pub path_or_uri : String
  pub mime_type : Option String
  pub artifact_metadata : Fields

-- `none` is the IntegrityError of a row that the database refuses. The events of a task are listed
-- as they were inserted.
pub record TaskSession : Type 1 where
  pub State : Type 0
  pub get_task : State → String → Option ExternalAgentTask
  pub events_of : State → String → List ExternalAgentTaskEvent
  pub artifacts_of : State → String → List ExternalAgentArtifact
  pub insert_task : State → ExternalAgentTask → Option State
  pub update_task : State → ExternalAgentTask → State
  pub insert_event : State → ExternalAgentTaskEvent → Option State
  pub delete_artifacts : State → String → State
  pub insert_artifacts : State → List ExternalAgentArtifact → Option State

-- A row is found under its key with the values last written, a write touches no other row and no
-- other table, a key that is free is accepted, and so is a row that names a stored task.
pub record IsLawful (D : TaskSession) : Type 0 where
  pub get_task-id :
      (s : D.State) (k : String) {t : ExternalAgentTask} → D.get_task s k ≡ some t → t.id ≡ k
  pub insert_task_taken :
      (s : D.State) (t : ExternalAgentTask) {old : ExternalAgentTask}
      → D.get_task s t.id ≡ some old
      → D.insert_task s t ≡ none
  pub insert_task_free :
      (s : D.State) (t : ExternalAgentTask)
      → D.get_task s t.id ≡ none
      → (s' : D.State) × (D.insert_task s t ≡ some s')
  pub get_task-insert_task :
      (s : D.State) (t : ExternalAgentTask) (k : String) {s' : D.State}
      → D.insert_task s t ≡ some s'
      → D.get_task s' k ≡ (if str_eq t.id k then some t else D.get_task s k)
  pub events_of-insert_task :
      (s : D.State) (t : ExternalAgentTask) (k : String) {s' : D.State}
      → D.insert_task s t ≡ some s'
      → D.events_of s' k ≡ D.events_of s k
  pub get_task-update_task :
      (s : D.State) (t : ExternalAgentTask) (k : String) {old : ExternalAgentTask}
      → D.get_task s t.id ≡ some old
      → D.get_task (D.update_task s t) k ≡ (if str_eq t.id k then some t else D.get_task s k)
  pub events_of-update_task :
      (s : D.State) (t : ExternalAgentTask) (k : String)
      → D.events_of (D.update_task s t) k ≡ D.events_of s k
  pub insert_event_known :
      (s : D.State) (e : ExternalAgentTaskEvent) {t : ExternalAgentTask}
      → D.get_task s e.task_id ≡ some t
      → (s' : D.State) × (D.insert_event s e ≡ some s')
  pub get_task-insert_event :
      (s : D.State) (e : ExternalAgentTaskEvent) (k : String) {s' : D.State}
      → D.insert_event s e ≡ some s'
      → D.get_task s' k ≡ D.get_task s k
  pub events_of-insert_event :
      (s : D.State) (e : ExternalAgentTaskEvent) (k : String) {s' : D.State}
      → D.insert_event s e ≡ some s'
      → D.events_of s' k
        ≡ (if str_eq e.task_id k then D.events_of s k ++ (e ∷ []) else D.events_of s k)
  pub get_task-delete_artifacts :
      (s : D.State) (task_id k : String)
      → D.get_task (D.delete_artifacts s task_id) k ≡ D.get_task s k
  pub events_of-delete_artifacts :
      (s : D.State) (task_id k : String)
      → D.events_of (D.delete_artifacts s task_id) k ≡ D.events_of s k
  pub insert_artifacts_known :
      (s : D.State) (rows : List ExternalAgentArtifact)
      → All
          (λ (a : ExternalAgentArtifact).
            (t : ExternalAgentTask) × (D.get_task s a.task_id ≡ some t))
          rows
      → (s' : D.State) × (D.insert_artifacts s rows ≡ some s')
  pub get_task-insert_artifacts :
      (s : D.State) (rows : List ExternalAgentArtifact) (k : String) {s' : D.State}
      → D.insert_artifacts s rows ≡ some s'
      → D.get_task s' k ≡ D.get_task s k
  pub events_of-insert_artifacts :
      (s : D.State) (rows : List ExternalAgentArtifact) (k : String) {s' : D.State}
      → D.insert_artifacts s rows ≡ some s'
      → D.events_of s' k ≡ D.events_of s k
