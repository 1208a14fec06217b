-- ===== src/DurableState/Session.antt =====
-- What the repository uses of the database session, which is SQLAlchemy's: reading a row by its
-- key, the two queries, and `add` with `flush`, which inserts a new row or updates a loaded one.
use offer_master.Prelude.{◌≡◌, ◌↔◌, Option, none, some, String, List, Memᴰ, str_eq, if◌then◌else◌}
use offer_master.DurableState.Models.{
  AgentTaskState, AgentStepState, AgentMemorySnapshot, AgentArtifactIndex, ExternalAgentArtifact,
}

-- `none` is the IntegrityError of a row that the database refuses.
pub record Session : Type 1 where
  pub State : Type 0
  pub get_task : State → String → Option AgentTaskState
  pub get_step : State → String → Option AgentStepState
  pub steps_of : State → String → List AgentStepState
  pub snapshots_of : State → String → List AgentMemorySnapshot
  pub artifacts_of : State → String → List AgentArtifactIndex
  pub external_artifacts_of : State → String → List ExternalAgentArtifact
  pub insert_task : State → AgentTaskState → Option State
  pub insert_step : State → AgentStepState → Option State
  pub insert_snapshot : State → AgentMemorySnapshot → Option State
  pub insert_artifact : State → AgentArtifactIndex → Option State
  pub update_task : State → AgentTaskState → State
  pub update_step : State → AgentStepState → State

-- A row is found under its key with the values last written, a write touches no other row, an
-- inserted key is new, an inserted step names a task that is stored (its foreign key), and the query for the steps of a task gives the rows that name the task.
pub record IsLawful (D : Session) : Type 0 where
  pub get_task-id :
      (s : D.State) (k : String) {t : AgentTaskState} → D.get_task s k ≡ some t → t.id ≡ k
  pub get_step-id :
      (s : D.State) (k : String) {x : AgentStepState} → D.get_step s k ≡ some x → x.id ≡ k
  pub mem-steps_of :
      (s : D.State) (k : String) (x : AgentStepState)
      → Memᴰ x (D.steps_of s k) ↔ ((D.get_step s x.id ≡ some x) × (x.task_id ≡ k))
  pub get_task-update_task :
      (s : D.State) (t : AgentTaskState) (k : String) {old : AgentTaskState}
      → D.get_task s t.id ≡ some old
      → D.get_task (D.update_task s t) k ≡ (if str_eq t.id k then some t else D.get_task s k)
  pub get_step-update_task :
      (s : D.State) (t : AgentTaskState) (k : String)
      → D.get_step (D.update_task s t) k ≡ D.get_step s k
  pub get_step-update_step :
      (s : D.State) (x : AgentStepState) (k : String) {old : AgentStepState}
      → D.get_step s x.id ≡ some old
      → D.get_step (D.update_step s x) k ≡ (if str_eq x.id k then some x else D.get_step s k)
  pub get_task-update_step :
      (s : D.State) (x : AgentStepState) (k : String)
      → D.get_task (D.update_step s x) k ≡ D.get_task s k
  pub get_step-insert_step :
      (s : D.State) (x : AgentStepState) (k : String) {s' : D.State}
      → D.insert_step s x ≡ some s'
      → D.get_step s' k ≡ (if str_eq x.id k then some x else D.get_step s k)
  pub insert_step_owner :
      (s : D.State) (x : AgentStepState) {s' : D.State}
      → D.insert_step s x ≡ some s'
      → (t : AgentTaskState) × (D.get_task s x.task_id ≡ some t)
  pub insert_step_new :
      (s : D.State) (x : AgentStepState) {s' : D.State}
      → D.insert_step s x ≡ some s'
      → D.get_step s x.id ≡ none
  pub get_task-insert_step :
      (s : D.State) (x : AgentStepState) (k : String) {s' : D.State}
      → D.insert_step s x ≡ some s'
      → D.get_task s' k ≡ D.get_task s k
