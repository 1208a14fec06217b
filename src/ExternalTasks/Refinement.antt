-- ===== src/ExternalTasks/Refinement.antt =====
-- The rows of the service as an implementation of the ledger of its tasks.
use offer_master.Prelude.{
  ◌≡◌, refl, sym, ◌∙◌, ap, subst, inl, inr, String, Bool, true, false, ◌||◌, Option, none, some,
  List, [], ◌∷◌, ◌++◌, map, str_eq, str_eq_cases,
}
use offer_master.ExternalTasks.Schemas.{
  ExternalTaskType, type_value, type_from_value, ExternalAgentTaskStatus, status_value,
  status_from_value,
}
use offer_master.ExternalTasks.Session.{ExternalAgentTask, ExternalAgentTaskEvent, TaskSession}
use offer_master.ExternalTasks.Repository.{is_final, completed_at, first_of}
use offer_master.ExternalTasks.Lifecycle.{TaskView, Ledger}
use offer_master.ExternalTasks.Writes.{Wrote, Readable}

abbrev pub given : {A : Type 0} → Option A → Bool
given none = false
given (some _) = true

-- The kinds of events.
abbrev pub kinds : List ExternalAgentTaskEvent → List String
kinds = map (λ (e : ExternalAgentTaskEvent). e.event_type)

-- A stored row, with the events of its task, as the view of the task.
pub record Shows (D : TaskSession) (s : D.State) (k : String) (v : TaskView) : Type 0 where
  pub task : ExternalAgentTask
  pub stored : D.get_task s k ≡ some task
  pub typed : task.task_type ≡ type_value ExternalTaskType.find_apply_entry
  pub status : task.status ≡ status_value v.status
  pub blocked_reason : task.blocked_reason ≡ v.blocked_reason
  pub completed : given task.completed_at ≡ v.completed
  pub log : kinds (D.events_of s k) ≡ v.log

abbrev pub Matches : (D : TaskSession) → D.State → String → Option TaskView → Type 0
Matches D s k none = (D.get_task s k ≡ none) × (D.events_of s k ≡ [])
Matches D s k (some v) = Shows D s k v

-- The session implements the ledger.
abbrev pub Implements : (D : TaskSession) → D.State → Ledger → Type 0
Implements D s a = (k : String) → Matches D s k (a k)

-- Reading the text of a status gives the status.
pub status_from_value-status_value :
    (status : ExternalAgentTaskStatus) → status_from_value (status_value status) ≡ some status
unfolding status_from_value str_eq
status_from_value-status_value ExternalAgentTaskStatus.created = refl
status_from_value-status_value ExternalAgentTaskStatus.queued = refl
status_from_value-status_value ExternalAgentTaskStatus.running = refl
status_from_value-status_value ExternalAgentTaskStatus.waiting_user = refl
status_from_value-status_value ExternalAgentTaskStatus.succeeded = refl
status_from_value-status_value ExternalAgentTaskStatus.failed = refl
status_from_value-status_value ExternalAgentTaskStatus.canceled = refl

pub readable :
    (t : ExternalAgentTask) (status : ExternalAgentTaskStatus)
    → t.task_type ≡ type_value ExternalTaskType.find_apply_entry
    → t.status ≡ status_value status
    → Readable t
unfolding type_from_value str_eq
readable t status typed known = record {
  task_type = ExternalTaskType.find_apply_entry;
  status = status;
  typed = ap type_from_value typed;
  known = ap status_from_value known ∙ status_from_value-status_value status;
}

map-append_one :
    {A B : Type 0} (f : A → B) (xs : List A) (x : A)
    → map f (xs ++ (x ∷ [])) ≡ map f xs ++ (f x ∷ [])
map-append_one f [] x = refl
map-append_one f (y ∷ xs) x = ap (λ l. f y ∷ l) (map-append_one f xs x)

pub given-first_of :
    (old : Option String) (now : String) (status : ExternalAgentTaskStatus)
    → given (first_of old (completed_at now status)) ≡ (given old || is_final status)
given-first_of (some _) now status = refl
given-first_of none now ExternalAgentTaskStatus.created = refl
given-first_of none now ExternalAgentTaskStatus.queued = refl
given-first_of none now ExternalAgentTaskStatus.running = refl
given-first_of none now ExternalAgentTaskStatus.waiting_user = refl
given-first_of none now ExternalAgentTaskStatus.succeeded = refl
given-first_of none now ExternalAgentTaskStatus.failed = refl
given-first_of none now ExternalAgentTaskStatus.canceled = refl

pub first_of-none : (old : Option String) → given (first_of old none) ≡ given old
first_of-none none = refl
first_of-none (some _) = refl

module _ (D : TaskSession) where
  -- A view of another task stays.
  kept :
      (s s' : D.State) (k : String) (o : Option TaskView)
      → D.get_task s' k ≡ D.get_task s k
      → D.events_of s' k ≡ D.events_of s k
      → Matches D s k o
      → Matches D s' k o
  kept s s' k none same quiet (free, silent) = (same ∙ free, quiet ∙ silent)
  kept s s' k (some v) same quiet shows = record {
    task = shows.task;
    stored = same ∙ shows.stored;
    typed = shows.typed;
    status = shows.status;
    blocked_reason = shows.blocked_reason;
    completed = shows.completed;
    log = ap (map (λ (e : ExternalAgentTaskEvent). e.event_type)) quiet ∙ shows.log;
  }

  -- The log of a task after a write.
  pub log_after :
      (s s' : D.State) (t : ExternalAgentTask) (e : ExternalAgentTaskEvent) (log : List String)
      → Wrote D s s' t e
      → kinds (D.events_of s t.id) ≡ log
      → kinds (D.events_of s' t.id) ≡ log ++ (e.event_type ∷ [])
  log_after s s' t e log wrote before =
      ap (map (λ (x : ExternalAgentTaskEvent). x.event_type)) wrote.logged
      ∙ map-append_one (λ (x : ExternalAgentTaskEvent). x.event_type) (D.events_of s t.id) e
      ∙ ap (λ l. l ++ (e.event_type ∷ [])) before

  -- A write matches a change of the ledger at its task.
  pub wrote-Implements :
      (s s' : D.State) (t : ExternalAgentTask) (e : ExternalAgentTaskEvent) (a b : Ledger)
      → Wrote D s s' t e
      → Implements D s a
      → Matches D s' t.id (b t.id)
      → ((k : String) → str_eq t.id k ≡ false → b k ≡ a k)
      → Implements D s' b
  wrote-Implements s s' t e a b wrote all here others k = elim (str_eq_cases t.id k) [
    | inl same ↦ subst (λ (k : String). Matches D s' k (b k)) same here
    | inr other ↦
        subst (Matches D s' k) (sym (others k other))
          (kept s s' k (a k) (wrote.elsewhere k other).0 (wrote.elsewhere k other).1 (all k))
  ]
