-- ===== src/ExternalTasks/Memory.antt =====
-- A session whose tables are lists, where a task row hides the older rows of its key. It shows that
-- the laws asked of a session can hold, and runs the examples.
use offer_master.Prelude.{
  ◌≡◌, refl, sym, ◌∙◌, ap, String, Option, none, some, List, [], ◌∷◌, ◌++◌, str_eq, if◌then◌else◌,
  Bool-cases, inl, inr, Bool, true, false, ◌&&◌, All,
}
use mathlib.Core.Option.{some-injective}
use offer_master.Prelude.Table.{find, find-key}
use offer_master.ExternalTasks.Session.{
  ExternalAgentTask, ExternalAgentTaskEvent, ExternalAgentArtifact, TaskSession, IsLawful,
}

pub record Tables : Type 0 where
  pub tasks : List ExternalAgentTask
  pub events : List ExternalAgentTaskEvent
  pub artifacts : List ExternalAgentArtifact

abbrev pub task_in : Tables → String → Option ExternalAgentTask
task_in s = find (λ t. t.id) s.tasks

module _ {R : Type 0} (owner : R → String) (k : String) where
  unfoldable pub keep : List R → List R
  keep [] = []
  keep (r ∷ rows) = let rest = keep rows in if str_eq (owner r) k then r ∷ rest else rest

  unfoldable pub discard : List R → List R
  discard [] = []
  discard (r ∷ rows) = let rest = discard rows in if str_eq (owner r) k then rest else r ∷ rest

  keep-append_one :
      (xs : List R) (y : R)
      → keep (xs ++ (y ∷ [])) ≡ (if str_eq (owner y) k then keep xs ++ (y ∷ []) else keep xs)
  unfolding keep
  keep-append_one [] y = refl
  keep-append_one (x ∷ xs) y =
      let rest = keep-append_one xs y in
      elim (Bool-cases (str_eq (owner x) k)) [
        | inl mine ↦ elim (Bool-cases (str_eq (owner y) k)) [
          | inl e ↦ rw (mine, e) (ap (λ l. x ∷ l) (rw e at rest))
          | inr e ↦ rw (mine, e) (ap (λ l. x ∷ l) (rw e at rest))
        ]
        | inr other ↦ rw other rest
      ]

abbrev unless_taken : {A : Type 0} → Option A → Tables → Option Tables
unless_taken none s = some s
unless_taken (some _) s = none

abbrev if_known : {A : Type 0} → Option A → Tables → Option Tables
if_known none s = none
if_known (some _) s = some s

abbrev known : {A : Type 0} → Option A → Bool
known none = false
known (some _) = true

abbrev all_known : Tables → List ExternalAgentArtifact → Bool
all_known s [] = true
all_known s (a ∷ rows) = let rest = all_known s rows in known (task_in s a.task_id) && rest

abbrev when : Bool → Tables → Option Tables
when true s = some s
when false s = none

abbrev pub memory : TaskSession
memory = record {
  State = Tables;
  get_task = task_in;
  events_of = λ s k. keep (λ e. e.task_id) k s.events;
  artifacts_of = λ s k. keep (λ a. a.task_id) k s.artifacts;
  insert_task = λ s t. unless_taken (task_in s t.id) (record s { tasks = t ∷ s.tasks });
  update_task = λ s t. record s { tasks = t ∷ s.tasks };
  insert_event = λ s e. if_known (task_in s e.task_id) (record s { events = s.events ++ (e ∷ []) });
  delete_artifacts = λ s k. record s { artifacts = discard (λ a. a.task_id) k s.artifacts };
  insert_artifacts =
      λ s rows. when (all_known s rows) (record s { artifacts = s.artifacts ++ rows });
}

unless_taken_lem : {A : Type 0} (o : Option A) {s s' : Tables} → unless_taken o s ≡ some s' → s' ≡ s
unless_taken_lem none e = sym (some-injective _ _ e)
unless_taken_lem (some _) e = cc

if_known_lem : {A : Type 0} (o : Option A) {s s' : Tables} → if_known o s ≡ some s' → s' ≡ s
if_known_lem none e = cc
if_known_lem (some _) e = sym (some-injective _ _ e)

when_lem : (b : Bool) {s s' : Tables} → when b s ≡ some s' → s' ≡ s
when_lem true e = sym (some-injective _ _ e)
when_lem false e = cc

all_known_lem :
    (s : Tables) (rows : List ExternalAgentArtifact)
    → All
        (λ (a : ExternalAgentArtifact). (t : ExternalAgentTask) × (task_in s a.task_id ≡ some t))
        rows
    → all_known s rows ≡ true
all_known_lem s [] h = refl
all_known_lem s (a ∷ rows) ((t, at), rest) = rw at (all_known_lem s rows rest)

pub memory-IsLawful : IsLawful memory
unfolding find
memory-IsLawful = record {
  get_task-id = λ s k e. find-key (λ t. t.id) s.tasks k e;
  insert_task_taken = λ s t e. rw e refl;
  insert_task_free = λ s t e. (record s { tasks = t ∷ s.tasks }, rw e refl);
  get_task-insert_task = λ s t k e. ap (λ (r : Tables). task_in r k) (unless_taken_lem _ e);
  events_of-insert_task =
      λ s t k e. ap (λ (r : Tables). keep (λ x. x.task_id) k r.events) (unless_taken_lem _ e);
  get_task-update_task = λ s t k e. refl;
  events_of-update_task = λ s t k. refl;
  insert_event_known = λ s e at. (record s { events = s.events ++ (e ∷ []) }, rw at refl);
  get_task-insert_event = λ s x k e. ap (λ (r : Tables). task_in r k) (if_known_lem _ e);
  events_of-insert_event = λ s x k e.
      ap (λ (r : Tables). keep (λ y. y.task_id) k r.events) (if_known_lem _ e)
      ∙ keep-append_one (λ y. y.task_id) k s.events x;
  get_task-delete_artifacts = λ s i k. refl;
  events_of-delete_artifacts = λ s i k. refl;
  insert_artifacts_known =
      λ s rows h. (record s { artifacts = s.artifacts ++ rows }, rw (all_known_lem s rows h) refl);
  get_task-insert_artifacts = λ s rows k e. ap (λ (r : Tables). task_in r k) (when_lem _ e);
  events_of-insert_artifacts =
      λ s rows k e. ap (λ (r : Tables). keep (λ y. y.task_id) k r.events) (when_lem _ e);
}
