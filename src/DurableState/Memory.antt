-- ===== src/DurableState/Memory.antt =====
-- A session whose tables are lists of rows, newest first. It shows that the laws asked of a session
-- can hold, and runs the examples.
use offer_master.Prelude.{◌≡◌, refl, sym, ap, Option, none, some, List, ◌∷◌}
use offer_master.Prelude.Table.{find, find-key, owned, mem-owned}
use mathlib.Core.Option.{some-injective}
use offer_master.DurableState.Models.{
  AgentTaskState, AgentStepState, AgentMemorySnapshot, AgentArtifactIndex, ExternalAgentArtifact,
}
use offer_master.DurableState.Session.{Session, IsLawful}

pub record Tables : Type 0 where
  pub tasks : List AgentTaskState
  pub steps : List AgentStepState
  pub snapshots : List AgentMemorySnapshot
  pub artifacts : List AgentArtifactIndex
  pub externals : List ExternalAgentArtifact

-- A row whose key is taken is refused.
abbrev unless_taken {ℓ} : {A : Type ℓ} → Option A → Tables → Option Tables
unless_taken none t = some t
unless_taken (some _) t = none

-- A row whose owner is not stored is refused.
abbrev if_owned {ℓ} : {A : Type ℓ} → Option A → Option Tables → Option Tables
if_owned none t = none
if_owned (some _) t = t

abbrev pub memory : Session
memory = record {
  State = Tables;
  get_task = λ s. find (λ t. t.id) s.tasks;
  get_step = λ s. find (λ x. x.id) s.steps;
  steps_of = λ s. owned (λ x. x.id) (λ x. x.task_id) s.steps;
  snapshots_of = λ s. owned (λ x. x.id) (λ x. x.task_id) s.snapshots;
  artifacts_of = λ s. owned (λ x. x.id) (λ x. x.task_id) s.artifacts;
  external_artifacts_of = λ s. owned (λ x. x.id) (λ x. x.task_id) s.externals;
  insert_task =
      λ s t. unless_taken (find (λ t. t.id) s.tasks t.id) (record s { tasks = t ∷ s.tasks });
  insert_step = λ s x.
      if_owned (find (λ t. t.id) s.tasks x.task_id)
        (unless_taken (find (λ x. x.id) s.steps x.id) (record s { steps = x ∷ s.steps }));
  insert_snapshot = λ s x.
      unless_taken (find (λ x. x.id) s.snapshots x.id) (record s { snapshots = x ∷ s.snapshots });
  insert_artifact = λ s x.
      unless_taken (find (λ x. x.id) s.artifacts x.id) (record s { artifacts = x ∷ s.artifacts });
  update_task = λ s t. record s { tasks = t ∷ s.tasks };
  update_step = λ s x. record s { steps = x ∷ s.steps };
}

unless_taken_lem {ℓ} :
    {A : Type ℓ} (o : Option A) {t t' : Tables} → unless_taken o t ≡ some t' → (o ≡ none) × (t' ≡ t)
unless_taken_lem none e = (refl, sym (some-injective _ _ e))
unless_taken_lem (some _) e = cc

if_owned_lem {ℓ} :
    {A : Type ℓ} (o : Option A) {t : Option Tables} {t' : Tables}
    → if_owned o t ≡ some t'
    → ((a : A) × (o ≡ some a)) × (t ≡ some t')
if_owned_lem none e = cc
if_owned_lem (some a) e = ((a, refl), e)

-- What an accepted insertion of a step says.
insert_step_lem :
    (s : Tables) (x : AgentStepState) {s' : Tables}
    → memory.insert_step s x ≡ some s'
    → ((t : AgentTaskState) × (find (λ t. t.id) s.tasks x.task_id ≡ some t))
      × (find (λ x. x.id) s.steps x.id ≡ none)
      × (s' ≡ record s { steps = x ∷ s.steps })
insert_step_lem s x e =
    let (owner, free) = if_owned_lem (find (λ t. t.id) s.tasks x.task_id) e in
    let (unused, grown) = unless_taken_lem (find (λ x. x.id) s.steps x.id) free in
    (owner, unused, grown)

pub memory-IsLawful : IsLawful memory
unfolding find
memory-IsLawful = record {
  get_task-id = λ s k e. find-key (λ t. t.id) s.tasks k e;
  get_step-id = λ s k e. find-key (λ x. x.id) s.steps k e;
  mem-steps_of = λ s k x. mem-owned (λ x. x.id) (λ x. x.task_id) s.steps k x;
  get_task-update_task = λ s t k e. refl;
  get_step-update_task = λ s t k. refl;
  get_step-update_step = λ s x k e. refl;
  get_task-update_step = λ s x k. refl;
  get_step-insert_step =
      λ s x k e. ap (λ (t : Tables). find (λ x. x.id) t.steps k) (insert_step_lem s x e).2;
  insert_step_owner = λ s x e. (insert_step_lem s x e).0;
  insert_step_new = λ s x e. (insert_step_lem s x e).1;
  get_task-insert_step =
      λ s x k e. ap (λ (t : Tables). find (λ t. t.id) t.tasks k) (insert_step_lem s x e).2;
}
