-- ===== src/DurableState/Policy.antt =====
-- Which step the resume policy looks at, and when it retries.
use offer_master.Prelude.{
  ◌≤◌, ◌<◌, ◌≡◌, ◌↔◌, inl, inr, ap, String, Bool, true, false, Option, none, some, sym, ◌∙◌, List,
  [], ◌∷◌, Memᴰ, arith, Option-cases,
}
use mathlib.Core.Option.{some-injective}
use offer_master.Prelude.Int.{ℤ, pos_part}
use offer_master.Prelude.Sort.{last-sorted, sorted-nil}
use offer_master.DurableState.Schemas.{AgentTaskStatus, AgentStepStatus}
use offer_master.DurableState.Models.{AgentTaskState, AgentStepState}
use offer_master.DurableState.ResumePolicy.{DurableResumeAction, step_leb, latest_step, decide}
use offer_master.DurableState.Service.{max_index, next_sequence_index}

step_leb_rank : (a b : AgentStepState) → step_leb a b ≡ true → a.sequence_index ≤ b.sequence_index
step_leb_rank a b h = ground arith

not_step_leb_rank :
    (a b : AgentStepState) → step_leb a b ≡ false → b.sequence_index ≤ a.sequence_index
not_step_leb_rank a b h = ground arith

-- The latest step is one of the steps, and no step has a greater index.
pub latest_step_greatest :
    (steps : List AgentStepState) {m : AgentStepState}
    → latest_step steps ≡ some m
    → Memᴰ m steps × ((x : AgentStepState) → Memᴰ x steps → x.sequence_index ≤ m.sequence_index)
unfolding latest_step
latest_step_greatest steps e =
    last-sorted step_leb (λ x. x.sequence_index) step_leb_rank not_step_leb_rank steps e

pub latest_step-nil : (steps : List AgentStepState) → latest_step steps ≡ none → steps ≡ []
unfolding latest_step
latest_step-nil steps e = sorted-nil step_leb steps e

le-max_index :
    (steps : List AgentStepState) {x : AgentStepState}
    → Memᴰ x steps
    → x.sequence_index ≤ max_index steps
le-max_index [] m = elim m [ ]
le-max_index (y ∷ ys) (Memᴰ.head e) = omega (arith, ap (λ z. z.sequence_index) e)
le-max_index (y ∷ ys) (Memᴰ.tail m) = omega (arith, le-max_index ys m)

-- The next index is greater than that of every step.
pub lt-next_sequence_index :
    (steps : List AgentStepState) {x : AgentStepState}
    → Memᴰ x steps
    → x.sequence_index < next_sequence_index steps
lt-next_sequence_index [] m = elim m [ ]
lt-next_sequence_index (y ∷ ys) m = omega (arith, le-max_index (y ∷ ys) m)

abbrev pub step_id_of : Option AgentStepState → Option String
step_id_of none = none
step_id_of (some step) = some step.id

-- Whatever is decided, the decision is about the latest step.
pub decide-step_id :
    (max_retries : ℤ) (task : AgentTaskState) (steps : List AgentStepState)
    → (decide max_retries task steps).step_id ≡ step_id_of (latest_step steps)
unfolding decide
decide-step_id max_retries task steps = ground arith

-- A task is closed once it succeeded or was canceled.
abbrev pub is_closed : AgentTaskStatus → Bool
is_closed AgentTaskStatus.succeeded = true
is_closed AgentTaskStatus.canceled = true
is_closed _ = false

-- A decision other than that for a task without steps names one of its steps, and no step of the
-- task comes later.
pub decide_latest :
    (max_retries : ℤ) (task : AgentTaskState) (steps : List AgentStepState) {k : String}
    → (decide max_retries task steps).step_id ≡ some k
    → (m : AgentStepState) × Memᴰ m steps
      × (m.id ≡ k)
      × ((x : AgentStepState) → Memᴰ x steps → x.sequence_index ≤ m.sequence_index)
decide_latest max_retries task steps e = elim (Option-cases (latest_step steps)) [
  | inl nothing ↦ cc (decide-step_id max_retries task steps, ap step_id_of nothing)
  | inr (m, found) ↦
      let (at, greatest) = latest_step_greatest steps found in
      (
        m,
        at,
        some-injective _ _
            (sym (ap step_id_of found) ∙ sym (decide-step_id max_retries task steps) ∙ e),
        greatest,
      )
]

-- A step is retried exactly when the task is not closed and its latest step failed with retries
-- left.
pub decide-retry_iff :
    (max_retries : ℤ) (task : AgentTaskState) (steps : List AgentStepState)
    → ((decide max_retries task steps).action ≡ DurableResumeAction.retry_failed_step) ↔ (
        (is_closed task.status ≡ false)
        × ((m : AgentStepState) × (latest_step steps ≡ some m)
            × (m.status ≡ AgentStepStatus.failed)
            × (m.retry_count < pos_part max_retries)))
unfolding decide
decide-retry_iff max_retries task steps = (
  λ h. elim (Option-cases (latest_step steps)) [
    | inl nothing ↦ absurd (ground arith)
    | inr (m, found) ↦ (ground arith, (m, found, ground arith, ground arith))
  ],
  λ (open_task, (m, found, failed, left)). ground arith,
)
