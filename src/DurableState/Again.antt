-- ===== src/DurableState/Again.antt =====
-- A second `resume_task` before the step that the first one added has started.
use offer_master.Prelude.{
  ◌≡◌, refl, sym, ◌∙◌, ap, ◌⊎◌, inl, inr, String, ne_of_str_ne, [], true, false, none, some, Memᴰ,
  arith, str_eq_cases, str_eq_refl, Option-cases, subst,
}
use mathlib.Core.Option.{some-injective}
use offer_master.Prelude.Int.{ℤ}
use offer_master.DurableState.Schemas.{AgentTaskStatus, step_command_ok}
use offer_master.DurableState.Models.{AgentTaskState, AgentStepState}
use offer_master.DurableState.Session.{Session, IsLawful}
use offer_master.Prelude.Effects.{ok}
use offer_master.DurableState.ResumePolicy.{
  DurableResumeAction, DurableResumeResult, latest_step, decide,
}
use offer_master.DurableState.Service.{
  next_sequence_index, resume_command, resume_result_from_decision, resume_task,
}
use offer_master.DurableState.Policy.{
  latest_step_greatest, latest_step-nil, lt-next_sequence_index, is_closed,
}
use offer_master.DurableState.Resume.{
  Resumed, resume_step, resumed_task, CanResume, resume_task_acts, resume_task_adds_step,
}

module _ (D : Session) (L : IsLawful D) (max_retries : ℤ) (task_id : String) (s : D.State)
    (task : AgentTaskState) (source : AgentStepState) (has_task : D.get_task s task_id ≡ some task)
    (open_task : is_closed task.status ≡ false)
    (found : latest_step (D.steps_of s task_id) ≡ some source) where
  abbrev new : AgentStepState
  new = resume_step D L max_retries task_id s task source has_task open_task found

  abbrev AfterResume : D.State → Type 0
  AfterResume = Resumed D L max_retries task_id s task source has_task open_task found

  module _ (s' : D.State) (done : AfterResume s') where
    new_listed : Memᴰ new (D.steps_of s' task_id)
    new_listed = (L.mem-steps_of s' task_id new).1 (done.step_stored, refl)

    -- A step that is listed after the resumption is the new one, or it was listed before.
    listed_cases :
        (m : AgentStepState)
        → Memᴰ m (D.steps_of s' task_id)
        → (m ≡ new) ⊎ Memᴰ m (D.steps_of s task_id)
    listed_cases m at =
        let (stored, owned) = (L.mem-steps_of s' task_id m).0 at in
        elim (str_eq_cases new.id m.id) [
          | inl same ↦
              inl
                (some-injective _ _ (sym stored ∙ ap (D.get_step s') (sym same) ∙ done.step_stored))
          | inr other ↦ inr (
              (L.mem-steps_of s task_id m).1
                (sym (done.other_steps m.id (ne_of_str_ne _ _ other)) ∙ stored, owned))
        ]

    latest_is_new : latest_step (D.steps_of s' task_id) ≡ some new
    latest_is_new = elim (Option-cases (latest_step (D.steps_of s' task_id))) [
      | inl nothing ↦
          let nowhere : Memᴰ new [] =
            subst (Memᴰ new) (latest_step-nil (D.steps_of s' task_id) nothing) new_listed in
          elim nowhere [ ]
      | inr (m, e) ↦
          let (at, greatest) = latest_step_greatest (D.steps_of s' task_id) e in
          elim (listed_cases m at) [
            | inl same ↦ e ∙ ap some same
            | inr old ↦ absurd (
                omega (
                  arith,
                  lt-next_sequence_index (D.steps_of s task_id) old,
                  greatest new new_listed,
                ))
          ]
    ]

    abbrev task' : AgentTaskState
    task' = resumed_task D L max_retries task_id s task source has_task open_task found

    replans :
        let d = decide max_retries task' (D.steps_of s' task_id) in
        (d.action ≡ DurableResumeAction.replan_remaining_steps) × (d.step_id ≡ some new.id)
    unfolding decide
    replans = rw latest_is_new (refl, refl)

    abbrev replanned_task : AgentTaskState
    replanned_task = record task' {
      status = AgentTaskStatus.planning;
      current_step_id = some new.id;
    }

    resume_again : resume_task D task_id max_retries s' ≡ (
      ok (resume_result_from_decision (decide max_retries task' (D.steps_of s' task_id))),
      D.update_task s' replanned_task,
    )
    resume_again =
        resume_task_acts D L max_retries task_id s' done.task_stored ∙ rw replans.0 (rw replans.1)

    own_task : D.get_task s' task'.id ≡ some task'
    own_task = ap (D.get_task s') (L.get_task-id s task_id has_task) ∙ done.task_stored

    replanned_stored : D.get_task (D.update_task s' replanned_task) task_id ≡ some replanned_task
    replanned_stored =
        L.get_task-update_task s' replanned_task task_id own_task
        ∙ rw (L.get_task-id s task_id has_task, str_eq_refl)

  -- Where a resumption added a step, a second resumption that comes before the step is started does
  -- not take it up: it adds no step and changes none, and sends the task back to planning.
  pub resume_task_twice :
      {s1 : D.State}
      → CanResume D L max_retries task_id s task source has_task open_task found
      → step_command_ok (resume_command task_id (next_sequence_index (D.steps_of s task_id)) source)
        ≡ true
      → D.insert_step s new ≡ some s1
      → (s' s'' : D.State) × (first second : DurableResumeResult) × (resume_task D task_id
            max_retries s
          ≡ (ok first, s'))
        × (first.resume_step_id ≡ some new.id)
        × (resume_task D task_id max_retries s' ≡ (ok second, s''))
        × (second.action ≡ DurableResumeAction.replan_remaining_steps)
        × (second.resume_step_id ≡ none)
        × ((k : String) → D.get_step s'' k ≡ D.get_step s' k)
        × (t : AgentTaskState) × (D.get_task s'' task_id ≡ some t)
        × (t.status ≡ AgentTaskStatus.planning)
  resume_task_twice can valid inserted =
      let (s', first, ran, added, _, _, _, done) =
        resume_task_adds_step D L max_retries task_id s task source has_task open_task found can
          valid inserted in
      (
        s',
        D.update_task s' (replanned_task s' done),
        first,
        resume_result_from_decision (decide max_retries (task' s' done) (D.steps_of s' task_id)),
        ran,
        added,
        resume_again s' done,
        (replans s' done).0,
        refl,
        λ k. L.get_step-update_task s' (replanned_task s' done) k,
        replanned_task s' done,
        replanned_stored s' done,
        refl,
      )
