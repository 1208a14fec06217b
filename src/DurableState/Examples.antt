-- ===== src/DurableState/Examples.antt =====
-- Runs of the durable state operations on a session in memory.
use offer_master.Prelude.{
  ◌≤◌, ◌<◌, ◌≡◌, refl, inl, ℕ, String, true, false, Option, none, some, List, [], ◌∷◌, Memᴰ, arith,
  str_eq,
}
use offer_master.Prelude.Json.{end, field, str}
use offer_master.Prelude.Int.{pos, pos_part}
use offer_master.Prelude.Sort.{sorted}
use offer_master.Prelude.Text.{show, str_leb}
use offer_master.DurableState.Schemas.{
  AgentTaskStatus, AgentStepStatus, AgentStepStateCreate, AgentArtifactIndexCreate,
  AgentMemorySnapshotCreate, AgentArtifactSourceKind, AgentMemoryVisibilityScope, step_command_ok,
}
use offer_master.DurableState.Models.{AgentTaskState, AgentStepState}
use offer_master.Prelude.Effects.{ok, raise, integrity_error, task_not_found}
use offer_master.DurableState.Repository.{step_row}
use offer_master.DurableState.ResumePolicy.{
  DurableResumeAction, DurableResumeResult, latest_step, decide,
}
use offer_master.DurableState.Service.{
  record_artifact, record_memory_snapshot, next_sequence_index, resume_command, resume_task,
  mark_step_running, mark_step_waiting_user, mark_step_succeeded, mark_step_failed, add_step,
}
use offer_master.DurableState.Policy.{decide-retry_iff, is_closed}
use offer_master.DurableState.Marking.{
  Marks, mark_step_running_lem, mark_step_waiting_user_lem, mark_step_succeeded_lem,
  mark_step_failed_lem, mark_step_running-mark_step_failed,
}
use offer_master.DurableState.Resume.{TakesUp, Resumed, resume_task_closed, resume_task_adds_step}
use offer_master.DurableState.Again.{resume_task_twice}
use offer_master.DurableState.Failures.{add_step-orphan}
use offer_master.DurableState.Memory.{Tables, memory, memory-IsLawful}
use offer_master.Prelude.Table.{find, owned}

abbrev task_in : AgentTaskStatus → AgentTaskState
task_in status = record {
  id = "task";
  root_workflow_run_id = "run";
  conversation_session_id = "session";
  task_type = "apply";
  capability = "jobs.apply";
  status = status;
  current_step_id = some "first";
  owner_executor = none;
  user_goal = none;
  input_payload = end;
  output_payload = end;
  completed_at = none;
}

abbrev step_in : String → ℕ → AgentStepStatus → AgentStepState
step_in id index status = record {
  id = id;
  task_id = "task";
  parent_step_id = none;
  sequence_index = index;
  step_type = "tool";
  status = status;
  executor_type = "mcp";
  executor_name = "edge";
  capability = "jobs.apply";
  input_payload = field "url" (str "https://example.org") end;
  output_payload = end;
  tool_call_log_id = none;
  external_task_id = none;
  approval_request_id = none;
  retry_count = 0;
  started_at = none;
  completed_at = none;
}

abbrev first : AgentStepState
first = step_in "first" 1 AgentStepStatus.succeeded

abbrev second : AgentStepState
second = step_in "second" 2 AgentStepStatus.failed

abbrev tables : AgentTaskStatus → Tables
tables status = record {
  tasks = task_in status ∷ [];
  steps = second ∷ first ∷ [];
  snapshots = [];
  artifacts = [];
  externals = [];
}

abbrev open_tables : Tables
open_tables = tables AgentTaskStatus.failed

abbrev stored : Tables → String → Option AgentStepState
stored t = find (λ x. x.id) t.steps

abbrev listed : List AgentStepState
listed = owned (λ x. x.id) (λ x. x.task_id) open_tables.steps "task"

has_task : find (λ t. t.id) open_tables.tasks "task" ≡ some (task_in AgentTaskStatus.failed)
unfolding find str_eq
has_task = refl

has_second : stored open_tables "second" ≡ some second
unfolding find str_eq
has_second = refl

latest : latest_step listed ≡ some second
unfolding latest_step sorted owned find str_eq str_leb
latest = refl

abbrev added : AgentStepState
added = step_row (resume_command "task" 3 second)

abbrev after_insert : Tables
after_insert = record open_tables { steps = added ∷ open_tables.steps }

inserted :
    memory.insert_step open_tables
      (step_row (resume_command "task" (next_sequence_index listed) second))
    ≡ some after_insert
unfolding owned find str_eq show
inserted = refl

valid : step_command_ok (resume_command "task" (next_sequence_index listed) second) ≡ true
unfolding owned find str_eq show
valid = refl

resume_task_adds_step_example :
    (s' : Tables) × (result : DurableResumeResult) × (resume_task memory "task" (pos 2) open_tables
      ≡ (ok result, s'))
    × (result.resume_step_id
        ≡ some (step_row (resume_command "task" (next_sequence_index listed) second)).id)
    × (result.action ≡ DurableResumeAction.retry_failed_step → 1 ≤ pos_part (pos 2))
    × ((x : AgentStepState) → Memᴰ x listed → x.sequence_index < next_sequence_index listed)
    × TakesUp "task" second (step_row (resume_command "task" (next_sequence_index listed) second))
    × Resumed memory memory-IsLawful
        (pos 2)
        "task"
        open_tables
        (task_in AgentTaskStatus.failed)
        second
        has_task
        refl
        latest
        s'
resume_task_adds_step_example =
    resume_task_adds_step memory memory-IsLawful (pos 2) "task" open_tables
      (task_in AgentTaskStatus.failed) second has_task refl latest (inl (refl, omega arith)) valid
      inserted

resume_task_twice_example :
    (s' s'' : Tables) × (a b : DurableResumeResult) × (resume_task memory "task" (pos 2) open_tables
      ≡ (ok a, s'))
    × (a.resume_step_id
        ≡ some (step_row (resume_command "task" (next_sequence_index listed) second)).id)
    × (resume_task memory "task" (pos 2) s' ≡ (ok b, s''))
    × (b.action ≡ DurableResumeAction.replan_remaining_steps)
    × (b.resume_step_id ≡ none)
    × ((k : String) → stored s'' k ≡ stored s' k)
    × (t : AgentTaskState) × (find (λ t. t.id) s''.tasks "task" ≡ some t)
    × (t.status ≡ AgentTaskStatus.planning)
resume_task_twice_example =
    resume_task_twice memory memory-IsLawful (pos 2) "task" open_tables
      (task_in AgentTaskStatus.failed) second has_task refl latest (inl (refl, omega arith)) valid
      inserted

closed_task :
    find (λ t. t.id) (tables AgentTaskStatus.canceled).tasks "task"
    ≡ some (task_in AgentTaskStatus.canceled)
unfolding find str_eq
closed_task = refl

resume_task_closed_example :
    (result : DurableResumeResult) × (resume_task memory "task"
        (pos 2)
        (tables AgentTaskStatus.canceled)
      ≡ (ok result, tables AgentTaskStatus.canceled))
    × (result.action ≡ DurableResumeAction.stop_and_report)
    × (result.resume_step_id ≡ none)
resume_task_closed_example =
    resume_task_closed memory memory-IsLawful (pos 2) "task" (tables AgentTaskStatus.canceled)
      (task_in AgentTaskStatus.canceled) closed_task refl

names_second :
    (decide (pos 2) (task_in AgentTaskStatus.failed) (second ∷ first ∷ [])).step_id ≡ some "second"
unfolding decide latest_step sorted str_leb
names_second = refl

decide-retry_iff_example :
    let retries =
      (decide (pos 2) (task_in AgentTaskStatus.failed) (second ∷ first ∷ [])).action
      ≡ DurableResumeAction.retry_failed_step in
    let wanted =
      (is_closed AgentTaskStatus.failed ≡ false)
      × ((m : AgentStepState) × (latest_step (second ∷ first ∷ []) ≡ some m)
          × (m.status ≡ AgentStepStatus.failed)
          × (m.retry_count < pos_part (pos 2))) in
    (retries → wanted) × (wanted → retries)
decide-retry_iff_example =
    decide-retry_iff (pos 2) (task_in AgentTaskStatus.failed) (second ∷ first ∷ [])

mark_step_running_lem_example :
    (s' : Tables) × (mark_step_running memory 7 "second" open_tables
      ≡ (ok (record second { status = AgentStepStatus.running; started_at = some 7 }), s'))
    × Marks memory open_tables s'
        (record second { status = AgentStepStatus.running; started_at = some 7 })
        (record (task_in AgentTaskStatus.running) { current_step_id = some "second" })
mark_step_running_lem_example =
    mark_step_running_lem memory memory-IsLawful open_tables "second" second
      (task_in AgentTaskStatus.failed) has_second has_task 7

mark_step_waiting_user_lem_example :
    let step' = record second {
      status = AgentStepStatus.waiting_user;
      approval_request_id = some "ask";
    } in
    (s' : Tables) × (mark_step_waiting_user memory "second" (some "ask") none none open_tables
      ≡ (ok step', s'))
    × Marks memory open_tables s' step'
        (record (task_in AgentTaskStatus.waiting_user) { current_step_id = some "second" })
mark_step_waiting_user_lem_example =
    mark_step_waiting_user_lem memory memory-IsLawful open_tables "second" second
      (task_in AgentTaskStatus.failed) has_second has_task (some "ask") none none

mark_step_succeeded_lem_example :
    let step' = record second {
      status = AgentStepStatus.succeeded;
      completed_at = some 8;
      tool_call_log_id = some "log";
    } in
    (s' : Tables) × (mark_step_succeeded memory 8 "second" (some "log") none none open_tables
      ≡ (ok step', s'))
    × Marks memory open_tables s' step'
        (record (task_in AgentTaskStatus.running) { current_step_id = some "second" })
mark_step_succeeded_lem_example =
    mark_step_succeeded_lem memory memory-IsLawful open_tables "second" second
      (task_in AgentTaskStatus.failed) has_second has_task 8 (some "log") none none

mark_step_failed_lem_example :
    let step' = record second { completed_at = some 8 } in
    (s' : Tables) × (mark_step_failed memory 8 9 "second" none open_tables ≡ (ok step', s'))
    × Marks memory open_tables s' step' (record (task_in AgentTaskStatus.failed) {
      current_step_id = some "second";
      completed_at = some 9;
    })
mark_step_failed_lem_example =
    mark_step_failed_lem memory memory-IsLawful open_tables "second" second
      (task_in AgentTaskStatus.failed) has_second has_task 8 9 none

mark_step_running-mark_step_failed_example :
    let s' =
      (mark_step_running memory 10 "second"
        (mark_step_failed memory 8 9 "second" none open_tables).1).1 in
    (task' : AgentTaskState) × (find (λ t. t.id) s'.tasks "task" ≡ some task')
    × (task'.status ≡ AgentTaskStatus.running)
    × (task'.completed_at ≡ some 9)
mark_step_running-mark_step_failed_example =
    mark_step_running-mark_step_failed memory memory-IsLawful open_tables "second" second
      (task_in AgentTaskStatus.failed) 8 9 10 none has_second has_task

no_third : stored open_tables "third" ≡ none
unfolding find str_eq
no_third = refl

abbrev lost_artifact : AgentArtifactIndexCreate
lost_artifact = record {
  artifact_id = "artifact";
  task_id = "lost";
  step_id = some "second";
  sequence_index = 1;
  source_kind = AgentArtifactSourceKind.tool_result;
  artifact_type = "file";
  title = none;
  uri = "file:///a";
  mime_type = none;
  artifact_metadata = end;
}

abbrev lost_snapshot : AgentMemorySnapshotCreate
lost_snapshot = record {
  snapshot_id = "snapshot";
  task_id = "lost";
  step_id = none;
  memory_id = "memory";
  source_type = "profile";
  usage_reason = "context";
  visibility_scope = AgentMemoryVisibilityScope.runtime_only;
  passed_to_executor = false;
  memory_payload = end;
}

lost : find (λ t. t.id) open_tables.tasks "lost" ≡ none
unfolding find str_eq
lost = refl

abbrev orphan : AgentStepStateCreate
orphan = record (resume_command "lost" 3 second) { step_id = "orphan" }

add_step-orphan_example :
    (add_step memory orphan open_tables ≡ (raise integrity_error, open_tables))
    × (record_artifact memory lost_artifact open_tables
        ≡ (raise (task_not_found "lost"), open_tables))
    × (record_memory_snapshot memory lost_snapshot open_tables
        ≡ (raise (task_not_found "lost"), open_tables))
add_step-orphan_example =
    add_step-orphan memory open_tables memory-IsLawful orphan lost_artifact lost_snapshot refl lost
      lost lost
