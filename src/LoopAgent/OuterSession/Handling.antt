-- ===== src/LoopAgent/OuterSession/Handling.antt =====
-- One message, from the request to the recorded result, and the message that follows a question.
use offer_master.Prelude.{
  ℕ, suc, ◌≡◌, refl, sym, ap, ◌∙◌, inl, inr, String, true, false, Option, none, some, [], ◌∷◌, ◌++◌,
  ltb, str_eq, str_eq_refl, if◌then◌else◌, Bool-cases, arith, subst,
}
use offer_master.Prelude.Json.{opt_str, get}
use offer_master.Prelude.Dict.{fetch, put, fetch-put, fetch-put_other}
use offer_master.LoopAgent.Schemas.{LoopAgentRunResult}
use offer_master.LoopAgent.OuterSession.{
  OuterSessionRunRequest, OuterSessionState, OuterSessionTurnResult, Store, Message, is_running,
  is_waiting, begin_user_message, complete_turn, handle_user_message, begun, request_of, counted,
  applied, turn_result, owner_state, save, addressed, state_for_message, run_id_of, same_task,
  non_empty,
}
use offer_master.LoopAgent.OuterSession.Reachable.{AllSettled, not_running}

same_count : (n : ℕ) → (if ltb n n then n else n) ≡ n
same_count n = ground arith

own_state :
    (state : OuterSessionState) (session_id user_message run_id : String)
    → let next = begun state user_message run_id in
      counted
        (owner_state (some next) (request_of state session_id user_message run_id))
        (request_of state session_id user_message run_id)
      ≡ next
own_state state session_id user_message run_id = rw (str_eq_refl state.active_task_id) (
    ap (λ (n : ℕ). record (begun state user_message run_id) { run_count = n })
      (same_count (suc state.run_count)))

from_session :
    (found : Option OuterSessionState) (m : Message)
    → ((state : OuterSessionState) → found ≡ some state → state.session_id ≡ m.session_id)
    → (state_for_message found m.session_id m.user_message m.task_id m.task_uuid).session_id
      ≡ m.session_id
from_session none m keyed = refl
from_session (some state) m keyed = elim (Bool-cases (is_waiting state.status)) [
  | inl waits ↦ rw waits (keyed state refl)
  | inr calm ↦ elim (Bool-cases (same_task (non_empty m.task_id) state.active_task_id)) [
    | inl same ↦ rw (calm, same) (keyed state refl)
    | inr other ↦ rw (calm, other) refl
  ]
]

-- What a handled message leaves behind.
pub record Handled (store : Store) (m : Message) (result : LoopAgentRunResult)
    (turn : OuterSessionTurnResult) (closed : Store) : Type 0 where
  pub stored : (state : OuterSessionState) × (fetch m.session_id closed ≡ some state)
  pub over : is_running stored.0.status ≡ false
  pub told : turn.status ≡ stored.0.status
  pub asks : turn.requires_user_action ≡ is_waiting stored.0.status
  pub task : turn.task_id ≡ stored.0.active_task_id
  pub same_task : stored.0.active_task_id ≡ (addressed store m).active_task_id
  pub same_goal : stored.0.user_goal ≡ (addressed store m).user_goal
  pub one_more : stored.0.run_count ≡ suc (addressed store m).run_count
  pub all_events : stored.0.events ≡ (addressed store m).events ++ result.events
  pub last : stored.0.last_inner_result ≡ some result
  pub others : (key : String) → str_eq m.session_id key ≡ false → fetch key closed ≡ fetch key store

module _ (store : Store) (all : AllSettled store) (m : Message) where
  addressed_session : (addressed store m).session_id ≡ m.session_id
  addressed_session =
      from_session (fetch m.session_id store) m
        (λ state stored. (all m.session_id state stored).keyed)

  abbrev next_state : OuterSessionState
  next_state = begun (addressed store m) m.user_message (run_id_of m)

  begun_store : (begin_user_message store m).1 ≡ put m.session_id next_state store
  unfolding begin_user_message
  begun_store = ap (λ (k : String). put k next_state store) addressed_session

  completed :
      (result : LoopAgentRunResult)
      → complete_turn (begin_user_message store m).1 (begin_user_message store m).0 result ≡ (
        turn_result (applied next_state result) result,
        put m.session_id (applied next_state result) (put m.session_id next_state store),
      )
  unfolding begin_user_message complete_turn
  completed result =
      let request = (begin_user_message store m).0 in
      let opened = put m.session_id next_state store in
      let record_for : Option OuterSessionState → OuterSessionTurnResult × Store = λ found. (
        turn_result (applied (counted (owner_state found request) request) result) result,
        save opened (applied (counted (owner_state found request) request) result),
      ) in
      let record_in : OuterSessionState → OuterSessionTurnResult × Store =
        λ state. (turn_result (applied state result) result, save opened (applied state result)) in
      ap (λ (s : Store). complete_turn s request result) begun_store
      ∙ ap record_for (fetch-put m.session_id next_state store)
      ∙ ap record_in (own_state (addressed store m) m.session_id m.user_message (run_id_of m))
      ∙ ap
          (λ (k : String). (
            turn_result (applied next_state result) result,
            put k (applied next_state result) opened,
          ))
          addressed_session

  complete_turn-Handled :
      (result : LoopAgentRunResult) (turn : OuterSessionTurnResult) (closed : Store)
      → complete_turn (begin_user_message store m).1 (begin_user_message store m).0 result
        ≡ (turn, closed)
      → Handled store m result turn closed
  complete_turn-Handled result turn closed done =
      let e = sym (completed result) ∙ done in
      subst (λ (p : OuterSessionTurnResult × Store). Handled store m result p.0 p.1) e
        (record {
          stored =
              (applied next_state result, fetch-put m.session_id (applied next_state result) _);
          over = not_running result;
          told = refl;
          asks = refl;
          task = refl;
          same_task = refl;
          same_goal = refl;
          one_more = refl;
          all_events = refl;
          last = refl;
          others = λ key apart.
              fetch-put_other key m.session_id (applied next_state result) _ apart
              ∙ fetch-put_other key m.session_id next_state store apart;
        })

-- In any store that can be reached, for any callback, a handled message leaves its session waiting,
-- finished or failed, never running, and the result tells which and whether the user is asked. The
-- session goes on with the task and the goal that the message was for, has one more run and the
-- events of the inner run behind the earlier ones, and no other session changes.
pub handle_user_message_lem :
    {E : Type 0} (run_inner_loop : E → OuterSessionRunRequest → LoopAgentRunResult × E)
    (store : Store) (environment : E) (m : Message)
    → AllSettled store
    → let (turn, closed, environment') = handle_user_message run_inner_loop store environment m in
      Handled store m (run_inner_loop environment (begin_user_message store m).0).0 turn closed
unfolding handle_user_message
handle_user_message_lem run_inner_loop store environment m all =
    complete_turn-Handled store all m (run_inner_loop environment (begin_user_message store m).0).0
      _ _ refl

-- A reply to a session that waits in a given state.
pub record Resumed (state : OuterSessionState) (reply : Message) (request : OuterSessionRunRequest)
    (opened : Store) : Type 0 where
  pub is_resume : request.is_resume ≡ true
  pub task : request.task_id ≡ state.active_task_id
  pub goal : request.user_goal ≡ state.user_goal
  pub turn : request.turn_index ≡ suc state.run_count
  pub question : get "waiting_message" request.resume_context ≡ opt_str state.waiting_message
  pub stored : (next : OuterSessionState) × (fetch reply.session_id opened ≡ some next)
  pub runs : is_running stored.0.status ≡ true
  pub answered : stored.0.waiting_message ≡ none
  pub followed : stored.0.user_followups ≡ state.user_followups ++ reply.user_message ∷ []

addressed_waiting :
    (closed : Store) (reply : Message) (state : OuterSessionState)
    → fetch reply.session_id closed ≡ some state
    → is_waiting state.status ≡ true
    → addressed closed reply ≡ state
addressed_waiting closed reply state stored waits =
    ap
      (λ (found : Option OuterSessionState).
        state_for_message found reply.session_id reply.user_message reply.task_id reply.task_uuid)
      stored
    ∙ rw waits refl

resumes :
    (closed : Store) (reply : Message) (state : OuterSessionState)
    → fetch reply.session_id closed ≡ some state
    → is_waiting state.status ≡ true
    → state.session_id ≡ reply.session_id
    → Resumed state reply (begin_user_message closed reply).0 (begin_user_message closed reply).1
unfolding begin_user_message get str_eq
resumes closed reply state stored waits own =
    subst
      (λ (s : OuterSessionState).
        Resumed state reply (request_of s reply.session_id reply.user_message (run_id_of reply))
          (save closed (begun s reply.user_message (run_id_of reply))))
      (sym (addressed_waiting closed reply state stored waits))
      (record {
        is_resume = waits;
        task = refl;
        goal = refl;
        turn = refl;
        question = rw waits refl;
        stored = (
          begun state reply.user_message (run_id_of reply),
          ap
                (λ (k : String).
                  fetch k (save closed (begun state reply.user_message (run_id_of reply))))
                (sym own)
              ∙ fetch-put state.session_id (begun state reply.user_message (run_id_of reply))
                  closed,
        );
        runs = refl;
        answered = refl;
        followed = rw waits refl;
      })

-- The reply that comes after a turn that asked the user.
abbrev pub Resumes : Store → Message → Message → OuterSessionTurnResult → Store → Type 0
Resumes store m reply turn closed =
    let (request, opened) = begin_user_message closed reply in
    (state : OuterSessionState) × (state.active_task_id ≡ turn.task_id)
    × (state.user_goal ≡ (addressed store m).user_goal)
    × (state.run_count ≡ suc (addressed store m).run_count)
    × (state.waiting_message ≡ turn.waiting_message)
    × Resumed state reply request opened

-- After a handled message whose inner run asks the user, the next message of that session resumes,
-- whatever task it names: its request has the same task and the goal of the first message, counts
-- one more turn and carries the question that the user was asked; the message is kept as a
-- follow-up, and the session is running again with no question open.
pub begin_user_message-handle_user_message :
    {E : Type 0} (run_inner_loop : E → OuterSessionRunRequest → LoopAgentRunResult × E)
    (store : Store) (environment : E) (m reply : Message)
    → AllSettled store
    → m.session_id ≡ reply.session_id
    → (handle_user_message run_inner_loop store environment m).0.requires_user_action ≡ true
    → Resumes store m reply
        (handle_user_message run_inner_loop store environment m).0
        (handle_user_message run_inner_loop store environment m).1
unfolding handle_user_message
begin_user_message-handle_user_message run_inner_loop store environment m reply all same asked =
    let result = (run_inner_loop environment (begin_user_message store m).0).0 in
    let state = applied (begun (addressed store m) m.user_message (run_id_of m)) result in
    let e = completed store all m result in
    let closed : Store =
      put m.session_id state
        (put m.session_id (begun (addressed store m) m.user_message (run_id_of m)) store) in
    subst
      (λ (p : OuterSessionTurnResult × Store).
        p.0.requires_user_action ≡ true → Resumes store m reply p.0 p.1)
      (sym e)
      (λ waits. (
        state,
        refl,
        refl,
        refl,
        refl,
        resumes closed reply state
            (ap (λ (k : String). fetch k closed) (sym same) ∙ fetch-put m.session_id state _) waits
            (addressed_session store all m ∙ same),
      ))
      asked
