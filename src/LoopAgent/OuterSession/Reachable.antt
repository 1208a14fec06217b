-- ===== src/LoopAgent/OuterSession/Reachable.antt =====
-- The stores that the outer loop can reach when the turns of several sessions interleave.
use offer_master.Prelude.{
  ◌≤◌, ◌≡◌, ◌≢◌, refl, sym, ◌∙◌, inl, inr, String, true, false, none, some, [], str_eq_cases, arith,
  subst,
}
use mathlib.Core.Option.{some-injective}
use offer_master.Prelude.Dict.{fetch, fetch-put, fetch-put_other}
use offer_master.LoopAgent.Schemas.{LoopAgentRunResult}
use offer_master.LoopAgent.OuterSession.{
  OuterSessionRunRequest, OuterSessionState, Store, Message, is_running, is_waiting,
  begin_user_message, complete_turn, begun, counted, applied, owner_state, save,
  outer_status_from_inner_result, addressed, run_id_of,
}

-- A message begins a turn, and the result of an inner run, whenever it comes, completes one.
pub data Step : Store → Store → Type 0 where
  begins : (store : Store) (m : Message) → Step store (begin_user_message store m).1
  completes :
      (store : Store) (request : OuterSessionRunRequest) (result : LoopAgentRunResult)
      → 1 ≤ request.turn_index
      → Step store (complete_turn store request result).1

pub data Reach : Store → Type 0 where
  empty : Reach []
  later : {store after : Store} → Reach store → Step store after → Reach after

-- What holds of the state that is stored for a session.
pub record Settled (session_id : String) (state : OuterSessionState) : Type 0 where
  pub keyed : state.session_id ≡ session_id
  pub begun_once : 1 ≤ state.run_count
  pub named : (run_id : String) × (state.active_run_id ≡ some run_id)
  pub quiet : is_waiting state.status ≡ false → state.waiting_message ≡ none
  pub cleared : is_running state.status ≡ true → state.pending_decision ≡ none
  pub reported :
      is_running state.status ≡ false
      → (result : LoopAgentRunResult) × (state.last_inner_result ≡ some result)
        × (state.status ≡ outer_status_from_inner_result result)
        × (state.pending_decision ≡ result.pending_decision)

abbrev pub AllSettled : Store → Type 0
AllSettled store =
    (key : String) (state : OuterSessionState) → fetch key store ≡ some state → Settled key state

save-AllSettled :
    (store : Store) (state : OuterSessionState)
    → AllSettled store
    → Settled state.session_id state
    → AllSettled (save store state)
save-AllSettled store state all settled key found stored =
    elim (str_eq_cases state.session_id key) [
      | inl same ↦
          let here : fetch state.session_id (save store state) ≡ some found =
            subst (λ (k : String). fetch k (save store state) ≡ some found) (sym same) stored in
          let new : state ≡ found =
            some-injective state found (sym (fetch-put state.session_id state store) ∙ here) in
          subst (λ (k : String). Settled k found) same
            (subst (Settled state.session_id) new settled)
      | inr other ↦
          all key found (sym (fetch-put_other key state.session_id state store other) ∙ stored)
    ]

begun-Settled :
    (state : OuterSessionState) (user_message run_id : String)
    → Settled state.session_id (begun state user_message run_id)
begun-Settled state user_message run_id = record {
  keyed = refl;
  begun_once = omega arith;
  named = (run_id, refl);
  quiet = λ _. refl;
  cleared = λ _. refl;
  reported = λ over. cc over;
}

pub not_running :
    (result : LoopAgentRunResult) → is_running (outer_status_from_inner_result result) ≡ false
not_running result = ground arith

applied-Settled :
    (state : OuterSessionState) (request : OuterSessionRunRequest) (result : LoopAgentRunResult)
    → 1 ≤ request.turn_index
    → Settled state.session_id (applied (counted state request) result)
applied-Settled state request result some_turn = record {
  keyed = refl;
  begun_once = ground arith;
  named = (request.run_id, refl);
  quiet = λ calm. rw calm refl;
  cleared = λ going. cc (going, not_running result);
  reported = λ _. (result, refl, refl, refl);
}

Step-AllSettled : {store after : Store} → Step store after → AllSettled store → AllSettled after
unfolding begin_user_message complete_turn
Step-AllSettled (begins store m) all =
    save-AllSettled store (begun (addressed store m) m.user_message (run_id_of m)) all
      (begun-Settled (addressed store m) m.user_message (run_id_of m))
Step-AllSettled (completes store request result some_turn) all =
    let state = owner_state (fetch request.session_id store) request in
    save-AllSettled store (applied (counted state request) result) all
      (applied-Settled state request result some_turn)

nothing_stored : (key : String) (state : OuterSessionState) → fetch key [] ≢ some state
unfolding fetch
nothing_stored key state stored = cc

-- In every store that can be reached, however the turns of the sessions interleave, the state of a
-- session stands under its own name, has begun a run, shows a waiting message only while it waits,
-- has no pending decision while it runs, and otherwise has the status and the pending decision of
-- the last inner result that was recorded.
pub Reach-Settled :
    {store : Store}
    → Reach store
    → (session_id : String) (state : OuterSessionState) → fetch session_id store ≡ some state
    → Settled session_id state
Reach-Settled empty session_id state stored = absurd (nothing_stored session_id state stored)
Reach-Settled (later reached step) session_id state stored =
    Step-AllSettled step (Reach-Settled reached) session_id state stored
