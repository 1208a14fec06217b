-- ===== src/LoopAgent/Runs.antt =====
-- A run of the controller: how it ends, and how often it makes a call.
use offer_master.Prelude.{
  ℕ, zero, suc, ◌+◌, ◌≤◌, ◌<◌, ◌≡◌, refl, inl, inr, String, ◌||◌, none, List, [], ◌∷◌, ◌++◌, arith,
  str_eq, str_eq_refl, Bool-cases, Option-cases,
}
use offer_master.Prelude.Json.{obj, field, end, get, truthy}
use offer_master.Prelude.Int.{ℤ, pos_part}
use offer_master.LoopAgent.Events.{LoopAgentEvent, LoopAgentEventType}
use offer_master.LoopAgent.Schemas.{LoopAgentAction, LoopAgentDecision, LoopAgentTraceEntry}
use offer_master.LoopAgent.DeadLoopDetector.{
  count, action_key, intervention_for, max_repeated_calls,
}
use offer_master.LoopAgent.Controller.{
  Run, Loop, Turn, finished, continue, execute_turn, act, turn, turns, run_loop, started, observed,
  start_event, done_event, over_event, trace_entry,
}
use offer_master.LoopAgent.Steady.{Steady, event_keys, IsQuiet, emit-Steady, call-Steady}
use offer_master.LoopAgent.Closing.{Closed, close-Closed, stop-Closed}

abbrev IsSteady : {E : Type 0} → ℕ → ℕ → Loop E → Type 0
IsSteady limit n loop = Steady limit n loop.trace loop.events loop.executed_action_keys

-- A turn that is the `n`-th to be over either closes the run or leaves it steady.
abbrev TurnHolds : {E : Type 0} → ℕ → ℕ → ℕ → Turn E → Type 0
TurnHolds limit total n (finished result environment) = Closed limit total result
TurnHolds limit total n (continue loop) = IsSteady limit n loop

below_of_pass :
    (limit : ℕ) (decision : LoopAgentDecision) (keys : List String)
    → decision.action ≡ LoopAgentAction.call_tool
    → intervention_for limit decision keys ≡ none
    → count (action_key decision) keys < limit
unfolding intervention_for
below_of_pass limit decision keys call pass = ground arith

begin-Steady :
    {limit n : ℕ} {trace : List LoopAgentTraceEntry} {events : List LoopAgentEvent}
    {keys : List String}
    → Steady limit n trace events keys
    → (a b : LoopAgentEvent) → IsQuiet a
    → IsQuiet b
    → Steady limit n trace ((events ++ a ∷ []) ++ b ∷ []) keys
begin-Steady st a b quiet_a quiet_b = emit-Steady (emit-Steady st a quiet_a) b quiet_b

-- The run is over and has closed.
abbrev pub Ends : {E : Type 0} → ℕ → ℕ → Turn E → Type 0
Ends limit total (finished result environment) = Closed limit total result
Ends limit total (continue loop) = ⊥

module _ {E : Type 0} (run : Run E) (limit total : ℕ) where
  event_keys-started :
      (iteration : ℕ) (decision : LoopAgentDecision) (e : LoopAgentEvent)
      → decision.action ≡ LoopAgentAction.call_tool
      → e.event_type ≡ LoopAgentEventType.tool_started
      → e.capability ≡ decision.capability
      → e.metadata ≡ field "tool_input" (obj decision.tool_input) end
      → event_keys e ≡ action_key decision ∷ []
  unfolding get
  event_keys-started iteration decision e call type capability metadata =
      rw (type, metadata, capability, call) (rw str_eq_refl)

  module _ (n : ℕ) (fits : suc n ≤ total) (loop : Loop E) (st : IsSteady limit n loop)
      (decision : LoopAgentDecision) where
    execute_turn_holds :
        (iteration : ℕ)
        → decision.action ≡ LoopAgentAction.call_tool
        → count (action_key decision) loop.executed_action_keys < limit
        → TurnHolds limit total (suc n) (execute_turn run iteration loop decision)
    unfolding execute_turn
    execute_turn_holds iteration call below =
        let observation = (run.execute_step loop.environment decision).0 in
        let environment = (run.execute_step loop.environment decision).1 in
        let st' : IsSteady limit (suc n) (
            observed run iteration
              (record (started run iteration loop decision) { environment = environment }) decision
              observation) =
          call-Steady st (action_key decision) (trace_entry run iteration decision observation)
            (start_event run iteration decision) (done_event run iteration decision observation)
            (over_event run iteration decision observation) below
            (event_keys-started iteration decision (start_event run iteration decision) call refl
              refl refl)
            refl refl refl refl refl (refl, refl, refl) in
        elim (Bool-cases
          (observation.requires_user_action || str_eq observation.status "waiting_user")) [
            | inl waiting ↦ rw waiting (
                stop-Closed total _ _ (emit-Steady st' _ (refl, refl, refl)) fits refl refl refl
                  refl refl refl)
            | inr going ↦ rw going (elim (Bool-cases (str_eq observation.status "failed")) [
              | inl failed ↦
                  rw failed (elim (Bool-cases (truthy (get "recoverable" observation.metadata))) [
                    | inl recoverable ↦ rw recoverable st'
                    | inr lost ↦
                        rw lost (stop-Closed total _ _ st' fits refl refl refl refl refl refl)
                  ])
              | inr fine ↦ rw fine st'
            ])
          ]

    act_holds :
        (action : LoopAgentAction) (iteration : ℕ)
        → decision.action ≡ action
        → TurnHolds limit total (suc n) (act run limit action iteration loop decision)
    unfolding act
    act_holds LoopAgentAction.final_answer iteration e =
        stop-Closed total _ _ st (omega arith) refl refl refl refl refl refl
    act_holds LoopAgentAction.wait_user iteration e =
        stop-Closed total _ _ (emit-Steady st _ (refl, refl, refl)) (omega arith) refl refl refl
          refl refl refl
    act_holds LoopAgentAction.replan iteration e =
        stop-Closed total _ _ st (omega arith) refl refl refl refl refl refl
    act_holds LoopAgentAction.stop iteration e =
        stop-Closed total _ _ st (omega arith) refl refl refl refl refl refl
    act_holds LoopAgentAction.call_tool iteration e =
        elim (Option-cases (intervention_for limit decision loop.executed_action_keys)) [
          | inl pass ↦ rw pass (
              execute_turn_holds iteration e
                (below_of_pass limit decision loop.executed_action_keys e pass))
          | inr (intervention, hit) ↦
              rw hit (stop-Closed total _ _ st (omega arith) refl refl refl refl refl refl)
        ]

  turn_holds :
      (n iteration : ℕ) (loop : Loop E)
      → suc n ≤ total
      → IsSteady limit n loop
      → TurnHolds limit total (suc n) (turn run limit iteration loop)
  unfolding turn
  turn_holds n iteration loop fits st = elim (Option-cases loop.next_decision) [
    | inl fresh ↦
        let decision = (run.decide_next_step loop.environment loop.trace).0 in
        rw fresh (
          act_holds n fits _ (begin-Steady st _ _ (refl, refl, refl) (refl, refl, refl)) decision
            decision.action iteration refl)
    | inr (decision, suggested) ↦ rw suggested (
        act_holds n fits _ (begin-Steady st _ _ (refl, refl, refl) (refl, refl, refl)) decision
          decision.action iteration refl)
  ]

  next_turn :
      {n : ℕ} (t : Turn E) (rest : Loop E → Turn E)
      → ((loop : Loop E) → IsSteady limit n loop → Ends limit total (rest loop))
      → TurnHolds limit total n t
      → Ends limit total (elim t [
        | finished result environment ↦ finished result environment
        | continue loop' ↦ rest loop'
      ])
  next_turn (finished result environment) rest ends closed = closed
  next_turn (continue loop) rest ends st = ends loop st

  turns_end :
      (left n iteration : ℕ) (loop : Loop E)
      → n + left ≡ total
      → IsSteady limit n loop
      → Ends limit total (turns run limit left iteration loop)
  unfolding turns
  turns_end zero n iteration loop all st =
      close-Closed total _ _ st (omega (arith, all)) refl refl refl refl refl
        (λ _. omega (arith, all))
  turns_end (suc left) n iteration loop all st =
      next_turn (turn run limit iteration loop) (turns run limit left (suc iteration))
        (λ loop' st'. turns_end left (suc n) (suc iteration) loop' (omega (arith, all)) st')
        (turn_holds n iteration loop (omega (arith, all)) st)

-- For a step budget of any sign and any limit on repeated calls, a run whose callbacks return ends
-- with a result. Its trace has at most the budget's number of entries; as many calls were started
-- as finished, one for each entry; no call, told by the key of its capability and its input, was
-- started more often than the limit; exactly one event closes the run, and the last event has the
-- status of the reason to stop; the user is asked when and only when that reason is to wait for
-- the user; and a run that stops on its budget has made exactly the budget's number of calls.
pub run_loop_closes :
    {E : Type 0} (run : Run E) (limit max_steps : ℤ) (environment : E)
    → Ends
        (max_repeated_calls limit)
        (pos_part max_steps)
        (run_loop run (max_repeated_calls limit) max_steps environment)
unfolding run_loop
run_loop_closes run limit max_steps environment =
    turns_end run (max_repeated_calls limit) (pos_part max_steps) (pos_part max_steps) 0 1 _
      (omega arith)
      (record {
        traced = refl;
        called = refl;
        keyed = refl;
        bounded = λ k. omega arith;
        completed = refl;
        unclosed = refl;
      })
