-- ===== src/LoopAgent/Steady.antt =====
-- What holds between two turns of the controller's loop, read from the trace and the events.
use offer_master.Prelude.{
  ℕ, suc, ◌+◌, ◌≤◌, ◌<◌, ◌≡◌, refl, ◌∙◌, ap, inl, inr, String, Bool, true, false, List, [], ◌∷◌,
  ◌++◌, arith, length, length-append, str_eq_refl, str_eq_cases, if◌then◌else◌,
}
use mathlib.Core.List.{append-nil}
use offer_master.Prelude.Json.{Json, Fields, obj, end, get}
use offer_master.LoopAgent.Events.{
  LoopAgentEvent, LoopAgentEventType, is_tool_started, is_tool_finished, is_task_finished,
}
use offer_master.LoopAgent.Schemas.{LoopAgentAction, LoopAgentTraceEntry}
use offer_master.LoopAgent.DeadLoopDetector.{key_of, count}

abbrev fields_of : Json → Fields
fields_of (obj fields) = fields
fields_of _ = end

-- The key of the call that an event reports to have started.
abbrev pub event_keys : LoopAgentEvent → List String
event_keys e =
    if is_tool_started e.event_type
    then key_of LoopAgentAction.call_tool e.capability (fields_of (get "tool_input" e.metadata))
      ∷ []
    else []

-- The keys of all calls that were started, in order.
abbrev pub started_keys : List LoopAgentEvent → List String
started_keys [] = []
started_keys (e ∷ events) = event_keys e ++ started_keys events

abbrev pub count_events : (LoopAgentEventType → Bool) → List LoopAgentEvent → ℕ
count_events p [] = 0
count_events p (e ∷ events) =
    let rest = count_events p events in if p e.event_type then suc rest else rest

pub count-append : (k : String) (xs ys : List String) → count k (xs ++ ys) ≡ count k xs + count k ys
count-append k [] ys = omega arith
count-append k (x ∷ xs) ys = ground (arith, count-append k xs ys)

pub count_events-append :
    (p : LoopAgentEventType → Bool) (xs ys : List LoopAgentEvent)
    → count_events p (xs ++ ys) ≡ count_events p xs + count_events p ys
count_events-append p [] ys = omega arith
count_events-append p (x ∷ xs) ys = ground (arith, count_events-append p xs ys)

pub started_keys-append :
    (xs ys : List LoopAgentEvent) → started_keys (xs ++ ys) ≡ started_keys xs ++ started_keys ys
started_keys-append [] ys = refl
started_keys-append (x ∷ xs) ys = ground (arith, started_keys-append xs ys)

-- After `n` turns: `n` entries in the trace, as many calls started and finished, the keys of the
-- calls in order, none of them more often than the limit, and the run not yet closed.
pub record Steady (limit n : ℕ) (trace : List LoopAgentTraceEntry) (events : List LoopAgentEvent)
    (keys : List String) : Type 0 where
  pub traced : length trace ≡ n
  pub called : length keys ≡ n
  pub keyed : started_keys events ≡ keys
  pub bounded : (k : String) → count k keys ≤ limit
  pub completed : count_events is_tool_finished events ≡ n
  pub unclosed : count_events is_task_finished events ≡ 0

abbrev pub IsQuiet : LoopAgentEvent → Type 0
IsQuiet e =
    (is_tool_started e.event_type ≡ false)
    × (is_tool_finished e.event_type ≡ false)
    × (is_task_finished e.event_type ≡ false)

pub snoc_quiet_keys :
    (events : List LoopAgentEvent) (e : LoopAgentEvent)
    → is_tool_started e.event_type ≡ false
    → started_keys (events ++ e ∷ []) ≡ started_keys events
snoc_quiet_keys events e quiet =
    started_keys-append events (e ∷ []) ∙ rw quiet (append-nil (started_keys events))

snoc_count :
    (p : LoopAgentEventType → Bool) (events : List LoopAgentEvent) (e : LoopAgentEvent)
    → count_events p (events ++ e ∷ [])
      ≡ (if p e.event_type then suc (count_events p events) else count_events p events)
snoc_count p events e = ground (arith, count_events-append p events (e ∷ []))

pub snoc_miss :
    (p : LoopAgentEventType → Bool) (events : List LoopAgentEvent) (e : LoopAgentEvent)
    → p e.event_type ≡ false
    → count_events p (events ++ e ∷ []) ≡ count_events p events
snoc_miss p events e miss = snoc_count p events e ∙ rw miss

pub snoc_hit :
    (p : LoopAgentEventType → Bool) (events : List LoopAgentEvent) (e : LoopAgentEvent)
    → p e.event_type ≡ true
    → count_events p (events ++ e ∷ []) ≡ suc (count_events p events)
snoc_hit p events e hit = snoc_count p events e ∙ rw hit

module _ {limit n : ℕ} {trace : List LoopAgentTraceEntry} {events : List LoopAgentEvent}
    {keys : List String} (st : Steady limit n trace events keys) where
  -- An event that neither starts nor ends a call or the run changes none of this.
  pub emit-Steady : (e : LoopAgentEvent) → IsQuiet e → Steady limit n trace (events ++ e ∷ []) keys
  emit-Steady e (q1, q2, q3) = record {
    traced = st.traced;
    called = st.called;
    keyed = snoc_quiet_keys events e q1 ∙ st.keyed;
    bounded = st.bounded;
    completed = snoc_miss is_tool_finished events e q2 ∙ st.completed;
    unclosed = snoc_miss is_task_finished events e q3 ∙ st.unclosed;
  }

  count-snoc : (key k : String) → count key keys < limit → count k (keys ++ key ∷ []) ≤ limit
  count-snoc key k below = elim (str_eq_cases key k) [
    | inl same ↦ rw (← same, count-append key keys (key ∷ []), str_eq_refl key) (omega arith)
    | inr other ↦ rw (count-append k keys (key ∷ []), other) (omega (arith, st.bounded k))
  ]

  -- A call whose key stands below the limit is one more turn.
  pub call-Steady :
      (key : String) (entry : LoopAgentTraceEntry) (start done over : LoopAgentEvent)
      → count key keys < limit
      → event_keys start ≡ key ∷ []
      → is_tool_finished start.event_type ≡ false
      → is_task_finished start.event_type ≡ false
      → is_tool_started done.event_type ≡ false
      → is_tool_finished done.event_type ≡ true
      → is_task_finished done.event_type ≡ false
      → IsQuiet over
      → Steady limit
          (suc n)
          (trace ++ entry ∷ [])
          (((events ++ start ∷ []) ++ done ∷ []) ++ over ∷ [])
          (keys ++ key ∷ [])
  call-Steady key entry start done over below s1 s2 s3 e1 e2 e3 (q1, q2, q3) = record {
    traced = length-append trace (entry ∷ []) ∙ omega (arith, st.traced);
    called = length-append keys (key ∷ []) ∙ omega (arith, st.called);
    keyed =
        snoc_quiet_keys ((events ++ start ∷ []) ++ done ∷ []) over q1
        ∙ snoc_quiet_keys (events ++ start ∷ []) done e1
        ∙ started_keys-append events (start ∷ [])
        ∙ rw (s1, st.keyed);
    bounded = λ k. count-snoc key k below;
    completed =
        snoc_miss is_tool_finished ((events ++ start ∷ []) ++ done ∷ []) over q2
        ∙ snoc_hit is_tool_finished (events ++ start ∷ []) done e2
        ∙ ap suc (snoc_miss is_tool_finished events start s2 ∙ st.completed);
    unclosed =
        snoc_miss is_task_finished ((events ++ start ∷ []) ++ done ∷ []) over q3
        ∙ snoc_miss is_task_finished (events ++ start ∷ []) done e3
        ∙ snoc_miss is_task_finished events start s3
        ∙ st.unclosed;
  }
