-- ===== src/Transcript/Pairing.antt =====
-- What the repair of a transcript guarantees, told by reading the calls and the answers in order.
use offer_master.Prelude.{
  ◌≡◌, ◌≢◌, refl, sym, ap, ◌∙◌, subst, inl, inr, String, ◌<>◌, Bool, true, false, ◌&&◌, ◌||◌,
  Option, none, some, List, [], ◌∷◌, ◌++◌, str_eq, str_eq_refl, if◌then◌else◌, Bool-cases,
}
use mathlib.Core.List.{append-nil, append_assoc}
use mathlib.Core.Option.{some-injective}
use offer_master.Prelude.Json.{end}
use offer_master.Transcript.{Message, is_tool_call, is_tool_result, is_result_for_call}
use offer_master.Transcript.Hygiene.{
  HygieneResult, Repair, build_synthetic_tool_error, keep, give_up, place, step_from, step, steps,
  close, close_from, started, repair_tool_result_pairing,
}

abbrev pub is_result : Message → Message → Bool
is_result tool_call m = is_tool_result m && is_result_for_call tool_call m

abbrev same_text : Option String → String → Bool
same_text none t = false
same_text (some s) t = str_eq s t

-- A message that is an error in the place of the call's result.
abbrev is_error_for : Message → Message → Bool
is_error_for tool_call m =
    str_eq m.id ("synthetic-error-" <> tool_call.id)
    && (same_text m.message_kind "synthetic_error" && same_text m.parent_message_id tool_call.id)

abbrev pub is_answer : Message → Message → Bool
is_answer tool_call m = is_result tool_call m || is_error_for tool_call m

-- Reading one message with a call pending or not: none is a breach of the pairing.
abbrev read : (Message → Message → Bool) → Option Message → Message → Option (Option Message)
read answers none m =
    if is_tool_call m then some (some m) else if is_tool_result m then none else some none
read answers (some tool_call) m = if answers tool_call m then some none else none

abbrev read_on :
    (Message → Message → Bool) → Option (Option Message) → Message → Option (Option Message)
read_on answers none m = none
read_on answers (some pending) m = read answers pending m

abbrev read_all :
    (Message → Message → Bool) → Option (Option Message) → List Message → Option (Option Message)
read_all answers state [] = state
read_all answers state (m ∷ messages) = read_all answers (read_on answers state m) messages

-- Each call is directly followed by its answer, and there is no other result.
abbrev pub IsPaired : (Message → Message → Bool) → List Message → Type 0
IsPaired answers messages = read_all answers (some none) messages ≡ some none

read_all-append :
    (answers : Message → Message → Bool) (state : Option (Option Message)) (xs : List Message)
    (m : Message)
    → read_all answers state (xs ++ m ∷ []) ≡ read_on answers (read_all answers state xs) m
read_all-append answers state [] m = refl
read_all-append answers state (x ∷ xs) m = read_all-append answers (read_on answers state x) xs m

or_true : (b : Bool) → (b || true) ≡ true
or_true true = refl
or_true false = refl

error_answers :
    (tool_call : Message) → is_answer tool_call (build_synthetic_tool_error tool_call) ≡ true
error_answers tool_call =
    rw
      (
        str_eq_refl ("synthetic-error-" <> tool_call.id),
        str_eq_refl "synthetic_error",
        str_eq_refl tool_call.id,
      )
      (or_true _)

abbrev Reads : Repair → Type 0
Reads s = read_all is_answer (some none) s.repaired ≡ some s.pending_tool_call

give_up-Reads :
    (s : Repair) (tool_call : Message)
    → s.pending_tool_call ≡ some tool_call
    → Reads s
    → Reads (give_up s tool_call)
give_up-Reads s tool_call waiting reads =
    read_all-append is_answer (some none) s.repaired (build_synthetic_tool_error tool_call)
    ∙ rw (reads, waiting, error_answers tool_call) refl

place-Reads : (s : Repair) (m : Message) → s.pending_tool_call ≡ none → Reads s → Reads (place s m)
place-Reads s m idle reads = elim (Bool-cases (is_tool_call m)) [
  | inl call ↦
      rw call (read_all-append is_answer (some none) s.repaired m ∙ rw (reads, idle, call) refl)
  | inr other ↦ rw other (elim (Bool-cases (is_tool_result m)) [
    | inl orphan ↦ rw orphan reads
    | inr plain ↦
        rw plain
          (read_all-append is_answer (some none) s.repaired m ∙ rw (reads, idle, other, plain) refl)
  ])
]

step_from-Reads :
    (pending : Option Message) (s : Repair) (m : Message)
    → s.pending_tool_call ≡ pending
    → Reads s
    → Reads (step_from pending s m)
step_from-Reads none s m idle reads = place-Reads s m idle reads
step_from-Reads (some tool_call) s m waiting reads = elim (Bool-cases (is_result tool_call m)) [
  | inl answer ↦
      rw answer
        (read_all-append is_answer (some none) s.repaired m ∙ rw (reads, waiting, answer) refl)
  | inr other ↦
      rw other (place-Reads (give_up s tool_call) m refl (give_up-Reads s tool_call waiting reads))
]

step-Reads : (s : Repair) (m : Message) → Reads s → Reads (step s m)
step-Reads s m reads = step_from-Reads s.pending_tool_call s m refl reads

steps-Reads : (s : Repair) (messages : List Message) → Reads s → Reads (steps s messages)
unfolding steps
steps-Reads s [] reads = reads
steps-Reads s (m ∷ messages) reads = steps-Reads (step s m) messages (step-Reads s m reads)

close_from-Reads :
    (pending : Option Message) (s : Repair)
    → s.pending_tool_call ≡ pending
    → Reads s
    → IsPaired is_answer (close_from pending s).repaired
close_from-Reads none s idle reads = reads ∙ ap some idle
close_from-Reads (some tool_call) s waiting reads = give_up-Reads s tool_call waiting reads

-- In a repaired transcript each tool call is directly followed by its result or by the error that
-- stands in for it, and no result stands anywhere else, whatever the transcript was before.
pub repair_tool_result_pairing-IsPaired :
    (messages : List Message) → IsPaired is_answer (repair_tool_result_pairing messages).messages
unfolding repair_tool_result_pairing
repair_tool_result_pairing-IsPaired messages =
    close_from-Reads (steps started messages).pending_tool_call (steps started messages) refl
      (steps-Reads started messages refl)

-- What is still to be read gets no error and is not excluded.
abbrev Untouched : Repair → List Message → HygieneResult → Type 0
Untouched s messages result =
    (result.messages ≡ s.repaired ++ messages)
    × (result.synthetic_error_ids ≡ s.synthetic_error_ids)
    × (result.excluded_reasons ≡ s.excluded_reasons)

read_none :
    (answers : Message → Message → Bool) (messages : List Message)
    → read_all answers none messages ≡ none
read_none answers [] = refl
read_none answers (m ∷ messages) = read_none answers messages

keep-Untouched :
    (s : Repair) (m : Message) (messages : List Message) (result : HygieneResult)
    (pending : Option Message)
    → Untouched (record (keep s m) { pending_tool_call = pending }) messages result
    → Untouched s (m ∷ messages) result
keep-Untouched s m messages result pending (same, errors, reasons) =
    (same ∙ append_assoc s.repaired (m ∷ []) messages, errors, reasons)

close-Untouched :
    (s : Repair) (pending : Option Message)
    → s.pending_tool_call ≡ pending
    → some pending ≡ some none
    → Untouched s [] (close s)
close-Untouched s pending e paired =
    let idle : s.pending_tool_call ≡ none = e ∙ some-injective pending none paired in
    subst (λ (p : Option Message). Untouched s [] (close (record s { pending_tool_call = p })))
      (sym idle) (sym (append-nil s.repaired), refl, refl)

not_read :
    (answers : Message → Message → Bool) (messages : List Message)
    → read_all answers none messages ≢ some none
not_read answers messages e = cc (read_none answers messages, e)

steps-Untouched :
    (messages : List Message) (s : Repair) (pending : Option Message)
    → s.pending_tool_call ≡ pending
    → read_all is_result (some pending) messages ≡ some none
    → Untouched s messages (close (steps s messages))
unfolding steps
steps-Untouched [] s pending e paired = close-Untouched s pending e paired
steps-Untouched (m ∷ messages) s none e paired =
    subst
      (λ (p : Option Message).
        Untouched s (m ∷ messages) (close (steps (step_from p s m) messages)))
      (sym e)
      (elim (Bool-cases (is_tool_call m)) [
        | inl call ↦ rw call (
            keep-Untouched s m messages _ (some m) (
              steps-Untouched messages (record (keep s m) { pending_tool_call = some m }) (some m)
                refl (simp call at paired)))
        | inr other ↦ elim (Bool-cases (is_tool_result m)) [
          | inl orphan ↦ absurd (not_read is_result messages (simp (other, orphan) at paired))
          | inr plain ↦
              rw (other, plain)
                (keep-Untouched s m messages _ s.pending_tool_call
                  (steps-Untouched messages (keep s m) none e (simp (other, plain) at paired)))
        ]
      ])
steps-Untouched (m ∷ messages) s (some tool_call) e paired =
    subst
      (λ (p : Option Message).
        Untouched s (m ∷ messages) (close (steps (step_from p s m) messages)))
      (sym e)
      (elim (Bool-cases (is_result tool_call m)) [
        | inl answer ↦ rw answer (
            keep-Untouched s m messages _ none (
              steps-Untouched messages (record (keep s m) { pending_tool_call = none }) none refl
                (simp answer at paired)))
        | inr other ↦ absurd (not_read is_result messages (simp other at paired))
      ])

-- A transcript in which each tool call is directly followed by its result, and no result stands
-- anywhere else, is returned as it is, without errors and without exclusions.
pub repair_tool_result_pairing-paired :
    (messages : List Message)
    → IsPaired is_result messages
    → let result = repair_tool_result_pairing messages in
      (result.messages ≡ messages)
      × (result.synthetic_error_ids ≡ [])
      × (result.excluded_reasons ≡ end)
unfolding repair_tool_result_pairing
repair_tool_result_pairing-paired messages paired =
    steps-Untouched messages started none refl paired
