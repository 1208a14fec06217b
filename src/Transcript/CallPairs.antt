-- ===== src/Transcript/CallPairs.antt =====
-- A tool call and the result directly behind it, and the places of a transcript between the two.
use offer_master.Prelude.{
  ℕ, zero, suc, ◌≤◌, ◌≡◌, refl, sym, ap, ◌∙◌, ◌⊎◌, inl, inr, ◌≢◌, length-append, true, false, ◌&&◌,
  Option, none, some, List, [], ◌∷◌, ◌++◌, length, take, drop, Option-cases, Bool, get_elem?, arith,
  take-append-drop, str_eq_iff, str_eq_refl,
}
use mathlib.Core.Option.{some-injective}
use offer_master.Transcript.{Message, is_result_for_call}
use offer_master.Transcript.Compaction.{splits, would_split_tool_pair, CompactionCut}

-- The second message is the result of the first, a tool call: it names the call as its parent, or
-- has no parent.
abbrev pub IsResultOf : Message → Message → Type 0
IsResultOf call answer =
    (call.role ≡ "tool_call")
    × (answer.role ≡ "tool_result")
    × ((answer.parent_message_id ≡ none) ⊎ (answer.parent_message_id ≡ some call.id))

pub false_ne_true : false ≢ true
false_ne_true e = cc

all_three : (a b c : Bool) → (a && (b && c)) ≡ true → (a ≡ true) × (b ≡ true) × (c ≡ true)
all_three a b c h = ground arith

parent_named :
    (call answer : Message)
    → (answer.parent_message_id ≡ none) ⊎ (answer.parent_message_id ≡ some call.id)
    → is_result_for_call call answer ≡ true
parent_named call answer (inl e) = rw e refl
parent_named call answer (inr e) = rw e (str_eq_refl call.id)

parent_names :
    (call answer : Message)
    → is_result_for_call call answer ≡ true
    → (answer.parent_message_id ≡ none) ⊎ (answer.parent_message_id ≡ some call.id)
parent_names call answer h = elim (Option-cases answer.parent_message_id) [
  | inl e ↦ inl e
  | inr (parent, e) ↦ inr (e ∙ ap some ((str_eq_iff parent call.id).0 (rw e at h)))
]

-- The code's test finds every result of a call,
splits_found :
    (call answer : Message) → IsResultOf call answer → splits (some call) (some answer) ≡ true
splits_found call answer (calls, answers, named) =
    rw
      (
        (str_eq_iff call.role "tool_call").1 calls,
        (str_eq_iff answer.role "tool_result").1 answers,
        parent_named call answer named,
      )
      refl

-- and nothing else.
pub splits-IsResultOf :
    (call answer : Message) → splits (some call) (some answer) ≡ true → IsResultOf call answer
splits-IsResultOf call answer h =
    let (calls, answers, named) = all_three _ _ _ h in
    (
      (str_eq_iff call.role "tool_call").0 calls,
      (str_eq_iff answer.role "tool_result").0 answers,
      parent_names call answer named,
    )

-- Where two neighbours stand in a transcript.
get_elem?-append :
    (before after : List Message) (m : Message)
    → get_elem? (before ++ (m ∷ after)) (length before) ≡ some m
get_elem?-append [] after m = refl
get_elem?-append (b ∷ before) after m = get_elem?-append before after m

get_elem?-append_next :
    (before after : List Message) (m n : Message)
    → get_elem? (before ++ (m ∷ n ∷ after)) (suc (length before)) ≡ some n
get_elem?-append_next [] after m n = refl
get_elem?-append_next (b ∷ before) after m n = get_elem?-append_next before after m n

append_one :
    (before after : List Message) (m : Message)
    → (before ++ (m ∷ [])) ++ after ≡ before ++ (m ∷ after)
append_one [] after m = refl
append_one (b ∷ before) after m = ap (λ l. b ∷ l) (append_one before after m)

would_split_between :
    (messages before after : List Message) (call answer : Message)
    → messages ≡ before ++ (call ∷ answer ∷ after)
    → would_split_tool_pair messages (suc (length before)) ≡ splits (some call) (some answer)
would_split_between messages before after call answer e =
    rw
      (
        e,
        get_elem?-append before (answer ∷ after) call,
        get_elem?-append_next before after call answer,
      )
      refl

drop-get_elem? :
    (messages : List Message) (n : ℕ) (m : Message)
    → get_elem? messages n ≡ some m
    → drop n messages ≡ m ∷ drop (suc n) messages
drop-get_elem? [] n m e = cc
drop-get_elem? (x ∷ messages) zero m e = ap (λ y. y ∷ messages) (some-injective _ _ e)
drop-get_elem? (x ∷ messages) (suc n) m e = drop-get_elem? messages n m e

-- The two messages of a pair that the code's test finds.
splits_pair :
    (a b : Option Message)
    → splits a b ≡ true
    → (call answer : Message) × (a ≡ some call) × (b ≡ some answer) × IsResultOf call answer
splits_pair none b h = absurd (false_ne_true h)
splits_pair (some call) none h = absurd (false_ne_true h)
splits_pair (some call) (some answer) h =
    (call, answer, refl, refl, splits-IsResultOf call answer h)

-- A transcript that begins with a call and its result.
abbrev pub BeginsWithPair : List Message → Type 0
BeginsWithPair messages =
    (call answer : Message) × (rest : List Message) × (messages ≡ call ∷ answer ∷ rest)
    × IsResultOf call answer

would_split-BeginsWithPair :
    (messages : List Message) (n : ℕ)
    → would_split_tool_pair messages (suc n) ≡ true
    → BeginsWithPair (drop n messages)
would_split-BeginsWithPair messages n h =
    let (call, answer, first, second, pair) =
      splits_pair (get_elem? messages n) (get_elem? messages (suc n)) h in
    (
      call,
      answer,
      drop (suc (suc n)) messages,
      drop-get_elem? messages n call first
          ∙ ap (λ l. call ∷ l) (drop-get_elem? messages (suc n) answer second),
      pair,
    )

-- A cut between a call and the result that stands directly behind it.
abbrev pub Separates : CompactionCut → Type 0
Separates cut =
    (before after : List Message) × (call answer : Message) × (cut.messages_to_summarize
      ≡ before ++ (call ∷ []))
    × (cut.recent_messages_to_keep ≡ answer ∷ after)
    × IsResultOf call answer

pub length-take :
    (n : ℕ) (messages : List Message) → n ≤ length messages → length (take n messages) ≡ n
length-take zero messages inside = refl
length-take (suc n) [] inside = absurd (omega (arith, inside))
length-take (suc n) (m ∷ messages) inside = ap suc (length-take n messages (omega arith))

-- A cut at a place that the code's test lets pass separates no call from its result.
pub whole-Separates :
    (messages : List Message) (n : ℕ) (cut : CompactionCut)
    → cut.messages_to_summarize ≡ take n messages
    → cut.recent_messages_to_keep ≡ drop n messages
    → n ≤ length messages
    → would_split_tool_pair messages n ≡ false
    → ¬ (Separates cut)
whole-Separates messages n cut taken dropped inside whole
      (before, after, call, answer, e, f, pair) =
    let split : messages ≡ before ++ (call ∷ answer ∷ after) =
      sym (take-append-drop n messages)
      ∙ ap (λ l. l ++ drop n messages) (sym taken ∙ e)
      ∙ ap (λ l. (before ++ (call ∷ [])) ++ l) (sym dropped ∙ f)
      ∙ append_one before (answer ∷ after) call in
    let size : n ≡ suc (length before) = omega (
      arith,
      length-take n messages inside,
      ap (λ (l : List Message). length l) (sym taken ∙ e),
      length-append before (call ∷ []),
    ) in
    false_ne_true (
      sym whole
      ∙ ap (would_split_tool_pair messages) size
      ∙ would_split_between messages before after call answer split
      ∙ splits_found call answer pair)

-- Where the second loop has moved the cut.
pub moved :
    (messages : List Message) (position n : ℕ)
    → length (take n messages) ≡ n
    → (position ≡ n) ⊎ ((position ≡ suc n) × (would_split_tool_pair messages position ≡ true))
    → (position ≡ length (take n messages))
      ⊎ ((position ≡ suc (length (take n messages))) × BeginsWithPair (drop n messages))
moved messages position n size (inl stayed) = inl (stayed ∙ sym size)
moved messages position n size (inr (back, split)) = inr (
  back ∙ ap suc (sym size),
  would_split-BeginsWithPair messages n (ap (would_split_tool_pair messages) (sym back) ∙ split),
)
