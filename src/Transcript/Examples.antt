-- ===== src/Transcript/Examples.antt =====
-- Tests of the transcript code on short transcripts.
use offer_master.Prelude.{
  ◌*◌, ℕ, suc, ◌≡◌, refl, ◌≢◌, ◌⊎◌, ◌≤◌, String, true, false, none, some, List, [], ◌∷◌, ◌++◌, map,
  length, drop, str_eq,
}
use offer_master.Prelude.Text.{strip, lstrip, rstrip, is_space}
use offer_master.Prelude.Json.{end, insert}
use offer_master.Prelude.Int.{pos}
use offer_master.Transcript.{Message}
use offer_master.Transcript.TokenBudget.{
  estimate_tokens, estimate_message_tokens, message_tokens, exceeds, count_chars,
}
use offer_master.Transcript.Compaction.{scan, widen, find_cut_point}
use offer_master.Transcript.CallPairs.{BeginsWithPair, Separates}
use offer_master.Transcript.CutPoint.{find_cut_point_lem, find_cut_point-budget}
use offer_master.Transcript.Estimates.{non_space, estimate_tokens-bounds}
use offer_master.Transcript.Visible.{filter_visible_transcript-public}
use offer_master.Transcript.Hygiene.{steps, filter_visible_transcript, repair_tool_result_pairing}
use offer_master.Transcript.Pairing.{
  IsPaired, is_answer, repair_tool_result_pairing-IsPaired, repair_tool_result_pairing-paired,
}

abbrev message : String → String → String → Message
message id role text = record {
  id = id;
  role = role;
  content_text = some text;
  visible_content_text = none;
  runtime_content_text = none;
  message_kind = none;
  token_estimate = none;
  parent_message_id = none;
  exclude_from_context = false;
  compacted_by_summary_id = none;
  metadata_json = none;
  content_json = none;
}

abbrev request : Message
request = message "m1" "user" "find a job"

abbrev call : Message
call = message "m2" "tool_call" "job.search"

abbrev answer : Message
answer = message "m3" "tool_result" "two jobs"

abbrev whole_transcript : List Message
whole_transcript = request ∷ call ∷ answer ∷ []

abbrev broken_transcript : List Message
broken_transcript = answer ∷ call ∷ request ∷ []

mixed_tokens : estimate_tokens (some " job 工作 ab ") ≡ 4
unfolding estimate_tokens strip lstrip rstrip is_space count_chars
mixed_tokens = refl

kept_ids :
    map (λ (m : Message). m.id) (find_cut_point whole_transcript (pos 2)).recent_messages_to_keep
    ≡ "m2" ∷ "m3" ∷ []
unfolding find_cut_point scan widen message_tokens estimate_tokens strip lstrip rstrip is_space
    count_chars str_eq
kept_ids = refl

repaired_ids :
    map (λ (m : Message). m.id) (repair_tool_result_pairing broken_transcript).messages
    ≡ "m2" ∷ "synthetic-error-m2" ∷ "m1" ∷ []
unfolding repair_tool_result_pairing steps str_eq insert
repaired_ids = refl

find_cut_point_lem_example :
    let cut = find_cut_point whole_transcript (pos 2) in
    (cut.messages_to_summarize ++ cut.recent_messages_to_keep ≡ whole_transcript)
    × (length cut.recent_messages_to_keep ≢ 0)
    × (cut.kept_token_estimate ≡ estimate_message_tokens cut.recent_messages_to_keep)
    × (¬ (Separates cut))
find_cut_point_lem_example = find_cut_point_lem request (call ∷ answer ∷ []) (pos 2)

find_cut_point-budget_example :
    let cut = find_cut_point whole_transcript (pos 2) in
    (position : ℕ) × ((position ≡ length cut.messages_to_summarize)
      ⊎ ((position ≡ suc (length cut.messages_to_summarize))
          × BeginsWithPair cut.recent_messages_to_keep))
    × ((exceeds (estimate_message_tokens (drop position whole_transcript)) (pos 2) ≡ false)
        ⊎ (suc position ≡ length whole_transcript))
    × ((previous : ℕ)
        → suc previous ≡ position
        → exceeds (estimate_message_tokens (drop previous whole_transcript)) (pos 2) ≡ true)
find_cut_point-budget_example = find_cut_point-budget request (call ∷ answer ∷ []) (pos 2)

repair_tool_result_pairing-IsPaired_example :
    IsPaired is_answer (repair_tool_result_pairing broken_transcript).messages
repair_tool_result_pairing-IsPaired_example = repair_tool_result_pairing-IsPaired broken_transcript

repair_tool_result_pairing-paired_example :
    let result = repair_tool_result_pairing whole_transcript in
    (result.messages ≡ whole_transcript)
    × (result.synthetic_error_ids ≡ [])
    × (result.excluded_reasons ≡ end)
unfolding str_eq
repair_tool_result_pairing-paired_example = repair_tool_result_pairing-paired whole_transcript refl

estimate_tokens-bounds_example :
    (estimate_tokens (some " job 工作 ab ") ≤ non_space (strip " job 工作 ab "))
    × (non_space (strip " job 工作 ab ") ≤ 4 * estimate_tokens (some " job 工作 ab "))
estimate_tokens-bounds_example = estimate_tokens-bounds " job 工作 ab "

abbrev with_runtime_text : Message
with_runtime_text = record request { runtime_content_text = some "internal" }

filter_visible_transcript-public_example :
    filter_visible_transcript (with_runtime_text ∷ call ∷ [])
    ≡ filter_visible_transcript (request ∷ call ∷ [])
filter_visible_transcript-public_example =
    filter_visible_transcript-public (with_runtime_text ∷ call ∷ []) (request ∷ call ∷ []) refl
