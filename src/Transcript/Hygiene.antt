-- ===== src/Transcript/Hygiene.antt =====
-- memory/transcript_hygiene.py: every tool call gets a result, and no result stands without its call.
use offer_master.Prelude.{
  String, ◌<>◌, false, ◌&&◌, Option, none, some, List, [], ◌∷◌, ◌++◌, if◌then◌else◌,
}
use offer_master.Prelude.Json.{Fields, field, end, str, insert}
use offer_master.Prelude.Int.{pos}
use offer_master.Transcript.{Message, or_text, is_tool_call, is_tool_result, is_result_for_call}

-- The reasons for an exclusion are a dict: a later one replaces an earlier one of the same id.
pub record HygieneResult : Type 0 where
  pub messages : List Message
  pub synthetic_error_ids : List String
  pub excluded_reasons : Fields

-- The variables of the loop.
pub record Repair : Type 0 where
  pub repaired : List Message
  pub synthetic_error_ids : List String
  pub excluded_reasons : Fields
  pub pending_tool_call : Option Message

abbrev pub build_synthetic_tool_error : Message → Message
build_synthetic_tool_error tool_call =
    let content = "工具结果缺失，本轮不能判断工具成功。 tool_call_id=" <> tool_call.id in
    record {
      id = "synthetic-error-" <> tool_call.id;
      role = "assistant";
      content_text = some content;
      visible_content_text = some content;
      runtime_content_text = none;
      message_kind = some "synthetic_error";
      token_estimate = some (pos 24);
      parent_message_id = some tool_call.id;
      exclude_from_context = false;
      compacted_by_summary_id = none;
      metadata_json = some (
          field "error_code" (str "TOOL_RESULT_MISSING")
            (field "tool_call_message_id" (str tool_call.id) end));
      content_json = none;
    }

abbrev pub keep : Repair → Message → Repair
keep s message = record s { repaired = s.repaired ++ message ∷ [] }

-- The pending call gets an error in the place of its result.
abbrev pub give_up : Repair → Message → Repair
give_up s tool_call = record (keep s (build_synthetic_tool_error tool_call)) {
  synthetic_error_ids = s.synthetic_error_ids ++ (build_synthetic_tool_error tool_call).id ∷ [];
  pending_tool_call = none;
}

abbrev pub place : Repair → Message → Repair
place s message =
    if is_tool_call message
    then record (keep s message) { pending_tool_call = some message }
    else if is_tool_result message
    then record s {
      excluded_reasons = insert message.id (str "ORPHAN_TOOL_RESULT") s.excluded_reasons;
    }
    else keep s message

abbrev pub step_from : Option Message → Repair → Message → Repair
step_from none s message = place s message
step_from (some tool_call) s message =
    if is_tool_result message && is_result_for_call tool_call message
    then record (keep s message) { pending_tool_call = none }
    else place (give_up s tool_call) message

-- One round of the `for` loop.
abbrev pub step : Repair → Message → Repair
step s message = step_from s.pending_tool_call s message

unfoldable pub steps : Repair → List Message → Repair
steps s [] = s
steps s (message ∷ messages) = steps (step s message) messages

abbrev pub close_from : Option Message → Repair → Repair
close_from none s = s
close_from (some tool_call) s = give_up s tool_call

abbrev pub close : Repair → HygieneResult
close s =
    let s = close_from s.pending_tool_call s in
    record {
      messages = s.repaired;
      synthetic_error_ids = s.synthetic_error_ids;
      excluded_reasons = s.excluded_reasons;
    }

abbrev pub started : Repair
started = record {
  repaired = [];
  synthetic_error_ids = [];
  excluded_reasons = end;
  pending_tool_call = none;
}

unfoldable pub repair_tool_result_pairing : List Message → HygieneResult
repair_tool_result_pairing messages = close (steps started messages)

abbrev pub visible_text : Message → Option String
visible_text m = or_text m.visible_content_text m.content_text

abbrev pub visible_message : Message → String → Message
visible_message m text = record m {
  content_text = some text;
  visible_content_text = some text;
  runtime_content_text = none;
  content_json = none;
}

abbrev pub keep_visible : Option String → Message → List Message → List Message
keep_visible none m rest = rest
keep_visible (some text) m rest = visible_message m text ∷ rest

-- The messages with a visible text, without what only the runtime sees.
abbrev pub filter_visible_transcript : List Message → List Message
filter_visible_transcript [] = []
filter_visible_transcript (m ∷ messages) =
    keep_visible (visible_text m) m (filter_visible_transcript messages)
