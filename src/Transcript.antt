-- ===== src/Transcript.antt =====
-- apps/api/app/agent_runtime/memory, the part on the transcript of a conversation: its tokens, what
-- is kept of it when it grows too long, and the pairing of tool calls with their results.
pub mod TokenBudget
pub mod Estimates
pub mod Compaction
pub mod CallPairs
pub mod CutPoint
pub mod Hygiene
pub mod Pairing
pub mod Visible
mod Examples
use offer_master.Prelude.{ℕ, String, Bool, true, false, Option, none, some, str_eq, if◌then◌else◌}
use offer_master.Prelude.Text.{is_empty}
use offer_master.Prelude.Json.{Fields}
use offer_master.Prelude.Int.{ℤ}

-- The attributes of a message that the code reads, a role and a kind as their text values.
pub record Message : Type 0 where
  pub id : String
  pub role : String
  pub content_text : Option String
  pub visible_content_text : Option String
  pub runtime_content_text : Option String
  pub message_kind : Option String
  pub token_estimate : Option ℤ
  pub parent_message_id : Option String
  pub exclude_from_context : Bool
  pub compacted_by_summary_id : Option String
  pub metadata_json : Option Fields
  pub content_json : Option Fields

-- `a or b` of two optional texts.
abbrev pub or_text : Option String → Option String → Option String
or_text none b = b
or_text (some a) b = if is_empty a then b else some a

abbrev pub is_tool_call : Message → Bool
is_tool_call m = str_eq m.role "tool_call"

abbrev pub is_tool_result : Message → Bool
is_tool_result m = str_eq m.role "tool_result"

-- `parent_message_id in {None, tool_call.id}`
abbrev parent_matches : Option String → String → Bool
parent_matches none id = true
parent_matches (some parent) id = str_eq parent id

abbrev pub is_result_for_call : Message → Message → Bool
is_result_for_call tool_call tool_result = parent_matches tool_result.parent_message_id tool_call.id
