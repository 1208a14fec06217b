-- ===== src/Transcript/Compaction.antt =====
-- memory/compaction.py: where the transcript is cut. The prompt and the summary text are left out.
use offer_master.Prelude.{
  ℕ, zero, suc, ◌+◌, String, Bool, false, ◌&&◌, Option, none, some, List, [], ◌∷◌, length, take,
  drop, get_elem?, ltb, if◌then◌else◌,
}
use offer_master.Prelude.Int.{ℤ}
use offer_master.Transcript.{Message, is_tool_call, is_tool_result, is_result_for_call}
use offer_master.Transcript.TokenBudget.{
  message_tokens, estimate_tokens, estimate_message_tokens, exceeds, should_compact, threshold,
}

pub record CompactionConfig : Type 0 where
  pub context_window : ℤ
  pub reserve_tokens : ℤ
  pub keep_recent_tokens : ℤ

pub record CompactionCut : Type 0 where
  pub messages_to_summarize : List Message
  pub recent_messages_to_keep : List Message
  pub first_kept_message_id : Option String
  pub kept_token_estimate : ℕ

pub record CompactionPlan : Type 0 where
  pub should_compact : Bool
  pub context_tokens : ℕ
  pub threshold_tokens : ℤ
  pub previous_summary : Option String
  pub cut : CompactionCut

abbrev pub first_id : List Message → Option String
first_id [] = none
first_id (m ∷ messages) = some m.id

-- The result of the role and parent test on two messages, which are there for every cut the code tests.
abbrev pub splits : Option Message → Option Message → Bool
splits (some previous) (some current) =
    is_tool_call previous && (is_tool_result current && is_result_for_call previous current)
splits _ _ = false

-- The tokens of the message at an index, which the loops only take inside the list.
abbrev pub tokens_of? : Option Message → ℕ
tokens_of? none = 0
tokens_of? (some m) = message_tokens m

module _ (messages : List Message) where
  abbrev pub tokens_at : ℕ → ℕ
  tokens_at index = tokens_of? (get_elem? messages index)

  abbrev pub would_split_tool_pair : ℕ → Bool
  would_split_tool_pair zero = false
  would_split_tool_pair (suc previous) =
      splits (get_elem? messages previous) (get_elem? messages (suc previous))

  -- The `for` loop from the end, with the rounds that are left: `running_tokens` and `cut_index`.
  unfoldable pub scan : ℤ → ℕ → ℕ → ℕ → ℕ × ℕ
  scan keep zero running_tokens cut_index = (running_tokens, cut_index)
  scan keep (suc index) running_tokens cut_index =
      let rest = scan keep index (running_tokens + tokens_at index) index in
      if ltb cut_index (length messages) && exceeds (running_tokens + tokens_at index) keep
      then (running_tokens, cut_index)
      else rest

  -- The `while` loop that takes a call in front of its result into what is kept.
  unfoldable pub widen : ℕ → ℕ → ℕ × ℕ
  widen running_tokens zero = (running_tokens, zero)
  widen running_tokens (suc previous) =
      let rest = widen (running_tokens + tokens_at previous) previous in
      if would_split_tool_pair (suc previous) then rest else (running_tokens, suc previous)

  abbrev pub cut_at : ℕ × ℕ → CompactionCut
  cut_at (running_tokens, cut_index) = record {
    messages_to_summarize = take cut_index messages;
    recent_messages_to_keep = drop cut_index messages;
    first_kept_message_id = first_id (drop cut_index messages);
    kept_token_estimate = running_tokens;
  }

  abbrev pub find_nonempty : ℤ → CompactionCut
  find_nonempty keep_recent_tokens =
      let (running_tokens, cut_index) =
        scan keep_recent_tokens (length messages) 0 (length messages) in
      cut_at (widen running_tokens cut_index)

unfoldable pub find_cut_point : List Message → ℤ → CompactionCut
find_cut_point [] keep_recent_tokens = record {
  messages_to_summarize = [];
  recent_messages_to_keep = [];
  first_kept_message_id = none;
  kept_token_estimate = 0;
}
find_cut_point (m ∷ messages) keep_recent_tokens = find_nonempty (m ∷ messages) keep_recent_tokens

abbrev pub prepare_compaction : List Message → Option String → CompactionConfig → CompactionPlan
prepare_compaction messages latest_summary config =
    let context_tokens = estimate_tokens latest_summary + estimate_message_tokens messages in
    record {
      should_compact = should_compact context_tokens config.context_window config.reserve_tokens;
      context_tokens = context_tokens;
      threshold_tokens = threshold config.context_window config.reserve_tokens;
      previous_summary = latest_summary;
      cut = find_cut_point messages config.keep_recent_tokens;
    }
