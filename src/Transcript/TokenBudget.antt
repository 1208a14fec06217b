-- ===== src/Transcript/TokenBudget.antt =====
-- memory/token_budget.py: how many tokens a text and a list of messages are taken to have.
use offer_master.Prelude.{
  ℕ, suc, ◌+◌, ◌/◌, max, String, Bool, true, ◌&&◌, ◌||◌, Option, none, some, List, [], ◌∷◌, ltb,
  leb, if◌then◌else◌,
}
use Prim.Native.Char.{code}
use offer_master.Prelude.Text.{is_empty, is_space, strip}
use offer_master.Prelude.Json.{Fields, end, field, obj}
use offer_master.Prelude.JsonText.{dumps}
use offer_master.Prelude.Int.{ℤ, pos, negsuc, sub_ℕ}
use offer_master.Transcript.{Message, or_text}

pub record Counts : Type 0 where
  pub cjk_chars : ℕ
  pub ascii_non_space : ℕ
  pub other_non_space : ℕ

abbrev count_char : ℕ → Counts → Counts
count_char c n =
    if is_space c
    then n
    else if leb 19968 c && leb c 40959
    then record n { cjk_chars = suc n.cjk_chars }
    else if ltb c 128
    then record n { ascii_non_space = suc n.ascii_non_space }
    else record n { other_non_space = suc n.other_non_space }

unfoldable pub count_chars : String → Counts
count_chars String.[] = record { cjk_chars = 0; ascii_non_space = 0; other_non_space = 0 }
count_chars (String.◌∷◌ c s) = count_char (code c) (count_chars s)

-- `math.ceil(n / 4)` is exact: no text has as many characters as a float has integers.
abbrev pub tokens_of : Counts → ℕ
tokens_of n = max 1 (n.cjk_chars + n.other_non_space + (n.ascii_non_space + 3) / 4)

unfoldable pub estimate_tokens : Option String → ℕ
unfolding count_chars
estimate_tokens none = 0
estimate_tokens (some text) =
    if is_empty text || is_empty (strip text) then 0 else tokens_of (count_chars (strip text))

abbrev message_text : Message → Option String
message_text m = or_text m.runtime_content_text (or_text m.visible_content_text m.content_text)

abbrev content_tokens : Option Fields → ℕ
content_tokens none = 0
content_tokens (some end) = 0
content_tokens (some (field key value rest)) =
    estimate_tokens (some (dumps ", " ": " (obj (field key value rest))))

abbrev estimate_content : Message → ℕ
estimate_content m = estimate_tokens (message_text m) + content_tokens m.content_json

-- The share of one message: its own estimate, where it has one that is not negative.
abbrev message_tokens_of : Option ℤ → Message → ℕ
message_tokens_of (some (pos n)) m = n
message_tokens_of (some (negsuc n)) m = estimate_content m
message_tokens_of none m = estimate_content m

unfoldable pub message_tokens : Message → ℕ
message_tokens m = message_tokens_of m.token_estimate m

abbrev pub estimate_message_tokens : List Message → ℕ
estimate_message_tokens [] = 0
estimate_message_tokens (m ∷ messages) = message_tokens m + estimate_message_tokens messages

-- `n > limit`
abbrev pub exceeds : ℕ → ℤ → Bool
exceeds n (pos limit) = ltb limit n
exceeds n (negsuc limit) = true

abbrev sub : ℤ → ℤ → ℤ
sub (pos a) (pos b) = sub_ℕ a b
sub (pos a) (negsuc b) = pos (a + suc b)
sub (negsuc a) (pos b) = negsuc (a + b)
sub (negsuc a) (negsuc b) = sub_ℕ b a

abbrev pub threshold : ℤ → ℤ → ℤ
threshold context_window reserve_tokens = sub context_window reserve_tokens

abbrev pub should_compact : ℕ → ℤ → ℤ → Bool
should_compact context_tokens context_window reserve_tokens =
    exceeds context_tokens (sub context_window reserve_tokens)
