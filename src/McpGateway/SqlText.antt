-- ===== src/McpGateway/SqlText.antt =====
-- mcp_gateway/dbx_readonly.py: _strip_sql_comments_and_literals. An index into the text is the rest
-- of the text from there. Each round of the loop takes at least one character, so the fuel is the
-- length of the text.
pub mod Pieces
pub mod Rounds
use offer_master.Prelude.{
  ℕ, zero, suc, ◌≡◌, refl, String, Bool, true, false, ◌&&◌, ◌||◌, Option, none, some, ◌==◌,
  if◌then◌else◌,
}
use Prim.Native.Char.{Char, code}

abbrev pub text_length : String → ℕ
text_length String.[] = 0
text_length (String.◌∷◌ c s) = suc (text_length s)

-- `sql[index] == c`, inside the text.
abbrev pub starts : ℕ → String → Bool
starts c String.[] = false
starts c (String.◌∷◌ d s) = code d == c

abbrev pub skip_one : String → String
skip_one String.[] = String.[]
skip_one (String.◌∷◌ c s) = s

-- _skip_until_line_end
unfoldable pub after_line : String → String
after_line String.[] = String.[]
after_line (String.◌∷◌ c s) = let rest = after_line s in if code c == 10 then s else rest

-- What follows the end of a block comment, which is the end of the text if there is none.
unfoldable pub after_block : String → String
after_block String.[] = String.[]
after_block (String.◌∷◌ c s) =
    let rest = after_block s in if code c == 42 && starts 47 s then skip_one s else rest

-- Double and single quotes and backticks.
abbrev pub is_quote : ℕ → Bool
is_quote c = c == 34 || (c == 39 || c == 96)

-- One round: the character that is put out, the open quote and the rest of the text.
abbrev pub in_quote : ℕ → Char → String → Option Char × Option ℕ × String
in_quote quote c s =
    if code c == 92
    then (none, some quote, skip_one s)
    else if code c == quote
    then if starts quote s then (none, some quote, skip_one s) else (none, none, s)
    else (none, some quote, s)

abbrev pub in_code : Char → String → Option Char × Option ℕ × String
in_code c s =
    if is_quote (code c)
    then (some " ", some (code c), s)
    else if code c == 45 && starts 45 s
    then (some " ", none, after_line (skip_one s))
    else if code c == 35
    then (some " ", none, after_line s)
    else if code c == 47 && starts 42 s
    then (some " ", none, after_block (skip_one s))
    else (some c, none, s)

abbrev pub round : Option ℕ → String → Option (Option Char × Option ℕ × String)
round quote String.[] = none
round none (String.◌∷◌ c s) = some (in_code c s)
round (some quote) (String.◌∷◌ c s) = some (in_quote quote c s)

abbrev pub put_out : Option Char → String → String
put_out none s = s
put_out (some c) s = String.◌∷◌ c s

unfoldable pub strip_loop : ℕ → Option ℕ → String → String
strip_loop zero quote s = String.[]
strip_loop (suc fuel) quote s = elim (round quote s) [
  | none ↦ String.[]
  | some (out, quote', rest) ↦ put_out out (strip_loop fuel quote' rest)
]

unfoldable pub strip_sql : String → String
strip_sql sql = strip_loop (text_length sql) none sql

stripped_query : strip_sql "select 'a;b' -- c\n /* ; */ x" ≡ "select       x"
unfolding strip_sql strip_loop after_line after_block
stripped_query = refl
