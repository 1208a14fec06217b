-- ===== src/McpGateway/DbxReadonly.antt =====
-- mcp_gateway/dbx_readonly.py and tool_policy.py: DBX tools are allowed by name and read-only by
-- their SQL. `lower` is str.lower, and Re is what the regular expressions ask of characters under
-- IGNORECASE: whether one is a given letter, and whether it is a word character. The descriptions
-- and the input schemas of the tools are left out.
pub mod Allowlist
pub mod Verdict
mod Examples
use offer_master.Prelude.{
  ℕ, String, Bool, true, false, ◌&&◌, ◌||◌, not, Option, none, some, List, [], ◌∷◌, ◌++◌, ◌==◌,
  str_eq, if◌then◌else◌,
}
use offer_master.Prelude.Text.{is_empty, is_space, strip, lstrip, after_prefix}
use offer_master.Prelude.Json.{Json, str, bool, obj, Fields, field, end, get}
use Prim.Native.Char.{Char, code}
use offer_master.ToolPermissions.{contains_tool, dedupe}
use offer_master.McpGateway.SqlText.{strip_sql}

pub record Re : Type 0 where
  pub same_letter : Char → Char → Bool
  pub is_word : Char → Bool

pub record McpToolCallResult : Type 0 where
  pub tool_name : String
  pub ok : Bool
  pub result : Json
  pub error : Option String
  pub metadata : Fields

abbrev pub readonly_tools : List String
readonly_tools =
    "dbx.dbx_list_connections" ∷ "dbx.dbx_list_databases" ∷ "dbx.dbx_list_tables"
    ∷ "dbx.dbx_get_schema_context" ∷ "dbx.dbx_describe_table" ∷ "dbx.dbx_execute_query" ∷ []

abbrev pub confirmed_tools : List String
confirmed_tools =
    "fill_form" ∷ "submit_application" ∷ "click_submit" ∷ "browser_submit" ∷ "click" ∷ "fill"
    ∷ "type_text" ∷ "press_key" ∷ []

-- A part of a pattern: the letters of a word, or `\s+`.
pub data Part : Type 0 where
  word : String → Part
  blanks : Part

abbrev found : {A : Type 0} → Option A → Bool
found none = false
found (some a) = true

module _ (re : Re) where
  abbrev after_word : String → String → Option String
  after_word String.[] s = some s
  after_word (String.◌∷◌ c letters) String.[] = none
  after_word (String.◌∷◌ c letters) (String.◌∷◌ d s) =
      let rest = after_word letters s in if re.same_letter c d then rest else none

  abbrev after_blanks : String → Option String
  after_blanks String.[] = none
  after_blanks (String.◌∷◌ c s) = if is_space (code c) then some (lstrip s) else none

  abbrev after_part : Part → String → Option String
  after_part (word letters) s = after_word letters s
  after_part blanks s = after_blanks s

  abbrev after_parts : List Part → Option String → Option String
  after_parts parts none = none
  after_parts [] (some s) = some s
  after_parts (part ∷ parts) (some s) = after_parts parts (after_part part s)

  -- `\b` behind a word character
  abbrev word_ends : String → Bool
  word_ends String.[] = true
  word_ends (String.◌∷◌ c s) = not (re.is_word c)

  abbrev ends_there : Option String → Bool
  ends_there none = false
  ends_there (some rest) = word_ends rest

  -- One of the alternatives matches at the start of the text and ends at the end of a word.
  abbrev matches_one : List (List Part) → String → Bool
  matches_one [] s = false
  matches_one (parts ∷ alternatives) s =
      ends_there (after_parts parts (some s)) || matches_one alternatives s

  -- `search`, where the character before the text is known to be a word character or not.
  abbrev search_from : List (List Part) → Bool → String → Bool
  search_from alternatives in_word String.[] = false
  search_from alternatives in_word (String.◌∷◌ c s) =
      (not in_word && (re.is_word c && matches_one alternatives (String.◌∷◌ c s)))
      || search_from alternatives (re.is_word c) s

  abbrev read_starts : List (List Part)
  read_starts =
      (word "select" ∷ [])
      ∷ (word "with" ∷ [])
      ∷ (word "show" ∷ [])
      ∷ (word "describe" ∷ [])
      ∷ (word "desc" ∷ [])
      ∷ (word "explain" ∷ [])
      ∷ []

  abbrev mutations : List (List Part)
  mutations =
      (word "insert" ∷ [])
      ∷ (word "update" ∷ [])
      ∷ (word "delete" ∷ [])
      ∷ (word "merge" ∷ [])
      ∷ (word "replace" ∷ [])
      ∷ (word "truncate" ∷ [])
      ∷ (word "alter" ∷ [])
      ∷ (word "drop" ∷ [])
      ∷ (word "create" ∷ [])
      ∷ (word "grant" ∷ [])
      ∷ (word "revoke" ∷ [])
      ∷ (word "call" ∷ [])
      ∷ (word "load" ∷ [])
      ∷ (word "set" ∷ [])
      ∷ (word "use" ∷ [])
      ∷ (word "commit" ∷ [])
      ∷ (word "rollback" ∷ [])
      ∷ []

  abbrev read_modifiers : List (List Part)
  read_modifiers =
      (word "for" ∷ blanks ∷ word "update" ∷ [])
      ∷ (word "lock" ∷ blanks ∷ word "in" ∷ blanks ∷ word "share" ∷ blanks ∷ word "mode" ∷ [])
      ∷ (word "lock" ∷ blanks ∷ word "table" ∷ [])
      ∷ (word "into" ∷ blanks ∷ word "outfile" ∷ [])
      ∷ (word "into" ∷ blanks ∷ word "dumpfile" ∷ [])
      ∷ []

  unfoldable pub starts_as_read : String → Bool
  starts_as_read sql = matches_one read_starts sql

  unfoldable pub writes_or_locks : String → Bool
  writes_or_locks sql = search_from mutations false sql || search_from read_modifiers false sql

  abbrev pub has_char : ℕ → String → Bool
  has_char c String.[] = false
  has_char c (String.◌∷◌ d s) = code d == c || has_char c s

  abbrev policy_error : String → String → Option McpToolCallResult
  policy_error tool_name message = some (record {
    tool_name = tool_name;
    ok = false;
    result = obj (field "message" (str message) (field "read_only" (bool true) end));
    error = some "DBX_READ_ONLY_POLICY";
    metadata = end;
  })

  abbrev pub check_stripped : String → String → Option McpToolCallResult
  check_stripped tool_name sql =
      if has_char 59 sql
      then policy_error tool_name "Only one read-only SQL statement is allowed."
      else if not (starts_as_read sql)
      then policy_error tool_name
          "Only SELECT, WITH, SHOW, DESCRIBE, or EXPLAIN queries are allowed."
      else if writes_or_locks sql
      then policy_error tool_name "The SQL contains a write or locking operation and was blocked."
      else none

  abbrev pub check_sql : String → Json → Option McpToolCallResult
  check_sql tool_name (str sql) =
      if is_empty (strip sql)
      then policy_error tool_name "dbx_execute_query requires a non-empty SQL query."
      else check_stripped tool_name (strip (strip_sql sql))
  check_sql tool_name _ = policy_error tool_name "dbx_execute_query requires a non-empty SQL query."

module _ (lower : String → String) where
  unfoldable pub is_dbx_tool_name : String → Bool
  is_dbx_tool_name tool_name = found (after_prefix "dbx." (lower (strip tool_name)))

  unfoldable pub is_allowed_dbx_readonly_tool : String → Bool
  is_allowed_dbx_readonly_tool tool_name = contains_tool readonly_tools (lower (strip tool_name))

  -- A name that the filter passes over: an empty one, or a DBX tool that is not allowed.
  abbrev pub is_passed_over : String → Bool
  is_passed_over name =
      is_empty name || (is_dbx_tool_name name && not (is_allowed_dbx_readonly_tool name))

  unfoldable pub filter_from : List String → List String → List String
  filter_from filtered [] = filtered
  filter_from filtered (raw_name ∷ tool_names) =
      filter_from
        (if is_passed_over (strip raw_name) || contains_tool filtered (strip raw_name)
          then filtered
          else filtered ++ strip raw_name ∷ [])
        tool_names

  abbrev pub filter_mcp_tool_names : List String → List String
  filter_mcp_tool_names tool_names = filter_from [] tool_names

  abbrev pub validate_normalized : Re → String → Fields → Option McpToolCallResult
  validate_normalized re name arguments =
      if not (is_dbx_tool_name name)
      then none
      else if not (is_allowed_dbx_readonly_tool name)
      then policy_error re name "This DBX MCP tool is outside OfferMaster's read-only allowlist."
      else if not (str_eq name "dbx.dbx_execute_query")
      then none
      else check_sql re name (get "sql" arguments)

  -- None lets the call through.
  unfoldable pub validate_dbx_tool_arguments : Re → String → Fields → Option McpToolCallResult
  validate_dbx_tool_arguments re tool_name arguments =
      validate_normalized re (lower (strip tool_name)) arguments

  -- `_allowed_tool_names` of MCPToolPolicy.from_allowlist
  abbrev drop_empty : List String → List String
  drop_empty [] = []
  drop_empty (name ∷ names) =
      let rest = drop_empty names in if is_empty (strip name) then rest else strip name ∷ rest

  unfoldable pub from_allowlist : List String → List String
  from_allowlist tool_names = filter_mcp_tool_names (dedupe (drop_empty tool_names))

  abbrev pub is_allowed : List String → String → Bool
  is_allowed allowed_tool_names tool_name = contains_tool allowed_tool_names (strip tool_name)

  abbrev last_action : String → String → String
  last_action action String.[] = action
  last_action action (String.◌∷◌ c s) = last_action (if code c == 46 then s else action) s

  abbrev underscored : String → String
  underscored String.[] = String.[]
  underscored (String.◌∷◌ c s) = String.◌∷◌ (if code c == 45 then "_" else c) (underscored s)

  -- `rsplit(".", 1)[-1]` is what follows the last point.
  abbrev pub requires_confirmation : String → Bool
  requires_confirmation tool_name =
      let normalized = underscored (lower (strip tool_name)) in
      contains_tool confirmed_tools normalized
      || contains_tool confirmed_tools (last_action normalized normalized)
