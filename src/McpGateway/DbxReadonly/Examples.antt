-- ===== src/McpGateway/DbxReadonly/Examples.antt =====
-- Tests of the read-only rules with the letters of ASCII.
use offer_master.Prelude.{
  ◌≡◌, refl, ◌+◌, String, Bool, true, false, ◌&&◌, ◌||◌, not, none, List, [], ◌∷◌, ◌++◌, ◌==◌, leb,
  map, str_eq, arith,
}
use Prim.Native.Char.{Char, code}
use offer_master.Prelude.Text.{is_empty, is_space, strip, lstrip, rstrip, after_prefix}
use offer_master.Prelude.Json.{get}
use offer_master.ToolPermissions.{contains_tool}
use offer_master.McpGateway.SqlText.{strip_sql, strip_loop, after_line, after_block}
use offer_master.McpGateway.SqlText.Rounds.{strip_loop_enough}
use offer_master.McpGateway.SqlText.Pieces.{
  Piece, plain, block_comment, write, erase, strip_sql-write,
}
use offer_master.McpGateway.DbxReadonly.{
  Re, is_dbx_tool_name, is_allowed_dbx_readonly_tool, filter_from, filter_mcp_tool_names,
  from_allowlist, starts_as_read, writes_or_locks, validate_dbx_tool_arguments,
}
use offer_master.McpGateway.DbxReadonly.Allowlist.{
  filter_mcp_tool_names_lem, from_allowlist-is_allowed,
}
use offer_master.McpGateway.DbxReadonly.Verdict.{
  lets_through, query, validate_dbx_tool_arguments-write,
}

-- The capital letters and the small ones, side by side.
abbrev small : Char → Char → Bool
small c d = code c == code d || (leb 65 (code d) && (leb (code d) 90 && code c == code d + 32))

abbrev ascii : Re
ascii = record {
  same_letter = small;
  is_word = λ c.
      (leb 48 (code c) && leb (code c) 57)
      || (leb 65 (code c) && leb (code c) 90)
      || code c == 95
      || (leb 97 (code c) && leb (code c) 122);
}

abbrev unchanged : String → String
unchanged s = s

abbrev letters : String → List Piece
letters String.[] = []
letters (String.◌∷◌ c s) = plain c ∷ letters s

abbrev harmless : List Piece
harmless = plain "s" ∷ plain "e" ∷ letters "lect 1 " ++ block_comment "page" ∷ []

abbrev executable : List Piece
executable = plain "s" ∷ plain "e" ∷ letters "lect 1 " ++ block_comment "! into outfile 'x'" ∷ []

write_refused :
    lets_through (
      validate_dbx_tool_arguments unchanged ascii "dbx.dbx_execute_query"
        (query "select 1; DROP table t"))
    ≡ false
unfolding validate_dbx_tool_arguments is_dbx_tool_name is_allowed_dbx_readonly_tool after_prefix
    strip lstrip rstrip is_space strip_sql strip_loop after_line after_block starts_as_read
    writes_or_locks get str_eq
write_refused = refl

read_allowed :
    lets_through (
      validate_dbx_tool_arguments unchanged ascii "dbx.dbx_execute_query"
        (query "Select ';drop' from t"))
    ≡ true
unfolding validate_dbx_tool_arguments is_dbx_tool_name is_allowed_dbx_readonly_tool after_prefix
    strip lstrip rstrip is_space strip_sql strip_loop after_line after_block starts_as_read
    writes_or_locks get str_eq
read_allowed = refl

-- MySQL runs what stands in such a comment.
executable_allowed :
    lets_through (
      validate_dbx_tool_arguments unchanged ascii "dbx.dbx_execute_query"
        (query (write executable)))
    ≡ true
unfolding validate_dbx_tool_arguments is_dbx_tool_name is_allowed_dbx_readonly_tool after_prefix
    strip lstrip rstrip is_space strip_sql strip_loop after_line after_block starts_as_read
    writes_or_locks get str_eq
executable_allowed = refl

strip_sql-write_example : strip_sql (write executable) ≡ erase executable
strip_sql-write_example = strip_sql-write executable (ground arith)

validate_dbx_tool_arguments-write_example :
    lets_through
      (validate_dbx_tool_arguments unchanged ascii "dbx.dbx_execute_query" (query (write harmless)))
    ≡ lets_through (
        validate_dbx_tool_arguments unchanged ascii "dbx.dbx_execute_query"
          (query (write executable)))
validate_dbx_tool_arguments-write_example =
    validate_dbx_tool_arguments-write ascii unchanged "dbx.dbx_execute_query" harmless executable
      (ground arith) (ground arith) refl

filter_mcp_tool_names_lem_example :
    contains_tool
      (filter_mcp_tool_names unchanged (" web.search" ∷ "dbx.dbx_drop" ∷ []))
      "dbx.dbx_drop"
    ≡ (contains_tool (map strip (" web.search" ∷ "dbx.dbx_drop" ∷ [])) "dbx.dbx_drop"
        && (not (is_empty "dbx.dbx_drop")
            && not (
                is_dbx_tool_name unchanged "dbx.dbx_drop"
                && not (is_allowed_dbx_readonly_tool unchanged "dbx.dbx_drop"))))
filter_mcp_tool_names_lem_example =
    filter_mcp_tool_names_lem unchanged "dbx.dbx_drop" (" web.search" ∷ "dbx.dbx_drop" ∷ [])

from_allowlist-is_allowed_example :
    is_allowed_dbx_readonly_tool unchanged (strip "dbx.dbx_list_tables") ≡ true
unfolding from_allowlist filter_from is_dbx_tool_name is_allowed_dbx_readonly_tool after_prefix
    strip lstrip rstrip is_space str_eq
from_allowlist-is_allowed_example =
    from_allowlist-is_allowed unchanged ("dbx.dbx_list_tables" ∷ "web.search" ∷ [])
      "dbx.dbx_list_tables" refl refl

strip_loop_enough_example : strip_loop 9 none "a # b" ≡ strip_loop 5 none "a # b"
strip_loop_enough_example = strip_loop_enough 9 5 none "a # b" (omega arith) (omega arith)
