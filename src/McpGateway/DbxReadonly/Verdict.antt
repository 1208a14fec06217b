-- ===== src/McpGateway/DbxReadonly/Verdict.antt =====
-- What the verdict on a query depends on.
use offer_master.Prelude.{
  ℕ, zero, suc, ◌≡◌, refl, sym, ap, ◌∙◌, inl, inr, String, Bool, true, false, ◌&&◌, not, Option,
  none, some, List, str_eq, Bool-cases, arith,
}
use Prim.Native.Char.{Char, code}
use offer_master.Prelude.Text.{is_empty, is_space, strip, lstrip, rstrip, rstrip_cons}
use offer_master.Prelude.Json.{Fields, str, field, end, get}
use offer_master.McpGateway.SqlText.{strip_sql, strip_loop, text_length, in_code}
use offer_master.McpGateway.SqlText.Pieces.{Piece, write, erase, IsSql, strip_sql-write}
use offer_master.McpGateway.DbxReadonly.{
  Re, McpToolCallResult, starts_as_read, writes_or_locks, has_char, check_sql, validate_normalized,
  validate_dbx_tool_arguments,
}

abbrev all_space : String → Bool
all_space String.[] = true
all_space (String.◌∷◌ c s) = is_space (code c) && all_space s

not_blank : (c : Char) (s : String) → is_space (code c) ≡ false → is_empty (rstrip_cons c s) ≡ false
not_blank c String.[] char = rw char refl
not_blank c (String.◌∷◌ d s) char = refl

blank_all_space : (s : String) → is_empty (strip s) ≡ true → all_space s ≡ true
unfolding strip lstrip rstrip
blank_all_space String.[] blank = refl
blank_all_space (String.◌∷◌ c s) blank = elim (Bool-cases (is_space (code c))) [
  | inl space ↦ rw space (blank_all_space s (simp space at blank))
  | inr char ↦ cc (not_blank c (rstrip s) char, simp char at blank)
]

all_space_blank : (s : String) → all_space s ≡ true → is_empty (strip s) ≡ true
unfolding strip lstrip rstrip
all_space_blank String.[] spaces = refl
all_space_blank (String.◌∷◌ c s) spaces = elim (Bool-cases (is_space (code c))) [
  | inl space ↦ rw space (all_space_blank s (simp space at spaces))
  | inr char ↦ cc (simp char at spaces)
]

blank_round : (c : Char) (s : String) → is_space (code c) ≡ true → in_code c s ≡ (some c, none, s)
unfolding is_space
blank_round c s space = ground (arith, space)

blank_loop :
    (s : String) (fuel : ℕ) → all_space s ≡ true → all_space (strip_loop fuel none s) ≡ true
unfolding strip_loop
blank_loop s zero spaces = refl
blank_loop String.[] (suc fuel) spaces = refl
blank_loop (String.◌∷◌ c s) (suc fuel) spaces = elim (Bool-cases (is_space (code c))) [
  | inl space ↦ rw (blank_round c s space, space) (blank_loop s fuel (simp space at spaces))
  | inr char ↦ cc (simp char at spaces)
]

-- Of a blank query only blanks are left.
blank_sql : (sql : String) → is_empty (strip sql) ≡ true → is_empty (strip (strip_sql sql)) ≡ true
unfolding strip_sql
blank_sql sql blank =
    all_space_blank (strip_sql sql) (blank_loop sql (text_length sql) (blank_all_space sql blank))

abbrev pub lets_through : Option McpToolCallResult → Bool
lets_through none = true
lets_through (some error) = false

-- The arguments of a call that runs a query.
abbrev pub query : String → Fields
query sql = field "sql" (str sql) end

module _ (re : Re) where
  -- What a query has to be once comments and literals are stripped.
  abbrev pub is_read_only : String → Bool
  is_read_only sql =
      not (has_char re 59 sql) && (starts_as_read re sql && not (writes_or_locks re sql))

  nothing_starts : (s : String) → is_empty s ≡ true → is_read_only s ≡ false
  unfolding starts_as_read
  nothing_starts String.[] empty = refl
  nothing_starts (String.◌∷◌ c s) empty = cc

  check_sql_lem :
      (tool_name sql : String)
      → lets_through (check_sql re tool_name (str sql)) ≡ is_read_only (strip (strip_sql sql))
  check_sql_lem tool_name sql = elim (Bool-cases (is_empty (strip sql))) [
    | inl blank ↦ rw blank (sym (nothing_starts (strip (strip_sql sql)) (blank_sql sql blank)))
    | inr full ↦ rw full (ground arith)
  ]

  module _ (lower : String → String) where
    same_verdict :
        (name sql other : String)
        → lets_through (check_sql re name (str sql)) ≡ lets_through (check_sql re name (str other))
        → lets_through (validate_normalized lower re name (query sql))
          ≡ lets_through (validate_normalized lower re name (query other))
    unfolding get str_eq
    same_verdict name sql other same = ground (arith, same)

    -- Two queries that have the same characters left where comments and literals are replaced by
    -- blanks, whatever those hold, are both let through or both refused, for any tool.
    pub validate_dbx_tool_arguments-write :
        (tool_name : String) (pieces others : List Piece)
        → IsSql pieces
        → IsSql others
        → erase pieces ≡ erase others
        → lets_through (validate_dbx_tool_arguments lower re tool_name (query (write pieces)))
          ≡ lets_through (validate_dbx_tool_arguments lower re tool_name (query (write others)))
    unfolding validate_dbx_tool_arguments
    validate_dbx_tool_arguments-write tool_name pieces others ok other_ok same =
        let name = lower (strip tool_name) in
        same_verdict name (write pieces) (write others) (
          check_sql_lem name (write pieces)
          ∙ ap (λ (s : String). is_read_only (strip s))
              (strip_sql-write pieces ok ∙ same ∙ sym (strip_sql-write others other_ok))
          ∙ sym (check_sql_lem name (write others)))
