-- ===== src/McpGateway/DbxReadonly/Allowlist.antt =====
-- Which tool names pass the filter, and so the policy made from an allowlist.
use offer_master.Prelude.{
  ◌≡◌, ap, ◌∙◌, inl, inr, String, true, ◌&&◌, ◌||◌, not, List, [], ◌∷◌, ◌++◌, map, str_eq,
  str_eq_iff, if◌then◌else◌, Bool-cases, arith,
}
use offer_master.Prelude.Text.{is_empty, strip}
use offer_master.ToolPermissions.{contains_tool, dedupe}
use offer_master.ToolPermissions.Names.{contains-append}
use offer_master.McpGateway.DbxReadonly.{
  is_dbx_tool_name, is_allowed_dbx_readonly_tool, is_passed_over, filter_from,
  filter_mcp_tool_names, drop_empty, from_allowlist, is_allowed,
}

contains_same :
    (n k : String) (names : List String)
    → str_eq n k ≡ true
    → contains_tool names n ≡ contains_tool names k
contains_same n k names same = ap (contains_tool names) ((str_eq_iff n k).0 same)

module _ (lower : String → String) where
  passed_same : (n k : String) → str_eq n k ≡ true → is_passed_over lower n ≡ is_passed_over lower k
  passed_same n k same = ap (is_passed_over lower) ((str_eq_iff n k).0 same)

  contains-filter_from :
      (k : String) (filtered tool_names : List String)
      → contains_tool (filter_from lower filtered tool_names) k ≡ (
          contains_tool filtered k
          || (contains_tool (map strip tool_names) k && not (is_passed_over lower k)))
  unfolding filter_from
  contains-filter_from k filtered [] = ground arith
  contains-filter_from k filtered (raw ∷ tool_names) =
      contains-filter_from k
        (if is_passed_over lower (strip raw) || contains_tool filtered (strip raw)
          then filtered
          else filtered ++ strip raw ∷ [])
        tool_names
      ∙ elim (Bool-cases (is_passed_over lower (strip raw) || contains_tool filtered (strip raw))) [
        | inl skip ↦
            rw skip (
              ground (arith, skip, passed_same (strip raw) k, contains_same (strip raw) k filtered))
        | inr take ↦
            rw (take, contains-append k filtered (strip raw ∷ []))
              (ground
                (arith, take, passed_same (strip raw) k, contains_same (strip raw) k filtered))
      ]

  -- A name is in the filtered list exactly when it is one of the given names, stripped, is not
  -- empty, and is no DBX tool outside the read-only tools.
  pub filter_mcp_tool_names_lem :
      (name : String) (tool_names : List String)
      → contains_tool (filter_mcp_tool_names lower tool_names) name ≡ (
          contains_tool (map strip tool_names) name
          && (not (is_empty name)
              && not
                  (is_dbx_tool_name lower name && not (is_allowed_dbx_readonly_tool lower name))))
  filter_mcp_tool_names_lem name tool_names = contains-filter_from name [] tool_names ∙ ground arith

  -- Whatever the configured allowlist names, a DBX tool that the policy made from it allows is one
  -- of the read-only tools.
  pub from_allowlist-is_allowed :
      (tool_names : List String) (tool_name : String)
      → is_allowed lower (from_allowlist lower tool_names) tool_name ≡ true
      → is_dbx_tool_name lower (strip tool_name) ≡ true
      → is_allowed_dbx_readonly_tool lower (strip tool_name) ≡ true
  unfolding from_allowlist
  from_allowlist-is_allowed tool_names tool_name allowed dbx = ground (
    arith,
    allowed,
    dbx,
    filter_mcp_tool_names_lem (strip tool_name) (dedupe (drop_empty lower tool_names)),
  )
