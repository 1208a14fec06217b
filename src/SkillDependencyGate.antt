-- ===== src/SkillDependencyGate.antt =====
-- apps/api/app/agent_runtime/memory/skill_dependency_gate.py: whether the tools that a skill
-- declares are there. The names of the registered tools and the text of the clock are given.
pub mod Availability
mod Examples
use offer_master.Prelude.{
  String, ◌<>◌, Bool, true, false, ◌&&◌, ◌||◌, not, Option, none, some, List, [], ◌∷◌, ◌++◌, str_eq,
  if◌then◌else◌, or_else,
}
use offer_master.Prelude.Text.{is_empty, strip, split_commas, after_prefix}
use offer_master.Prelude.Json.{
  Json, null, str, arr, Fields, end, field, get, insert, truthy, or_json, str_value,
}
use offer_master.ToolPermissions.{contains_tool, dedupe, stripped, item_texts, json_list, is_nil}

pub record SkillDependencyCheck : Type 0 where
  pub availability_state : String
  pub available_required_tools : List String
  pub missing_required_tools : List String
  pub missing_optional_tools : List String

-- `[tool for tool in tools if test(tool)]`
abbrev pub select : (String → Bool) → List String → List String
select test [] = []
select test (tool ∷ tools) = let rest = select test tools in if test tool then tool ∷ rest else rest

-- A list keeps its duplicates here, and a value that is no text and no list is one name.
abbrev pub tool_list : (Json → String) → Json → List String
tool_list repr null = []
tool_list repr (arr items) = stripped (item_texts repr items)
tool_list repr (str s) = stripped (split_commas s)
tool_list repr value = stripped (str_value repr value ∷ [])

abbrev has_unprefixed : List String → Option String → Bool
has_unprefixed tool_names none = false
has_unprefixed tool_names (some name) = contains_tool tool_names name

abbrev has_normalized : List String → String → Bool
has_normalized tool_names name =
    not (is_empty name)
    && (contains_tool tool_names name
        || (contains_tool tool_names ("mcp." <> name)
            || has_unprefixed tool_names (after_prefix "mcp." name)))

module _ (repr : Json → String) (tool_names : List String) where
  unfoldable pub has_tool : String → Bool
  has_tool tool_name = has_normalized tool_names (strip tool_name)

  abbrev pub required_tools : Fields → List String
  required_tools metadata = tool_list repr (get "required_tools" metadata)

  abbrev pub optional_tools : Fields → List String
  optional_tools metadata =
      select (λ tool. not (contains_tool (required_tools metadata) tool))
        (dedupe (
          tool_list repr (get "allowed_tools" metadata)
          ++ tool_list repr (get "ask_tools" metadata)))

  abbrev missing : List String → List String
  missing tools = select (λ tool. not (has_tool tool)) tools

  abbrev is_disabled : Fields → Bool
  is_disabled metadata =
      str_eq (str_value repr (or_json (get "availability_state" metadata) (str ""))) "disabled"

  abbrev state_of : Bool → List String → List String → List String → String
  state_of disabled required optional missing_optional =
      if disabled
      then "disabled"
      else if not (is_nil (missing required))
      then "unavailable"
      else if is_nil required && (not (is_nil optional) && not (is_nil missing_optional))
      then "partial"
      else "available"

  unfoldable pub evaluate : Fields → SkillDependencyCheck
  evaluate metadata =
      let required = required_tools metadata in
      let optional = optional_tools metadata in
      record {
        availability_state = state_of (is_disabled metadata) required optional (missing optional);
        available_required_tools = select has_tool required;
        missing_required_tools = missing required;
        missing_optional_tools = missing optional;
      }

  abbrev pub evaluate_metadata : Option Fields → SkillDependencyCheck
  evaluate_metadata metadata = evaluate (or_else metadata end)

  -- `{**current, **check.as_metadata()}`, where `now` is the text of the time of the check.
  abbrev pub decorated : Fields → SkillDependencyCheck → String → Fields
  decorated current check now = insert "tool_dependency_checked_at" (str now) (
      insert "missing_optional_tools" (arr (json_list check.missing_optional_tools)) (
        insert "missing_required_tools" (arr (json_list check.missing_required_tools)) (
          insert "available_required_tools" (arr (json_list check.available_required_tools)) (
            insert "tool_dependency_state" (str check.availability_state)
              (insert "availability_state" (str check.availability_state) current)))))

  abbrev pub decorate_metadata : Option Fields → String → Fields
  decorate_metadata metadata now =
      decorated (or_else metadata end) (evaluate (or_else metadata end)) now
