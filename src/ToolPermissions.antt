-- ===== src/ToolPermissions.antt =====
-- apps/api/app/agent_runtime/tool_permissions.py: which tools the loaded skills let an agent call.
-- `repr` gives the text of a list or of a dict.
pub mod Names
pub mod Decisions
pub mod Snapshots
mod Examples
use offer_master.Prelude.{
  ℕ, String, ◌<>◌, Bool, true, false, ◌&&◌, ◌||◌, not, Option, none, some, List, [], ◌∷◌, ◌++◌,
  str_eq, if◌then◌else◌, or_else,
}
use offer_master.Prelude.Text.{is_empty, strip, split_commas}
use offer_master.Prelude.Json.{
  Json, null, str, arr, Items, nil, cons, Fields, end, field, get, truthy, str_value, opt_str,
}

pub data AgentToolPermissionDecision : Type 0 where
  allow ask deny : AgentToolPermissionDecision

abbrev pub decision_value : AgentToolPermissionDecision → String
decision_value allow = "allow"
decision_value ask = "ask"
decision_value deny = "deny"

pub record AgentToolPermissionResult : Type 0 where
  pub decision : AgentToolPermissionDecision
  pub reason : String
  pub skill_id : Option String
  pub skill_ids : List String
  pub allowed_tools : List String
  pub ask_tools : List String
  pub disallowed_tools : List String

pub record AgentToolPermissionPolicy : Type 0 where
  pub skill_id : Option String
  pub skill_ids : List String
  pub allowed_tools : List String
  pub ask_tools : List String
  pub disallowed_tools : List String

-- `tool_name in tool_names`
abbrev pub contains_tool : List String → String → Bool
contains_tool [] tool_name = false
contains_tool (name ∷ tool_names) tool_name =
    str_eq name tool_name || contains_tool tool_names tool_name

-- The first occurrence of each item, given the items seen before.
abbrev pub dedupe_from : List String → List String → List String
dedupe_from seen [] = []
dedupe_from seen (item ∷ items) =
    if contains_tool seen item
    then dedupe_from seen items
    else item ∷ dedupe_from (item ∷ seen) items

abbrev pub dedupe : List String → List String
dedupe items = dedupe_from [] items

-- `item.strip() for item in items if item.strip()`
unfoldable pub stripped : List String → List String
stripped [] = []
stripped (item ∷ items) =
    let rest = stripped items in if is_empty (strip item) then rest else strip item ∷ rest

abbrev pub json_list : List String → Items
json_list [] = nil
json_list (s ∷ items) = cons (str s) (json_list items)

abbrev pub item_texts : (Json → String) → Items → List String
item_texts repr nil = []
item_texts repr (cons v items) = str_value repr v ∷ item_texts repr items

abbrev pub metadata_list : (Json → String) → Json → List String
metadata_list repr null = []
metadata_list repr (arr items) = dedupe (stripped (item_texts repr items))
metadata_list repr value = dedupe (stripped (split_commas (str_value repr value)))

abbrev the_only : List String → Option String
the_only (s ∷ []) = some s
the_only _ = none

-- What the loop over the loaded skills has gathered.
pub record Gathered : Type 0 where
  pub skill_ids : List String
  pub allowed_tools : List String
  pub ask_tools : List String
  pub disallowed_tools : List String

abbrev pub nothing : Gathered
nothing = record { skill_ids = []; allowed_tools = []; ask_tools = []; disallowed_tools = [] }

abbrev pub error_details : AgentToolPermissionResult → Fields
error_details r = field "skill_id" (opt_str r.skill_id) (
    field "skill_ids" (arr (json_list r.skill_ids)) (
      field "permission_decision" (str (decision_value r.decision)) (
        field "allowed_tools" (arr (json_list r.allowed_tools)) (
          field "ask_tools" (arr (json_list r.ask_tools))
            (field "disallowed_tools" (arr (json_list r.disallowed_tools)) end)))))

module _ (repr : Json → String) where
  abbrev pub from_skill_metadata : Option String → Option Fields → AgentToolPermissionPolicy
  from_skill_metadata skill_id metadata =
      let metadata = or_else metadata end in
      record {
        skill_id = skill_id;
        skill_ids = elim skill_id [ none ↦ [] | some s ↦ if is_empty s then [] else s ∷ [] ];
        allowed_tools = metadata_list repr (get "allowed_tools" metadata);
        ask_tools = metadata_list repr (get "ask_tools" metadata);
        disallowed_tools = metadata_list repr (get "disallowed_tools" metadata);
      }

  abbrev gather_one : Gathered → String → Fields → Gathered
  gather_one g skill_id metadata = record {
    skill_ids = if is_empty skill_id then g.skill_ids else g.skill_ids ++ skill_id ∷ [];
    allowed_tools = g.allowed_tools ++ metadata_list repr (get "allowed_tools" metadata);
    ask_tools = g.ask_tools ++ metadata_list repr (get "ask_tools" metadata);
    disallowed_tools = g.disallowed_tools ++ metadata_list repr (get "disallowed_tools" metadata);
  }

  abbrev pub gather : Gathered → List (String × Option Fields) → Gathered
  gather g [] = g
  gather g ((skill_id, metadata) ∷ loaded_skills) =
      gather (gather_one g skill_id (or_else metadata end)) loaded_skills

  abbrev pub policy_of : Gathered → AgentToolPermissionPolicy
  policy_of g = record {
    skill_id = the_only g.skill_ids;
    skill_ids = dedupe g.skill_ids;
    allowed_tools = dedupe g.allowed_tools;
    ask_tools = dedupe g.ask_tools;
    disallowed_tools = dedupe g.disallowed_tools;
  }

  abbrev pub from_loaded_skill_metadata : List (String × Option Fields) → AgentToolPermissionPolicy
  from_loaded_skill_metadata loaded_skills = policy_of (gather nothing loaded_skills)

  -- `str(metadata.get("skill_id") or "").strip() or ...`
  abbrev snapshot_skill_id : Json → List String → Option String
  snapshot_skill_id value skill_ids =
      let text = strip (if truthy value then str_value repr value else "") in
      if is_empty text then the_only skill_ids else some text

  abbrev pub from_metadata_snapshot : Option Fields → AgentToolPermissionPolicy
  from_metadata_snapshot metadata =
      let metadata = or_else metadata end in
      let skill_ids = metadata_list repr (get "skill_ids" metadata) in
      record {
        skill_id = snapshot_skill_id (get "skill_id" metadata) skill_ids;
        skill_ids = skill_ids;
        allowed_tools = metadata_list repr (get "allowed_tools" metadata);
        ask_tools = metadata_list repr (get "ask_tools" metadata);
        disallowed_tools = metadata_list repr (get "disallowed_tools" metadata);
      }

abbrev pub to_metadata : AgentToolPermissionPolicy → Fields
to_metadata p = field "policy_source" (str "loaded_skill_snapshot") (
    field "skill_id" (opt_str p.skill_id) (
      field "skill_ids" (arr (json_list p.skill_ids)) (
        field "allowed_tools" (arr (json_list p.allowed_tools)) (
          field "ask_tools" (arr (json_list p.ask_tools))
            (field "disallowed_tools" (arr (json_list p.disallowed_tools)) end)))))

abbrev result :
    AgentToolPermissionPolicy → AgentToolPermissionDecision → String → AgentToolPermissionResult
result p decision reason = record {
  decision = decision;
  reason = reason;
  skill_id = p.skill_id;
  skill_ids = p.skill_ids;
  allowed_tools = p.allowed_tools;
  ask_tools = p.ask_tools;
  disallowed_tools = p.disallowed_tools;
}

abbrev pub is_nil : List String → Bool
is_nil [] = true
is_nil (_ ∷ _) = false

abbrev decide_normalized : AgentToolPermissionPolicy → String → Bool → AgentToolPermissionResult
decide_normalized p tool user_confirmed =
    if contains_tool p.disallowed_tools tool
    then result p deny ("Tool " <> (tool <> " is denied by the active Skill disallowed_tools."))
    else if contains_tool p.ask_tools tool
    then if user_confirmed
      then result p allow
          ("Tool " <> (tool <> " was confirmed by the user for the active Skill ask_tools."))
      else result p ask
          ("Tool " <> (tool <> " requires user confirmation by the active Skill ask_tools."))
    else if not (is_nil p.allowed_tools) && not (contains_tool p.allowed_tools tool)
    then if user_confirmed
      then result p allow (
          "Tool "
          <> (tool
              <> " was confirmed by the user although it is not declared in the active Skill allowed_tools."))
      else result p ask ("Tool " <> (tool <> " is not declared in the active Skill allowed_tools."))
    else result p allow ("Tool " <> (tool <> " is allowed by Skill policy."))

unfoldable pub decide : AgentToolPermissionPolicy → String → Bool → AgentToolPermissionResult
decide p tool_name user_confirmed = decide_normalized p (strip tool_name) user_confirmed
