-- ===== src/LoopAgent/DeadLoopDetector.antt =====
-- loop_agent/dead_loop_detector.py: repeated tool calls are told by their keys.
use offer_master.Prelude.{
  ℕ, suc, ◌+◌, max, String, Option, none, some, List, [], ◌∷◌, str_eq, ltb, if◌then◌else◌,
}
use offer_master.Prelude.Text.{show}
use offer_master.Prelude.Json.{obj, str, num, Fields, field, end, opt_str}
use offer_master.Prelude.JsonText.{dumps}
use offer_master.Prelude.Int.{ℤ, pos_part}
use offer_master.LoopAgent.Schemas.{LoopAgentAction, LoopAgentDecision, action_value}

pub record ToolLoopIntervention : Type 0 where
  pub detector : String
  pub action_key : String
  pub count : ℕ
  pub reason : String

abbrev pub intervention_metadata : ToolLoopIntervention → Fields
intervention_metadata i = field "detector" (str i.detector) (
    field "action_key" (str i.action_key)
      (field "count" (num (ltb 0 i.count) (show i.count)) (field "reason" (str i.reason) end)))

-- `DeadLoopDetector(max_repeated_calls=n)` keeps `max(1, n)`.
abbrev pub max_repeated_calls : ℤ → ℕ
max_repeated_calls n = max 1 (pos_part n)

-- The key of an action, a capability and an input: explanations do not enter it.
unfoldable pub key_of : LoopAgentAction → Option String → Fields → String
key_of action capability tool_input = dumps "," ":" (
    obj (
      field "action" (str (action_value action))
        (field "capability" (opt_str capability) (field "tool_input" (obj tool_input) end))))

abbrev pub action_key : LoopAgentDecision → String
action_key d = key_of d.action d.capability d.tool_input

-- `keys.count(key)`
abbrev pub count : String → List String → ℕ
count key [] = 0
count key (k ∷ keys) = let rest = count key keys in if str_eq k key then suc rest else rest

abbrev intervene : ℕ → String → ℕ → Option ToolLoopIntervention
intervene limit key previous =
    if ltb previous limit
    then none
    else some (record {
      detector = "dead_loop_detector";
      action_key = key;
      count = previous + 1;
      reason = "检测到重复工具调用：同一个能力和同一组参数已经连续/反复执行，当前轮次需要重规划或向用户确认。";
    })

-- Only tool calls are looked at.
abbrev intervene_on :
    LoopAgentAction → ℕ → LoopAgentDecision → List String → Option ToolLoopIntervention
intervene_on LoopAgentAction.call_tool limit d previous =
    intervene limit (action_key d) (count (action_key d) previous)
intervene_on _ limit d previous = none

unfoldable pub intervention_for : ℕ → LoopAgentDecision → List String → Option ToolLoopIntervention
intervention_for limit d previous = intervene_on d.action limit d previous
