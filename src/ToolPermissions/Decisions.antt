-- ===== src/ToolPermissions/Decisions.antt =====
-- What a policy decides, and what a policy merged from several skills decides.
use offer_master.Prelude.{
  ◌≡◌, refl, ap, ◌∙◌, ◌↔◌, inl, inr, String, Bool, true, false, ◌&&◌, ◌||◌, not, Option, some, List,
  [], ◌∷◌, Memᴰ, Memᴰ-cons, or_else, arith,
}
use offer_master.Prelude.Text.{strip}
use offer_master.Prelude.Json.{Json, Fields, end, get}
use offer_master.ToolPermissions.{
  AgentToolPermissionDecision, AgentToolPermissionPolicy, Gathered, contains_tool, metadata_list,
  is_nil, gather, gather_one, from_skill_metadata, from_loaded_skill_metadata, decide,
}
use offer_master.ToolPermissions.Names.{contains-dedupe, contains-append}

-- A tool that needs the user: one of the tools to ask for, or one missing from a list of allowed
-- tools that is not empty.
abbrev pub needs_user : AgentToolPermissionPolicy → String → Bool
needs_user p tool =
    contains_tool p.ask_tools tool
    || (not (is_nil p.allowed_tools) && not (contains_tool p.allowed_tools tool))

-- A call is denied when and only when the policy disallows the tool, whether the user has
-- confirmed it or not; the user is asked when and only when the tool is not disallowed, needs the
-- user and is not confirmed; it is allowed when and only when the tool is not disallowed and is
-- confirmed or does not need the user. The tool's name is stripped first.
pub decide_lem :
    (p : AgentToolPermissionPolicy) (tool_name : String) (user_confirmed : Bool)
    → let tool = strip tool_name in
      (((decide p tool_name user_confirmed).decision ≡ AgentToolPermissionDecision.deny)
        ↔ (contains_tool p.disallowed_tools tool ≡ true))
      × (((decide p tool_name user_confirmed).decision ≡ AgentToolPermissionDecision.ask) ↔ (
          (contains_tool p.disallowed_tools tool ≡ false)
          × (needs_user p tool ≡ true)
          × (user_confirmed ≡ false)))
      × (((decide p tool_name user_confirmed).decision ≡ AgentToolPermissionDecision.allow) ↔ (
          (contains_tool p.disallowed_tools tool ≡ false)
          × ((not (needs_user p tool) || user_confirmed) ≡ true)))
unfolding decide
decide_lem p tool_name user_confirmed = ground arith

module _ (repr : Json → String) where
  gather_disallowed :
      (tool : String) (g : Gathered) (loaded : List (String × Option Fields))
      → contains_tool g.disallowed_tools tool ≡ true
      → contains_tool (gather repr g loaded).disallowed_tools tool ≡ true
  gather_disallowed tool g [] held = held
  gather_disallowed tool g ((skill_id, metadata) ∷ loaded) held =
      gather_disallowed tool (gather_one repr g skill_id (or_else metadata end)) loaded (
        contains-append tool g.disallowed_tools
          (metadata_list repr (get "disallowed_tools" (or_else metadata end)))
        ∙ rw held refl)

  gather_member :
      (tool skill_id : String) (metadata : Option Fields) (g : Gathered)
      (loaded : List (String × Option Fields))
      → Memᴰ (skill_id, metadata) loaded
      → contains_tool (from_skill_metadata repr (some skill_id) metadata).disallowed_tools tool
        ≡ true
      → contains_tool (gather repr g loaded).disallowed_tools tool ≡ true
  gather_member tool skill_id metadata g [] at held = elim at [ ]
  gather_member tool skill_id metadata g ((other_id, other) ∷ loaded) at held =
      elim (Memᴰ-cons at) [
        | inl here ↦
            gather_disallowed tool (gather_one repr g other_id (or_else other end)) loaded (
              contains-append tool g.disallowed_tools
                (metadata_list repr (get "disallowed_tools" (or_else other end)))
              ∙ ground (
                arith,
                ap
                    (λ (pair : String × Option Fields).
                      contains_tool
                        (metadata_list repr (get "disallowed_tools" (or_else pair.1 end))) tool)
                    here,
                held,
              ))
        | inr later ↦
            gather_member tool skill_id metadata (gather_one repr g other_id (or_else other end))
              loaded later held
      ]

  -- A tool that the policy of one loaded skill denies is denied by the policy merged from all
  -- loaded skills, whatever the others allow and whether or not the user confirms the call.
  pub from_loaded_skill_metadata-decide :
      (loaded : List (String × Option Fields)) (skill_id : String) (metadata : Option Fields)
      (tool_name : String) (confirmed user_confirmed : Bool)
      → Memᴰ (skill_id, metadata) loaded
      → (decide (from_skill_metadata repr (some skill_id) metadata) tool_name confirmed).decision
        ≡ AgentToolPermissionDecision.deny
      → (decide (from_loaded_skill_metadata repr loaded) tool_name user_confirmed).decision
        ≡ AgentToolPermissionDecision.deny
  from_loaded_skill_metadata-decide loaded skill_id metadata tool_name confirmed user_confirmed at
        denied =
      let held =
        (decide_lem (from_skill_metadata repr (some skill_id) metadata) tool_name confirmed).0.0
          denied in
      (decide_lem (from_loaded_skill_metadata repr loaded) tool_name user_confirmed).0.1 (
        contains-dedupe (strip tool_name) _
        ∙ gather_member (strip tool_name) skill_id metadata _ loaded at held)
