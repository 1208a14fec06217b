-- ===== src/SkillDependencyGate/Availability.antt =====
-- What the state of a skill says of its tools, and that checking a checked skill changes nothing.
use offer_master.Prelude.{
  ◌≡◌, refl, ap, ◌∙◌, ◌≢◌, inl, inr, String, Bool, true, false, ◌&&◌, not, Option, some, List, [],
  ◌∷◌, str_eq, str_eq_iff, Bool-cases, arith, or_else,
}
use offer_master.Prelude.Json.{
  Json, str, Fields, end, get, insert, get-insert, get-insert_other, or_json, str_value,
}
use offer_master.ToolPermissions.{contains_tool, is_nil}
use offer_master.SkillDependencyGate.{
  SkillDependencyCheck, select, has_tool, required_tools, missing, is_disabled, state_of, evaluate,
  evaluate_metadata, decorated, decorate_metadata,
}

contains-select :
    (test : String → Bool) (tool : String) (tools : List String)
    → contains_tool (select test tools) tool ≡ (contains_tool tools tool && test tool)
contains-select test tool [] = refl
contains-select test tool (x ∷ tools) = elim (Bool-cases (str_eq x tool)) [
  | inl same ↦
      ground (arith, same, ap test ((str_eq_iff x tool).0 same), contains-select test tool tools)
  | inr other ↦ ground (arith, other, contains-select test tool tools)
]

none_contained :
    (tools : List String) (tool : String) → is_nil tools ≡ true → contains_tool tools tool ≡ false
none_contained [] tool empty = refl
none_contained (x ∷ tools) tool empty = cc

module _ (repr : Json → String) (tool_names : List String) where
  missing_tool :
      (metadata : Fields) (tool : String)
      → contains_tool (required_tools repr tool_names metadata) tool ≡ true
      → is_nil (evaluate repr tool_names metadata).missing_required_tools ≡ true
      → has_tool repr tool_names tool ≡ true
  unfolding evaluate
  missing_tool metadata tool required complete = ground (
    arith,
    none_contained (missing repr tool_names (required_tools repr tool_names metadata)) tool
        complete,
    contains-select (λ tool. not (has_tool repr tool_names tool)) tool
        (required_tools repr tool_names metadata),
    required,
  )

  -- A skill whose state is neither disabled nor unavailable has every tool that it requires, under
  -- its name or under the name with or without the prefix of the tool servers.
  pub evaluate_metadata-available :
      (metadata : Option Fields) (tool : String)
      → let check = evaluate_metadata repr tool_names metadata in
        check.availability_state ≢ "disabled"
        → check.availability_state ≢ "unavailable"
        → contains_tool (required_tools repr tool_names (or_else metadata end)) tool ≡ true
        → has_tool repr tool_names tool ≡ true
  unfolding evaluate
  evaluate_metadata-available metadata tool enabled possible required =
      elim (Bool-cases (is_disabled repr tool_names (or_else metadata end))) [
        | inl disabled ↦ absurd (enabled (rw disabled refl))
        | inr going ↦
            elim (Bool-cases (
              is_nil (
                missing repr tool_names (required_tools repr tool_names (or_else metadata end))))) [
                  | inl complete ↦ missing_tool (or_else metadata end) tool required complete
                  | inr lacking ↦ absurd (possible (rw (going, lacking) refl))
                ]
      ]

  still_there :
      (key now : String) (metadata : Fields) (check : SkillDependencyCheck)
      → str_eq "tool_dependency_checked_at" key ≡ false
      → str_eq "missing_optional_tools" key ≡ false
      → str_eq "missing_required_tools" key ≡ false
      → str_eq "available_required_tools" key ≡ false
      → str_eq "tool_dependency_state" key ≡ false
      → get key (decorated repr tool_names metadata check now)
        ≡ get key (insert "availability_state" (str check.availability_state) metadata)
  still_there key now metadata check n1 n2 n3 n4 n5 =
      get-insert_other key "tool_dependency_checked_at" _ _ n1
      ∙ get-insert_other key "missing_optional_tools" _ _ n2
      ∙ get-insert_other key "missing_required_tools" _ _ n3
      ∙ get-insert_other key "available_required_tools" _ _ n4
      ∙ get-insert_other key "tool_dependency_state" _ _ n5

  abbrev reads_disabled : Json → Bool
  reads_disabled value = str_eq (str_value repr (or_json value (str ""))) "disabled"

  state_of-disabled :
      (disabled : Bool) (required optional missing_optional : List String)
      → reads_disabled (str (state_of repr tool_names disabled required optional missing_optional))
        ≡ disabled
  unfolding str_eq
  state_of-disabled true required optional missing_optional = refl
  state_of-disabled false required optional missing_optional =
      elim (Bool-cases (is_nil (missing repr tool_names required))) [
        | inl complete ↦
            rw complete
              (elim (Bool-cases
                (is_nil required && (not (is_nil optional) && not (is_nil missing_optional)))) [
                  | inl partial ↦ rw partial refl
                  | inr full ↦ rw full refl
                ])
        | inr lacking ↦ rw lacking refl
      ]

  -- The check of a skill's metadata that already carry the result of a check, made with the same
  -- registered tools at any time, is that result: a disabled skill stays disabled, and no other
  -- state that was written is mistaken for it.
  pub evaluate_metadata-decorate_metadata :
      (metadata : Option Fields) (now : String)
      → evaluate_metadata repr tool_names (some (decorate_metadata repr tool_names metadata now))
        ≡ evaluate_metadata repr tool_names metadata
  unfolding evaluate str_eq
  evaluate_metadata-decorate_metadata metadata now =
      let current = or_else metadata end in
      let check = evaluate repr tool_names current in
      let after = decorated repr tool_names current check now in
      let required : get "required_tools" after ≡ get "required_tools" current =
        still_there "required_tools" now current check refl refl refl refl refl
        ∙ get-insert_other "required_tools" "availability_state" _ current refl in
      let allowed : get "allowed_tools" after ≡ get "allowed_tools" current =
        still_there "allowed_tools" now current check refl refl refl refl refl
        ∙ get-insert_other "allowed_tools" "availability_state" _ current refl in
      let asked : get "ask_tools" after ≡ get "ask_tools" current =
        still_there "ask_tools" now current check refl refl refl refl refl
        ∙ get-insert_other "ask_tools" "availability_state" _ current refl in
      let disabled : is_disabled repr tool_names after ≡ is_disabled repr tool_names current =
        ap reads_disabled (
          still_there "availability_state" now current check refl refl refl refl refl
          ∙ get-insert "availability_state" (str check.availability_state) current)
        ∙ state_of-disabled (is_disabled repr tool_names current) _ _ _ in
      rw (required, allowed, asked, disabled) refl
