-- ===== src/ResourceEffects.antt =====
-- apps/api/app/agent_runtime/context/resource_effects.py: what tools have done to which resource.
-- The effects from templates are left out. `repr` gives the text of a list or of a dict. None as a
-- result stands for the TypeError of a loop over a value that cannot be iterated.
pub mod Latest
mod Examples
use offer_master.Prelude.{
  ℕ, zero, suc, ◌-◌, String, Bool, true, false, ◌&&◌, ◌||◌, Option, none, some, List, [], ◌∷◌, ◌++◌,
  length, drop, str_eq, if◌then◌else◌, or_else,
}
use offer_master.Prelude.Text.{is_empty, strip}
use offer_master.Prelude.Json.{
  Json, null, bool, num, str, arr, obj, Items, nil, cons, Fields, end, field, get, lookup, insert,
  truthy, or_json, str_value,
}
use offer_master.Prelude.Int.{ℤ, pos, negsuc}

-- `[item for item in value if isinstance(item, dict)]` of a list
abbrev dicts : Items → List Fields
dicts nil = []
dicts (cons (obj fields) items) = fields ∷ dicts items
dicts (cons _ items) = dicts items

-- The same of `d.get(key, [])`: a text gives characters and a dict gives keys, which are no dicts.
abbrev iter_dicts : Option Json → Option (List Fields)
iter_dicts none = some []
iter_dicts (some (arr items)) = some (dicts items)
iter_dicts (some (str s)) = some []
iter_dicts (some (obj fields)) = some []
iter_dicts (some _) = none

abbrev pub dict_items : List Fields → Items
dict_items [] = nil
dict_items (fields ∷ rest) = cons (obj fields) (dict_items rest)

-- `items[-n:]`
abbrev pub last_items : ℤ → List Fields → List Fields
last_items (pos zero) items = items
last_items (pos (suc n)) items = drop (length items - suc n) items
last_items (negsuc n) items = drop (suc n) items

abbrev strings : (Json → String) → Items → Items
strings repr nil = nil
strings repr (cons v items) =
    let rest = strings repr items in
    if is_empty (strip (str_value repr (or_json v (str ""))))
    then rest
    else cons (str (strip (str_value repr v))) rest

abbrev string_list : (Json → String) → Json → Items
string_list repr (arr items) = strings repr items
string_list repr _ = nil

abbrev given_or_true : Option Json → Bool
given_or_true none = true
given_or_true (some v) = truthy v

module _ (repr : Json → String) where
  -- `str(effect.get(key) or default)`
  abbrev text_or : String → String → Fields → String
  text_or key default effect = str_value repr (or_json (get key effect) (str default))

  abbrev focus_of : Fields → String
  focus_of effect = strip (
      str_value repr (
        or_json
          (or_json (or_json (get "focus_path" effect) (get "target_path" effect))
            (get "path" effect))
          (str "")))

  abbrev normalized : Fields → String → String → Fields
  normalized effect resource_type action =
      field "source" (str (text_or "source" "resource_effects_v1" effect)) (
        field "resource_type" (str resource_type) (
          field "action" (str action) (
            field "operation" (str (strip (text_or "operation" "" effect))) (
              field "path" (str (strip (text_or "path" "" effect))) (
                field "source_path" (str (strip (text_or "source_path" "" effect))) (
                  field "target_path" (str (strip (text_or "target_path" "" effect))) (
                    field "focus_path" (str (focus_of effect)) (
                      field "focus_kind" (str (strip (text_or "focus_kind" "resource" effect))) (
                        field "display_name" (str (strip (text_or "display_name" "" effect))) (
                          field "aliases" (arr (string_list repr (get "aliases" effect))) (
                            field "completed" (bool (given_or_true (lookup "completed" effect)))
                              end)))))))))))

  -- None where the source gives the empty dict, which stands for no effect.
  abbrev normalize_dict : Fields → Option Fields
  normalize_dict effect =
      let resource_type = strip (text_or "resource_type" "" effect) in
      let action = strip (text_or "action" "" effect) in
      if is_empty resource_type || is_empty action
      then none
      else some (normalized effect resource_type action)

  unfoldable pub normalize_effect : Json → Option Fields
  normalize_effect (obj effect) = normalize_dict effect
  normalize_effect _ = none

  abbrev dict_or_empty : Json → Fields
  dict_or_empty (obj fields) = fields
  dict_or_empty _ = end

  abbrev artifact_context : Fields → Fields → List Fields → Fields
  artifact_context current effect created =
      insert "created_artifacts"
        (arr (
          dict_items (
            if str_eq (str_value repr (get "action" effect)) "created"
            then last_items (pos 20) (created ++ effect ∷ [])
            else created)))
        (insert "active_artifact" (obj effect) current)

  abbrev with_artifact : Fields → Fields → Fields → Option (List Fields) → Option Fields
  with_artifact metadata current effect none = none
  with_artifact metadata current effect (some created) =
      some (insert "artifact_context" (obj (artifact_context current effect created)) metadata)

  -- Only the effect on a file becomes the active artifact.
  abbrev pub file_artifact_context : Fields → Fields → Option Fields
  file_artifact_context metadata effect =
      if str_eq (str_value repr (get "resource_type" effect)) "file"
      then with_artifact metadata (dict_or_empty (get "artifact_context" metadata)) effect (
          iter_dicts (lookup "created_artifacts" (dict_or_empty (get "artifact_context" metadata))))
      else some metadata

  abbrev pub recorded : Fields → Fields → ℤ → List Fields → Fields
  recorded metadata effect max_effects existing = insert "active_resource" (obj effect) (
      insert "resource_effects"
        (arr (dict_items (last_items max_effects (existing ++ effect ∷ [])))) metadata)

  abbrev record_effect : Fields → Fields → ℤ → Option (List Fields) → Option Fields
  record_effect metadata effect max_effects none = none
  record_effect metadata effect max_effects (some existing) =
      file_artifact_context (recorded metadata effect max_effects existing) effect

  abbrev append_normalized : Fields → ℤ → Option Fields → Option Fields
  append_normalized metadata max_effects none = some metadata
  append_normalized metadata max_effects (some effect) =
      record_effect metadata effect max_effects (iter_dicts (lookup "resource_effects" metadata))

  unfoldable pub append_resource_effect_context : Option Fields → Json → ℤ → Option Fields
  append_resource_effect_context metadata effect max_effects =
      append_normalized (or_else metadata end) max_effects (normalize_effect effect)

  -- `wanted and str(effect.get(key) or "") != wanted`, negated
  abbrev matches_key : String → String → Fields → Bool
  matches_key key wanted effect = is_empty wanted || str_eq (text_or key "" effect) wanted

  abbrev pub matches : String → String → String → Fields → Bool
  matches resource_type operation action effect =
      matches_key "resource_type" resource_type effect
      && (matches_key "operation" operation effect && matches_key "action" action effect)

  abbrev later_or : Option Fields → Bool → Fields → Option Fields
  later_or (some effect) here fields = some effect
  later_or none here fields = if here then some fields else none

  -- The last dict of a list that passes, as the loop over the reversed list finds it.
  abbrev pub find_last : (Fields → Bool) → Items → Option Fields
  find_last test nil = none
  find_last test (cons (obj fields) items) = later_or (find_last test items) (test fields) fields
  find_last test (cons _ items) = find_last test items

  abbrev latest_of : (Fields → Bool) → Json → Fields
  latest_of test (arr items) = or_else (find_last test items) end
  latest_of test _ = end

  unfoldable pub latest_resource_effect : Option Fields → String → String → String → Fields
  latest_resource_effect none resource_type operation action = end
  latest_resource_effect (some metadata) resource_type operation action =
      latest_of (matches resource_type operation action) (get "resource_effects" metadata)
