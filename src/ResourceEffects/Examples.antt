-- ===== src/ResourceEffects/Examples.antt =====
-- Tests of the recorded effects on one file that was created.
use offer_master.Prelude.{◌≡◌, refl, String, Option, some, str_eq, or_else}
use offer_master.Prelude.Text.{is_space, lstrip, rstrip, strip}
use offer_master.Prelude.Json.{Json, Fields, str, obj, end, field, get, lookup, insert}
use offer_master.Prelude.Int.{pos}
use offer_master.ResourceEffects.{
  normalize_effect, append_resource_effect_context, latest_resource_effect,
}
use offer_master.ResourceEffects.Latest.{latest_resource_effect-append_resource_effect_context}

abbrev no_text : Json → String
no_text value = ""

abbrev created_file : Json
created_file = obj (
    field "resource_type" (str "file ")
      (field "action" (str "created") (field "path" (str "cv.md") end)))

abbrev created_effect : Fields
created_effect = or_else (normalize_effect no_text created_file) end

abbrev before : Option Fields
before = some (field "session" (str "session-1") end)

abbrev after_create : Fields
after_create = or_else (append_resource_effect_context no_text before created_file (pos 20)) end

created_path :
    get "focus_path" (latest_resource_effect no_text (some after_create) "file" "" "created")
    ≡ str "cv.md"
unfolding append_resource_effect_context normalize_effect latest_resource_effect strip lstrip rstrip
    is_space get lookup insert str_eq
created_path = refl

latest_resource_effect-append_resource_effect_context_example :
    (latest_resource_effect no_text (some after_create) "file" "" "created" ≡ created_effect)
    × (get "active_resource" after_create ≡ obj created_effect)
unfolding append_resource_effect_context normalize_effect strip lstrip rstrip is_space get lookup
    insert str_eq
latest_resource_effect-append_resource_effect_context_example =
    latest_resource_effect-append_resource_effect_context no_text before created_file 20
      created_effect after_create "file" "" "created" refl refl refl
