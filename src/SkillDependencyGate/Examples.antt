-- ===== src/SkillDependencyGate/Examples.antt =====
-- Tests of the gate on one skill.
use offer_master.Prelude.{◌≡◌, refl, String, true, some, List, [], ◌∷◌, str_eq, ne_of_str_ne}
use offer_master.Prelude.Text.{is_space, lstrip, rstrip, strip, split_commas, after_prefix}
use offer_master.Prelude.Json.{Json, Fields, str, arr, cons, nil, end, field, get}
use offer_master.ToolPermissions.{stripped}
use offer_master.SkillDependencyGate.{has_tool, evaluate, evaluate_metadata, decorate_metadata}
use offer_master.SkillDependencyGate.Availability.{
  evaluate_metadata-available, evaluate_metadata-decorate_metadata,
}

abbrev no_text : Json → String
no_text value = ""

abbrev registered : List String
registered = "mcp.mail.send" ∷ "job.search" ∷ []

abbrev skill : Fields
skill =
    field "required_tools" (str "mail.send, job.search")
      (field "allowed_tools" (arr (cons (str "shell.run") nil)) end)

abbrev demanding : Fields
demanding = field "required_tools" (str "mail.send,shell.run") end

state_available :
    (evaluate_metadata no_text registered (some skill)).availability_state ≡ "available"
unfolding evaluate has_tool after_prefix strip lstrip rstrip is_space split_commas stripped get
    str_eq
state_available = refl

state_unavailable :
    (evaluate_metadata no_text registered (some demanding)).availability_state ≡ "unavailable"
unfolding evaluate has_tool after_prefix strip lstrip rstrip is_space split_commas stripped get
    str_eq
state_unavailable = refl

evaluate_metadata-available_example : has_tool no_text registered "mail.send" ≡ true
unfolding evaluate has_tool after_prefix strip lstrip rstrip is_space split_commas stripped get
    str_eq
evaluate_metadata-available_example =
    evaluate_metadata-available no_text registered (some skill) "mail.send"
      (ne_of_str_ne "available" "disabled" refl) (ne_of_str_ne "available" "unavailable" refl) refl

evaluate_metadata-decorate_metadata_example :
    evaluate_metadata no_text registered
      (some (decorate_metadata no_text registered (some demanding) "2026-01-01T00:00:00"))
    ≡ evaluate_metadata no_text registered (some demanding)
evaluate_metadata-decorate_metadata_example =
    evaluate_metadata-decorate_metadata no_text registered (some demanding) "2026-01-01T00:00:00"
