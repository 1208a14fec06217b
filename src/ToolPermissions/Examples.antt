-- ===== src/ToolPermissions/Examples.antt =====
-- Tests of the tool policy on two loaded skills.
use offer_master.Prelude.{
  ◌≡◌, refl, ◌↔◌, String, true, false, ◌||◌, not, Option, some, List, [], ◌∷◌, Memᴰ, str_eq,
}
use offer_master.Prelude.Text.{is_space, lstrip, rstrip, strip, split_commas}
use offer_master.Prelude.Json.{Json, Fields, str, arr, cons, nil, end, field, get}
use offer_master.ToolPermissions.{
  AgentToolPermissionDecision, contains_tool, stripped, decide, from_loaded_skill_metadata,
  from_metadata_snapshot, to_metadata,
}
use offer_master.ToolPermissions.Decisions.{
  needs_user, decide_lem, from_loaded_skill_metadata-decide,
}
use offer_master.ToolPermissions.Snapshots.{from_metadata_snapshot-to_metadata}

abbrev no_text : Json → String
no_text value = ""

abbrev careful : Fields
careful =
    field "disallowed_tools" (str "shell.run, file.delete")
      (field "ask_tools" (arr (cons (str " mail.send ") nil)) end)

abbrev generous : Fields
generous = field "allowed_tools" (str "shell.run,mail.send,job.search") end

abbrev two_skills : List (String × Option Fields)
two_skills = ("careful", some careful) ∷ ("generous", some generous) ∷ []

merged_decision :
    (decide (from_loaded_skill_metadata no_text two_skills) " mail.send" false).decision
    ≡ AgentToolPermissionDecision.ask
unfolding decide strip lstrip rstrip is_space split_commas stripped get str_eq
merged_decision = refl

outside_decision :
    (decide (from_loaded_skill_metadata no_text two_skills) "file.read" false).decision
    ≡ AgentToolPermissionDecision.ask
unfolding decide strip lstrip rstrip is_space split_commas stripped get str_eq
outside_decision = refl

decide_lem_example :
    let p = from_loaded_skill_metadata no_text two_skills in
    (((decide p "shell.run" true).decision ≡ AgentToolPermissionDecision.deny)
      ↔ (contains_tool p.disallowed_tools (strip "shell.run") ≡ true))
    × (((decide p "shell.run" true).decision ≡ AgentToolPermissionDecision.ask) ↔ (
        (contains_tool p.disallowed_tools (strip "shell.run") ≡ false)
        × (needs_user p (strip "shell.run") ≡ true)
        × (true ≡ false)))
    × (((decide p "shell.run" true).decision ≡ AgentToolPermissionDecision.allow) ↔ (
        (contains_tool p.disallowed_tools (strip "shell.run") ≡ false)
        × ((not (needs_user p (strip "shell.run")) || true) ≡ true)))
decide_lem_example = decide_lem (from_loaded_skill_metadata no_text two_skills) "shell.run" true

from_loaded_skill_metadata-decide_example :
    (decide (from_loaded_skill_metadata no_text two_skills) "shell.run" true).decision
    ≡ AgentToolPermissionDecision.deny
unfolding decide strip lstrip rstrip is_space split_commas stripped get str_eq
from_loaded_skill_metadata-decide_example =
    from_loaded_skill_metadata-decide no_text two_skills "careful" (some careful) "shell.run" false
      true (Memᴰ.head refl) refl

from_metadata_snapshot-to_metadata_example :
    let policy = from_loaded_skill_metadata no_text two_skills in
    let restored = from_metadata_snapshot no_text (some (to_metadata policy)) in
    (restored.allowed_tools ≡ policy.allowed_tools)
    × (restored.ask_tools ≡ policy.ask_tools)
    × (restored.disallowed_tools ≡ policy.disallowed_tools)
    × ((decide restored "mail.send" false).decision ≡ (decide policy "mail.send" false).decision)
    × ((decide restored "mail.send" false).reason ≡ (decide policy "mail.send" false).reason)
from_metadata_snapshot-to_metadata_example =
    from_metadata_snapshot-to_metadata no_text two_skills "mail.send" false
