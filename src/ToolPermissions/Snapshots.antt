-- ===== src/ToolPermissions/Snapshots.antt =====
-- The policy that a run stores and reads back decides as the one it was made from.
use offer_master.Prelude.{
  ◌≡◌, refl, ap, ◌∙◌, str_eq, arith, String, Bool, Option, some, List, [], ◌∷◌, All, All-append,
  or_else,
}
use offer_master.Prelude.Json.{Json, null, bool, num, str, arr, obj, Fields, end, get}
use offer_master.ToolPermissions.{
  AgentToolPermissionPolicy, Gathered, nothing, dedupe, stripped, json_list, item_texts,
  metadata_list, gather, gather_one, from_loaded_skill_metadata, from_metadata_snapshot,
  to_metadata, decide,
}
use offer_master.ToolPermissions.Names.{
  IsName, dedupe-dedupe, stripped-names, stripped_names, dedupe_from-names,
}

decide_same :
    (p q : AgentToolPermissionPolicy) (tool_name : String) (user_confirmed : Bool)
    → p.allowed_tools ≡ q.allowed_tools
    → p.ask_tools ≡ q.ask_tools
    → p.disallowed_tools ≡ q.disallowed_tools
    → ((decide p tool_name user_confirmed).decision ≡ (decide q tool_name user_confirmed).decision)
      × ((decide p tool_name user_confirmed).reason ≡ (decide q tool_name user_confirmed).reason)
unfolding decide
decide_same p q tool_name user_confirmed e1 e2 e3 = ground (arith, e1, e2, e3)

module _ (repr : Json → String) where
  metadata_list-names : (value : Json) → All IsName (metadata_list repr value)
  metadata_list-names null = tt
  metadata_list-names (bool b) = dedupe_from-names [] _ (stripped-names _)
  metadata_list-names (num nonzero text) = dedupe_from-names [] _ (stripped-names _)
  metadata_list-names (str s) = dedupe_from-names [] _ (stripped-names _)
  metadata_list-names (arr items) = dedupe_from-names [] _ (stripped-names _)
  metadata_list-names (obj fields) = dedupe_from-names [] _ (stripped-names _)

  item_texts-json_list : (names : List String) → item_texts repr (json_list names) ≡ names
  item_texts-json_list [] = refl
  item_texts-json_list (name ∷ names) = ap (λ l. name ∷ l) (item_texts-json_list names)

  -- A list of names that was stored is read back.
  pub metadata_list-dedupe :
      (names : List String)
      → All IsName names
      → metadata_list repr (arr (json_list (dedupe names))) ≡ dedupe names
  metadata_list-dedupe names clean =
      ap (λ l. dedupe (stripped l)) (item_texts-json_list (dedupe names))
      ∙ ap dedupe (stripped_names (dedupe names) (dedupe_from-names [] names clean))
      ∙ dedupe-dedupe names

  abbrev GatheredNames : Gathered → Type 0
  GatheredNames g =
      All IsName g.allowed_tools × All IsName g.ask_tools × All IsName g.disallowed_tools

  gather-names :
      (g : Gathered) (loaded : List (String × Option Fields))
      → GatheredNames g
      → GatheredNames (gather repr g loaded)
  gather-names g [] clean = clean
  gather-names g ((skill_id, metadata) ∷ loaded) (allowed, asked, denied) =
      gather-names (gather_one repr g skill_id (or_else metadata end)) loaded (
        All-append IsName g.allowed_tools _ allowed (metadata_list-names _),
        All-append IsName g.ask_tools _ asked (metadata_list-names _),
        All-append IsName g.disallowed_tools _ denied (metadata_list-names _),
      )

  -- Storing the policy merged from any loaded skills and reading it back gives the same three lists
  -- of tools, and so for every tool the same decision and the same reason, confirmed or not.
  pub from_metadata_snapshot-to_metadata :
      (loaded : List (String × Option Fields)) (tool_name : String) (user_confirmed : Bool)
      → let policy = from_loaded_skill_metadata repr loaded in
        let restored = from_metadata_snapshot repr (some (to_metadata policy)) in
        (restored.allowed_tools ≡ policy.allowed_tools)
        × (restored.ask_tools ≡ policy.ask_tools)
        × (restored.disallowed_tools ≡ policy.disallowed_tools)
        × ((decide restored tool_name user_confirmed).decision
            ≡ (decide policy tool_name user_confirmed).decision)
        × ((decide restored tool_name user_confirmed).reason
            ≡ (decide policy tool_name user_confirmed).reason)
  unfolding get str_eq
  from_metadata_snapshot-to_metadata loaded tool_name user_confirmed =
      let policy = from_loaded_skill_metadata repr loaded in
      let restored = from_metadata_snapshot repr (some (to_metadata policy)) in
      let (allowed, asked, denied) = gather-names nothing loaded (tt, tt, tt) in
      let e1 : restored.allowed_tools ≡ policy.allowed_tools = metadata_list-dedupe _ allowed in
      let e2 : restored.ask_tools ≡ policy.ask_tools = metadata_list-dedupe _ asked in
      let e3 : restored.disallowed_tools ≡ policy.disallowed_tools =
        metadata_list-dedupe _ denied in
      let (decision, reason) = decide_same restored policy tool_name user_confirmed e1 e2 e3 in
      (e1, e2, e3, decision, reason)
