-- ===== src/PendingOperations.antt =====
-- apps/api/app/agent_runtime/pending_operations.py: an operation that waits for missing arguments, kept
-- in the metadata of a conversation. `repr` is the text of a list or of a dict.
use offer_master.Prelude.{
  String, Bool, true, false, ◌&&◌, ◌||◌, not, Option, none, some, List, [], ◌∷◌, map, str_eq,
  or_else, if◌then◌else◌,
}
use offer_master.Prelude.Text.{is_empty, strip, after_prefix}
use offer_master.Prelude.Json.{
  Json, str, arr, obj, Items, nil, cons, items, Fields, end, fields, get, insert, remove, or_json,
  str_value,
}
mod Keeping
mod Examples

abbrev pub pending_key : String
pending_key = "pending_operation"

abbrev pub pending_source : String
pending_source = "pending_operation_v1"

pub record PendingOperationFrame : Type 0 where
  pub capability : String
  pub operation : String
  pub known_args : Fields
  pub missing_args : List String
  pub constraints : Fields
  pub resume_hints : List String
  pub source : String

abbrev pub strings : List String → Items
strings texts = items (map str texts)

unfoldable pub to_metadata_dict : PendingOperationFrame → Fields
to_metadata_dict f = fields (
    ("source", str f.source)
    ∷ ("capability", str f.capability)
    ∷ ("operation", str f.operation)
    ∷ ("known_args", obj f.known_args)
    ∷ ("missing_args", arr (strings f.missing_args))
    ∷ ("constraints", obj f.constraints)
    ∷ ("resume_hints", arr (strings f.resume_hints))
    ∷ [])

abbrev pub dict_or_empty : Json → Fields
dict_or_empty (obj d) = d
dict_or_empty _ = end

unfoldable pub clear_pending_operation : Option Fields → Fields
unfolding remove
clear_pending_operation metadata = remove pending_key (or_else metadata end)

unfoldable pub with_pending_operation : Option Fields → Option PendingOperationFrame → Fields
unfolding clear_pending_operation insert to_metadata_dict
with_pending_operation metadata none = clear_pending_operation (some (or_else metadata end))
with_pending_operation metadata (some frame) =
    insert pending_key (obj (to_metadata_dict frame)) (or_else metadata end)

abbrev pub includes : List String → String → Bool
includes [] s = false
includes (t ∷ ts) s = let rest = includes ts s in str_eq t s || rest

abbrev pub asks_copy_target : String → List String → Bool
asks_copy_target operation missing_args =
    str_eq operation "copy_file" && includes missing_args "dst"

abbrev pub asks_new_name : String → List String → Bool
asks_new_name operation missing_args =
    (str_eq operation "move_file" || str_eq operation "rename_file") && includes missing_args "dst"

abbrev pub copy_hints : List String
copy_hints = "补充具体目标文件名或提交结构化 operation_intent 后继续" ∷ []

abbrev pub name_hints : List String
name_hints = "补充新的文件名或目标路径" ∷ []

abbrev pub other_hints : List String
other_hints = "补充缺失参数后继续执行原工具任务" ∷ []

abbrev pub resume_hints_for : String → List String → List String
resume_hints_for operation missing_args =
    if asks_copy_target operation missing_args
    then copy_hints
    else if asks_new_name operation missing_args
    then name_hints
    else other_hints

-- What the code reads of the completion of a tool's input.
pub record Completion : Type 0 where
  pub tool_input : Fields
  pub missing_required_fields : List String

module _ (repr : Json → String) where
  -- `str(value or "").strip()`
  unfoldable pub stripped : Json → String
  unfolding strip
  stripped value = strip (str_value repr (or_json value (str "")))

  unfoldable pub texts : Items → List String
  unfolding stripped
  texts nil = []
  texts (cons item rest) =
      let kept = texts rest in if is_empty (stripped item) then kept else str_value repr item ∷ kept

  abbrev pub tuple_of_strings : Json → List String
  tuple_of_strings (arr xs) = texts xs
  tuple_of_strings _ = []

  unfoldable pub frame_from : Fields → Option PendingOperationFrame
  unfolding get stripped texts
  frame_from payload =
      let capability = stripped (get "capability" payload) in
      let operation = stripped (get "operation" payload) in
      if is_empty capability || is_empty operation
      then none
      else some (record {
        capability = capability;
        operation = operation;
        known_args = dict_or_empty (get "known_args" payload);
        missing_args = tuple_of_strings (get "missing_args" payload);
        constraints = dict_or_empty (get "constraints" payload);
        resume_hints = tuple_of_strings (get "resume_hints" payload);
        source = str_value repr (or_json (get "source" payload) (str pending_source));
      })

  abbrev pub frame_in : Json → Option PendingOperationFrame
  frame_in (obj payload) = frame_from payload
  frame_in _ = none

  unfoldable pub pending_operation_from_metadata : Option Fields → Option PendingOperationFrame
  unfolding get frame_from
  pending_operation_from_metadata none = none
  pending_operation_from_metadata (some metadata) = frame_in (get pending_key metadata)

  abbrev pub after_filesystem : Option String → Fields → String
  after_filesystem (some operation) metadata = operation
  after_filesystem none metadata = stripped (get "filesystem_operation" metadata)

  unfoldable pub operation_from_tool_name : String → Fields → Completion → String
  unfolding strip get stripped after_prefix
  operation_from_tool_name tool_name metadata completion =
      let tool = strip tool_name in
      if str_eq tool "skill.filesystem"
      then stripped
          (or_json (get "operation" completion.tool_input) (get "filesystem_operation" metadata))
      else after_filesystem (after_prefix "filesystem." tool) metadata

  abbrev needs_source : String → Bool
  needs_source operation =
      str_eq operation "copy_file" || str_eq operation "move_file" || str_eq operation "rename_file"

  unfoldable pub completed_args : String → Fields → Fields → Fields
  unfolding get insert stripped
  completed_args operation known_args metadata =
      let active_path = stripped (get "path" (dict_or_empty (get "active_file" metadata))) in
      if needs_source operation
        && is_empty (stripped (get "src" known_args))
        && not (is_empty active_path)
      then insert "src" (str active_path) known_args
      else known_args

  abbrev pub intent_of : Json → Fields
  intent_of (obj intent) = fields (("operation_intent", obj intent) ∷ [])
  intent_of _ = end

  abbrev pub built : String → List String → Fields → PendingOperationFrame
  built operation missing_args known_args = record {
    capability = "skill.filesystem";
    operation = operation;
    known_args = known_args;
    missing_args = missing_args;
    constraints = intent_of (get "operation_intent" known_args);
    resume_hints = resume_hints_for operation missing_args;
    source = pending_source;
  }

  abbrev has_none : List String → Bool
  has_none [] = true
  has_none (_ ∷ _) = false

  -- The capability is that of the file system, since the operation is not empty here.
  unfoldable pub build_pending_operation_from_tool_input_completion :
      String → Completion → Option Fields → Option PendingOperationFrame
  unfolding texts operation_from_tool_name completed_args
  build_pending_operation_from_tool_input_completion tool_name completion context_metadata =
      let missing_args = texts (strings completion.missing_required_fields) in
      let metadata = or_else context_metadata end in
      let operation = operation_from_tool_name tool_name metadata completion in
      if has_none missing_args || is_empty operation
      then none
      else some
          (built operation missing_args (completed_args operation completion.tool_input metadata))
