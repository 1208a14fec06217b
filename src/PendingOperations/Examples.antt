-- ===== src/PendingOperations/Examples.antt =====
-- Tests of the pending operations: a copy that waits for its target.
use offer_master.Prelude.{◌≡◌, refl, String, false, some, [], ◌∷◌, str_eq, or_else}
use offer_master.Prelude.Text.{strip, after_prefix}
use offer_master.Prelude.Json.{Json, str, obj, Fields, end, field, get, insert}
use offer_master.PendingOperations.{
  pending_key, PendingOperationFrame, Completion, built, with_pending_operation,
  pending_operation_from_metadata, build_pending_operation_from_tool_input_completion, texts,
  stripped, operation_from_tool_name, completed_args,
}
use offer_master.PendingOperations.Keeping.{
  IsClean, pending_operation_from_metadata-with_pending_operation,
  build_pending_operation_from_tool_input_completion-IsClean,
}

abbrev repr : Json → String
repr _ = "{}"

abbrev completion : Completion
completion = record { tool_input = end; missing_required_fields = "dst" ∷ " " ∷ [] }

abbrev metadata : Fields
metadata = field "active_file" (obj (field "path" (str "cv.pdf") end)) end

abbrev copying : PendingOperationFrame
copying = built repr "copy_file" ("dst" ∷ []) (field "src" (str "cv.pdf") end)

builds_copying :
    build_pending_operation_from_tool_input_completion repr " filesystem.copy_file" completion
      (some metadata)
    ≡ some copying
unfolding build_pending_operation_from_tool_input_completion texts stripped operation_from_tool_name
    completed_args strip after_prefix get insert str_eq
builds_copying = refl

copying_trimmed : strip "copy_file" ≡ "copy_file"
unfolding strip
copying_trimmed = refl

copying-IsClean : IsClean copying
unfolding strip str_eq
copying-IsClean = record {
  capability = refl;
  operation = refl;
  capable = refl;
  operating = refl;
  missing_args = (refl, tt);
  resume_hints = (refl, tt);
  source = refl;
}

build_pending_operation_from_tool_input_completion-IsClean_example : IsClean copying
build_pending_operation_from_tool_input_completion-IsClean_example =
    build_pending_operation_from_tool_input_completion-IsClean repr " filesystem.copy_file"
      completion (some metadata) builds_copying copying_trimmed

pending_operation_from_metadata-with_pending_operation_example :
    (pending_operation_from_metadata repr
        (some (with_pending_operation (some metadata) (some copying)))
      ≡ some copying)
    × ((key : String)
        → str_eq pending_key key ≡ false
        → get key (with_pending_operation (some metadata) (some copying))
          ≡ get key (or_else (some metadata) end))
pending_operation_from_metadata-with_pending_operation_example =
    pending_operation_from_metadata-with_pending_operation repr (some metadata) (some copying)
      copying-IsClean
