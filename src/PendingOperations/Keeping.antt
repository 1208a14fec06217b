-- ===== src/PendingOperations/Keeping.antt =====
-- Writing a pending operation into metadata and reading it back.
use offer_master.Prelude.{
  ◌≡◌, refl, subst, ap, inl, inr, String, Bool, true, false, ◌||◌, Option, none, some, List, [],
  ◌∷◌, str_eq, or_else, All, Bool-cases, if◌then◌else◌, arith,
}
use mathlib.Core.Option.{some-injective}
use offer_master.Prelude.Text.{is_empty, strip}
use offer_master.Prelude.Json.{
  Json, str, obj, Fields, end, get, get-insert, get-insert_other, get-remove, get-remove_other,
}
use offer_master.PendingOperations.{
  asks_copy_target, asks_new_name, copy_hints, name_hints, other_hints, pending_key,
  PendingOperationFrame, strings, to_metadata_dict, clear_pending_operation, with_pending_operation,
  stripped, texts, frame_from, pending_operation_from_metadata, resume_hints_for, Completion,
  build_pending_operation_from_tool_input_completion,
}

abbrev pub IsFilled : String → Type 0
IsFilled s = is_empty (strip s) ≡ false

-- A frame whose names are stripped and not empty, and whose lists hold no blank text.
pub record IsClean (f : PendingOperationFrame) : Type 0 where
  pub capability : strip f.capability ≡ f.capability
  pub operation : strip f.operation ≡ f.operation
  pub capable : is_empty f.capability ≡ false
  pub operating : is_empty f.operation ≡ false
  pub missing_args : All IsFilled f.missing_args
  pub resume_hints : All IsFilled f.resume_hints
  pub source : is_empty f.source ≡ false

abbrev pub IsCleanOrNone : Option PendingOperationFrame → Type 0
IsCleanOrNone none = Unit
IsCleanOrNone (some f) = IsClean f

chosen-IsFilled :
    (b : Bool) (xs ys : List String)
    → All IsFilled xs
    → All IsFilled ys
    → All IsFilled (if b then xs else ys)
chosen-IsFilled true xs ys h k = h
chosen-IsFilled false xs ys h k = k

resume_hints_for-IsFilled :
    (operation : String) (missing : List String) → All IsFilled (resume_hints_for operation missing)
unfolding strip
resume_hints_for-IsFilled operation missing =
    chosen-IsFilled (asks_copy_target operation missing) copy_hints _ (refl, tt)
      (chosen-IsFilled (asks_new_name operation missing) name_hints other_hints (refl, tt)
        (refl, tt))

capability_stripped : strip "skill.filesystem" ≡ "skill.filesystem"
unfolding strip
capability_stripped = refl

-- What a test lets through.
let_through :
    {A : Type 0} (b : Bool) (x : A) {y : A}
    → (if b then none else some x) ≡ some y
    → (b ≡ false) × (x ≡ y)
let_through true x e = cc
let_through false x e = (refl, some-injective _ _ e)

second_false : (a b : Bool) → (a || b) ≡ false → b ≡ false
second_false a b h = ground arith

module _ (repr : Json → String) where
  stripped_str : (s : String) → stripped repr (str s) ≡ strip s
  unfolding stripped
  stripped_str String.[] = refl
  stripped_str (String.◌∷◌ c s) = refl

  texts-strings : (l : List String) → All IsFilled l → texts repr (strings l) ≡ l
  unfolding texts
  texts-strings [] h = refl
  texts-strings (s ∷ l) (filled, rest) =
      rw (stripped_str s, filled) (ap (λ t. s ∷ t) (texts-strings l rest))

  frame_from-to_metadata_dict :
      (f : PendingOperationFrame) → IsClean f → frame_from repr (to_metadata_dict f) ≡ some f
  unfolding frame_from to_metadata_dict get str_eq
  frame_from-to_metadata_dict f clean =
      rw
        (
          stripped_str f.capability,
          stripped_str f.operation,
          clean.capability,
          clean.operation,
          clean.capable,
          clean.operating,
          texts-strings f.missing_args clean.missing_args,
          texts-strings f.resume_hints clean.resume_hints,
          clean.source,
        )
        refl

  -- A frame that is clean, or none, that is put into the metadata is what is read back from them,
  -- and the value of every other key is as before.
  pub pending_operation_from_metadata-with_pending_operation :
      (metadata : Option Fields) (pending : Option PendingOperationFrame)
      → IsCleanOrNone pending
      → (pending_operation_from_metadata repr (some (with_pending_operation metadata pending))
          ≡ pending)
        × ((key : String)
            → str_eq pending_key key ≡ false
            → get key (with_pending_operation metadata pending) ≡ get key (or_else metadata end))
  unfolding pending_operation_from_metadata with_pending_operation clear_pending_operation
  pending_operation_from_metadata-with_pending_operation metadata none clean = (
    rw (get-remove pending_key (or_else metadata end)) refl,
    λ key other. get-remove_other key pending_key (or_else metadata end) other,
  )
  pending_operation_from_metadata-with_pending_operation metadata (some f) clean = (
    rw (get-insert pending_key (obj (to_metadata_dict f)) (or_else metadata end))
        (frame_from-to_metadata_dict f clean),
    λ key other. get-insert_other key pending_key _ (or_else metadata end) other,
  )

  texts-IsFilled : (l : List String) → All IsFilled (texts repr (strings l))
  unfolding texts
  texts-IsFilled [] = tt
  texts-IsFilled (s ∷ l) =
      let rest = texts-IsFilled l in
      elim (Bool-cases (is_empty (strip s))) [
        | inl blank ↦ rw (stripped_str s, blank) rest
        | inr filled ↦ rw (stripped_str s, filled) (filled, rest)
      ]

  -- A frame that is built from the completion of a tool's input, if stripping does not change its
  -- operation, is clean: its names are stripped and not empty, and no text of its lists is blank.
  pub build_pending_operation_from_tool_input_completion-IsClean :
      (tool_name : String) (completion : Completion) (context_metadata : Option Fields)
      → {f : PendingOperationFrame}
      → build_pending_operation_from_tool_input_completion repr tool_name completion
          context_metadata
        ≡ some f
      → strip f.operation ≡ f.operation
      → IsClean f
  unfolding build_pending_operation_from_tool_input_completion
  build_pending_operation_from_tool_input_completion-IsClean tool_name completion metadata {f} e
        trim =
      let (passed, same) = let_through _ _ e in
      subst (λ (g : PendingOperationFrame). strip g.operation ≡ g.operation → IsClean g) same
        (λ trimmed. record {
          capability = capability_stripped;
          operation = trimmed;
          capable = refl;
          operating = second_false _ _ passed;
          missing_args = texts-IsFilled completion.missing_required_fields;
          resume_hints = resume_hints_for-IsFilled _ _;
          source = refl;
        })
        trim
