-- ===== src/ResourceEffects/Latest.antt =====
-- The effect that was recorded last is found first.
use offer_master.Prelude.{
  ℕ, zero, suc, ◌-◌, ◌≤◌, ◌≡◌, refl, ap, sym, ◌∙◌, inl, inr, String, Bool, true, false, Option,
  none, some, List, [], ◌∷◌, ◌++◌, length, drop, length-append, str_eq, or_else, arith, Bool-cases,
}
use mathlib.Core.Option.{some-injective}
use offer_master.Prelude.Json.{
  Json, arr, obj, Fields, end, get, lookup, get-insert, get-insert_other, str_value,
}
use offer_master.Prelude.Int.{pos}
use offer_master.ResourceEffects.{
  dict_items, last_items, normalize_effect, file_artifact_context, with_artifact, recorded,
  record_effect, iter_dicts, append_resource_effect_context, matches, find_last, latest_of,
  latest_resource_effect,
}

drop-snoc :
    (n : ℕ) (items : List Fields) (effect : Fields)
    → n ≤ length items
    → drop n (items ++ effect ∷ []) ≡ drop n items ++ effect ∷ []
drop-snoc zero items effect inside = refl
drop-snoc (suc n) [] effect inside = absurd (omega (arith, inside))
drop-snoc (suc n) (x ∷ items) effect inside = drop-snoc n items effect (omega arith)

last_items-snoc :
    (n : ℕ) (items : List Fields) (effect : Fields)
    → (kept : List Fields) × (last_items (pos n) (items ++ effect ∷ []) ≡ kept ++ effect ∷ [])
last_items-snoc zero items effect = (items, refl)
last_items-snoc (suc n) items effect =
    let size = length-append items (effect ∷ []) in
    (
      drop (length (items ++ effect ∷ []) - suc n) items,
      drop-snoc (length (items ++ effect ∷ []) - suc n) items effect (omega (arith, size)),
    )

module _ (repr : Json → String) where
  find_last-snoc :
      (test : Fields → Bool) (items : List Fields) (effect : Fields)
      → test effect ≡ true
      → find_last repr test (dict_items (items ++ effect ∷ [])) ≡ some effect
  find_last-snoc test [] effect passes = rw passes refl
  find_last-snoc test (x ∷ items) effect passes = rw (find_last-snoc test items effect passes) refl

  with_artifact_keeps :
      (key : String) (metadata current effect after : Fields) (created : Option (List Fields))
      → str_eq "artifact_context" key ≡ false
      → with_artifact repr metadata current effect created ≡ some after
      → get key after ≡ get key metadata
  with_artifact_keeps key metadata current effect after none apart done = cc
  with_artifact_keeps key metadata current effect after (some created) apart done =
      ap (get key) (sym (some-injective _ after done))
      ∙ get-insert_other key "artifact_context" _ metadata apart

  file_keeps :
      (key : String) (metadata effect after : Fields)
      → str_eq "artifact_context" key ≡ false
      → file_artifact_context repr metadata effect ≡ some after
      → get key after ≡ get key metadata
  file_keeps key metadata effect after apart done =
      elim (Bool-cases (str_eq (str_value repr (get "resource_type" effect)) "file")) [
        | inl file ↦ with_artifact_keeps key metadata _ effect after _ apart (simp file at done)
        | inr other ↦ ap (get key) (sym (some-injective metadata after (simp other at done)))
      ]

  record_latest :
      (metadata effect after : Fields) (n : ℕ) (test : Fields → Bool)
      (existing : Option (List Fields))
      → record_effect repr metadata effect (pos n) existing ≡ some after
      → test effect ≡ true
      → (latest_of repr test (get "resource_effects" after) ≡ effect)
        × (get "active_resource" after ≡ obj effect)
  unfolding str_eq
  record_latest metadata effect after n test none done passes = cc
  record_latest metadata effect after n test (some existing) done passes =
      let (kept, e) = last_items-snoc n existing effect in
      let stored : get "resource_effects" after ≡ arr (dict_items (kept ++ effect ∷ [])) =
        file_keeps "resource_effects" (recorded repr metadata effect (pos n) existing) effect after
          refl done
        ∙ get-insert_other "resource_effects" "active_resource" _ _ refl
        ∙ get-insert "resource_effects" _ metadata
        ∙ ap (λ l. arr (dict_items l)) e in
      (
        ap (latest_of repr test) stored
            ∙ ap (λ o. or_else o end) (find_last-snoc test kept effect passes),
        file_keeps "active_resource" (recorded repr metadata effect (pos n) existing) effect after
              refl done
            ∙ get-insert "active_resource" (obj effect) _,
      )

  -- When an effect names a resource type and an action, and recording it succeeds, then the search
  -- for the latest effect by any filters that the recorded form passes finds that form, whatever
  -- was recorded before and however few effects are kept, and it is the active resource.
  pub latest_resource_effect-append_resource_effect_context :
      (metadata : Option Fields) (effect : Json) (max_effects : ℕ) (recorded_effect after : Fields)
      (resource_type operation action : String)
      → normalize_effect repr effect ≡ some recorded_effect
      → append_resource_effect_context repr metadata effect (pos max_effects) ≡ some after
      → matches repr resource_type operation action recorded_effect ≡ true
      → (latest_resource_effect repr (some after) resource_type operation action ≡ recorded_effect)
        × (get "active_resource" after ≡ obj recorded_effect)
  unfolding append_resource_effect_context latest_resource_effect
  latest_resource_effect-append_resource_effect_context metadata effect max_effects recorded_effect
        after resource_type operation action named done passes =
      record_latest (or_else metadata end) recorded_effect after max_effects
        (matches repr resource_type operation action)
        (iter_dicts (lookup "resource_effects" (or_else metadata end))) (simp named at done) passes
