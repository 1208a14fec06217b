-- ===== src/ExternalTasks/EnvelopeArtifacts.antt =====
-- The list of artifacts in the envelope of a result.
use offer_master.Prelude.{
  ◌≡◌, ◌≢◌, ◌↔◌, ◌⊎◌, refl, sym, ◌∙◌, ap, subst, inl, inr, String, Bool, true, false, ◌&&◌, Option,
  none, some, List, [], ◌∷◌, ◌++◌, map, Memᴰ, Memᴰ-cons, str_eq, str_eq_iff, str_eq_refl,
  Bool-cases, arith, if◌then◌else◌,
}
use mathlib.Core.List as ListLib
use offer_master.Prelude.Text.{is_empty, strip}
use offer_master.Prelude.Json.{Json, Items, items, Fields, get, str, obj, opt_str, or_json}
use offer_master.ExternalTasks.Schemas.{ExternalAgentArtifactRef, ApplyEntryDiscoveryResult}
use offer_master.ExternalTasks.Payloads.{artifact_dump, result_dump}
use offer_master.ExternalTasks.ResultEnvelope.{
  text_or, Artifact, same_artifact, seen_in, unique_from, entry_artifact, entry_url, evidence_of,
  evidence_artifacts, all_evidence, apply_entry_artifacts, build_apply_entry_task_result_envelope,
}

-- Artifacts of which no two are the same.
abbrev pub Distinct : List Artifact → Type 0
Distinct [] = Unit
Distinct (a ∷ rest) = (¬ (Memᴰ a rest)) × Distinct rest

abbrev pub artifact : String → String → String → Artifact
artifact kind title url = record { kind = kind; title = title; url = url }

false_ne_true : false ≢ true
false_ne_true e = cc

all_true : (a b c : Bool) → (a && b && c) ≡ true → (a ≡ true) × (b ≡ true) × (c ≡ true)
all_true a b c h = ground arith

same_artifact→≡ : (a b : Artifact) → same_artifact a b ≡ true → a ≡ b
same_artifact→≡ a b h =
    let (kinds, titles, urls) = all_true _ _ _ h in
    ap (λ k. artifact k a.title a.url) ((str_eq_iff a.kind b.kind).0 kinds)
    ∙ ap (λ t. artifact b.kind t a.url) ((str_eq_iff a.title b.title).0 titles)
    ∙ ap (λ u. artifact b.kind b.title u) ((str_eq_iff a.url b.url).0 urls)

-- Two artifacts of which only one was seen.
apart :
    (a x : Artifact) (seen : List Artifact)
    → seen_in x seen ≢ seen_in a seen
    → same_artifact x a ≡ false
apart a x seen differ = elim (Bool-cases (same_artifact x a)) [
  | inl same ↦ absurd (differ (ap (λ y. seen_in y seen) (same_artifact→≡ x a same)))
  | inr differs ↦ differs
]

same_artifact_refl : (a : Artifact) → same_artifact a a ≡ true
same_artifact_refl a = rw (str_eq_refl a.kind, str_eq_refl a.title, str_eq_refl a.url) refl

-- What was seen is not kept again.
unique_from_seen :
    (a : Artifact) (seen xs : List Artifact)
    → seen_in a seen ≡ true
    → seen_in a (unique_from seen xs) ≡ false
unfolding seen_in unique_from
unique_from_seen a seen [] h = refl
unique_from_seen a seen (x ∷ xs) h =
    let skipped = unique_from_seen a seen xs h in
    elim (Bool-cases (seen_in x seen)) [
      | inl old ↦ rw old skipped
      | inr new ↦
          let differs = apart a x seen (λ e. cc) in
          rw (new, differs) (unique_from_seen a (x ∷ seen) xs (rw differs h))
    ]

-- What was not seen is kept once.
unique_from_kept :
    (a : Artifact) (seen xs : List Artifact)
    → seen_in a seen ≡ false
    → seen_in a (unique_from seen xs) ≡ seen_in a xs
unfolding seen_in unique_from
unique_from_kept a seen [] h = refl
unique_from_kept a seen (x ∷ xs) h =
    let skipped = unique_from_kept a seen xs h in
    let kept = unique_from_kept a (x ∷ seen) xs in
    elim (Bool-cases (seen_in x seen)) [
      | inl old ↦ rw (old, apart a x seen (λ e. cc)) skipped
      | inr new ↦ elim (Bool-cases (same_artifact x a)) [
        | inl same ↦ rw (new, same) refl
        | inr differs ↦ rw (new, differs) (kept (rw differs h))
      ]
    ]

-- Being seen is being in the list.
seen-Memᴰ : (a : Artifact) (xs : List Artifact) → seen_in a xs ≡ true → Memᴰ a xs
unfolding seen_in
seen-Memᴰ a [] h = absurd (false_ne_true h)
seen-Memᴰ a (x ∷ xs) h = elim (Bool-cases (same_artifact x a)) [
  | inl same ↦ Memᴰ.head (sym (same_artifact→≡ x a same))
  | inr differs ↦ Memᴰ.tail (seen-Memᴰ a xs (rw differs at h))
]

Memᴰ-seen : (a : Artifact) (xs : List Artifact) → Memᴰ a xs → seen_in a xs ≡ true
unfolding seen_in
Memᴰ-seen a [] m = elim m [ ]
Memᴰ-seen a (x ∷ xs) (Memᴰ.head e) =
    rw (subst (λ (y : Artifact). same_artifact y a ≡ true) e (same_artifact_refl a)) refl
Memᴰ-seen a (x ∷ xs) (Memᴰ.tail m) =
    let rest = Memᴰ-seen a xs m in
    elim (Bool-cases (same_artifact x a)) [
      | inl same ↦ rw same refl
      | inr differs ↦ rw differs rest
    ]

unseen-Memᴰ : (a : Artifact) (xs : List Artifact) → seen_in a xs ≡ false → ¬ (Memᴰ a xs)
unseen-Memᴰ a xs h m = false_ne_true (sym h ∙ Memᴰ-seen a xs m)

unique_from-Distinct : (seen xs : List Artifact) → Distinct (unique_from seen xs)
unfolding seen_in unique_from
unique_from-Distinct seen [] = tt
unique_from-Distinct seen (x ∷ xs) =
    let skipped = unique_from-Distinct seen xs in
    let kept = unique_from-Distinct (x ∷ seen) xs in
    elim (Bool-cases (seen_in x seen)) [
      | inl old ↦ rw old skipped
      | inr new ↦ rw new (
        unseen-Memᴰ x _ (unique_from_seen x (x ∷ seen) xs (rw (same_artifact_refl x) refl)),
        kept,
      )
    ]

mem-unique_from : (a : Artifact) (xs : List Artifact) → Memᴰ a (unique_from [] xs) ↔ Memᴰ a xs
unfolding seen_in
mem-unique_from a xs =
    let same = unique_from_kept a [] xs refl in
    (
      λ m. seen-Memᴰ a xs (sym same ∙ Memᴰ-seen a (unique_from [] xs) m),
      λ m. seen-Memᴰ a (unique_from [] xs) (same ∙ Memᴰ-seen a xs m),
    )

-- The first of two texts that is there and not empty.
abbrev first_text : Option String → Option String → String
first_text none none = ""
first_text none (some t) = t
first_text (some String.[]) none = ""
first_text (some String.[]) (some t) = t
first_text (some (String.◌∷◌ c s)) b = String.◌∷◌ c s

-- The page of the entry: the application's address, or that at which the browser ended.
abbrev pub page : ApplyEntryDiscoveryResult → String
page result = strip (first_text result.apply_url result.final_browser_url)

abbrev kind_text : String → String
kind_text String.[] = "artifact"
kind_text (String.◌∷◌ c s) = String.◌∷◌ c s

-- What is shown of a piece of evidence.
abbrev pub piece : ExternalAgentArtifactRef → Artifact
piece ref =
    artifact (strip (kind_text ref.artifact_type)) (strip (kind_text ref.artifact_type))
      (strip ref.path_or_uri)

-- An artifact that the envelope of a result is to show: its page, if it has one, or a piece of its
-- evidence that has a place.
abbrev pub Shown : ApplyEntryDiscoveryResult → Artifact → Type 0
Shown result a =
    ((is_empty (page result) ≡ false) × (a ≡ artifact "url" "application_entry" (page result)))
    ⊎ ((ref : ExternalAgentArtifactRef) × Memᴰ ref result.evidence_artifacts
        × (is_empty (strip ref.path_or_uri) ≡ false)
        × (a ≡ piece ref))

module _ (repr : Json → String) where
  text_or-str : (s : String) → text_or repr "" (str s) ≡ s
  text_or-str String.[] = refl
  text_or-str (String.◌∷◌ c s) = refl

  text_or-kind : (s : String) → text_or repr "artifact" (str s) ≡ kind_text s
  text_or-kind String.[] = refl
  text_or-kind (String.◌∷◌ c s) = refl

  text_or-first_text :
      (a b : Option String) → text_or repr "" (or_json (opt_str a) (opt_str b)) ≡ first_text a b
  text_or-first_text none none = refl
  text_or-first_text none (some t) = text_or-str t
  text_or-first_text (some String.[]) none = refl
  text_or-first_text (some String.[]) (some t) = text_or-str t
  text_or-first_text (some (String.◌∷◌ c s)) b = refl

  -- The address that the code reads from the dump of a result is its page.
  entry_url-page :
      (result : ApplyEntryDiscoveryResult) → entry_url repr (result_dump result) ≡ page result
  unfolding entry_url result_dump get str_eq
  entry_url-page result = ap strip (text_or-first_text result.apply_url result.final_browser_url)

  evidence_of-piece :
      (ref : ExternalAgentArtifactRef)
      → evidence_of repr (artifact_dump ref)
        ≡ (if is_empty (strip ref.path_or_uri) then [] else piece ref ∷ [])
  unfolding evidence_of get str_eq
  evidence_of-piece ref = rw (text_or-str ref.path_or_uri, text_or-kind ref.artifact_type) refl

  abbrev dumps : List ExternalAgentArtifactRef → Items
  dumps refs = items (map (λ (ref : ExternalAgentArtifactRef). obj (artifact_dump ref)) refs)

  abbrev Evidence : List ExternalAgentArtifactRef → Artifact → Type 0
  Evidence refs a =
      (ref : ExternalAgentArtifactRef) × Memᴰ ref refs
      × (is_empty (strip ref.path_or_uri) ≡ false)
      × (a ≡ piece ref)

  mem-Evidence :
      (refs : List ExternalAgentArtifactRef) (a : Artifact)
      → Memᴰ a (evidence_artifacts repr (dumps refs)) ↔ Evidence refs a
  unfolding evidence_artifacts
  mem-Evidence [] a = (λ m. elim m [ ], λ (ref, m, _, _). elim m [ ])
  mem-Evidence (ref ∷ refs) a =
      let rest = mem-Evidence refs a in
      elim (Bool-cases (is_empty (strip ref.path_or_uri))) [
        | inl blank ↦
            rw (evidence_of-piece ref, blank)
              (
                λ m. let (r, at, filled, e) = rest.0 m in (r, Memᴰ.tail at, filled, e),
                λ (r, at, filled, e). elim (Memᴰ-cons at) [
                  | inl here ↦ absurd (
                      false_ne_true (
                        sym filled
                        ∙ ap (λ (x : ExternalAgentArtifactRef). is_empty (strip x.path_or_uri)) here
                        ∙ blank))
                  | inr later ↦ rest.1 (r, later, filled, e)
                ],
              )
        | inr place ↦
            rw (evidence_of-piece ref, place)
              (
                λ m. elim (Memᴰ-cons m) [
                  | inl here ↦ (ref, Memᴰ.head refl, place, here)
                  | inr later ↦
                      let (r, at, filled, e) = rest.0 later in (r, Memᴰ.tail at, filled, e)
                ],
                λ (r, at, filled, e). elim (Memᴰ-cons at) [
                  | inl here ↦ Memᴰ.head (e ∙ ap piece here)
                  | inr later ↦ Memᴰ.tail (rest.1 (r, later, filled, e))
                ],
              )
      ]

  mem-entry :
      (url : String) (a : Artifact)
      → Memᴰ a (entry_artifact repr url)
        ↔ ((is_empty url ≡ false) × (a ≡ artifact "url" "application_entry" url))
  mem-entry url a = elim (Bool-cases (is_empty url)) [
    | inl blank ↦ rw blank (λ m. elim m [ ], λ (filled, e). absurd (false_ne_true (sym filled)))
    | inr filled ↦ rw filled (
      λ m. elim (Memᴰ-cons m) [ inl here ↦ (refl, here) | inr later ↦ elim later [ ] ],
      λ (_, e). Memᴰ.head e,
    )
  ]

  mem-append : (a : Artifact) (xs ys : List Artifact) → Memᴰ a (xs ++ ys) ↔ (Memᴰ a xs ⊎ Memᴰ a ys)
  mem-append a xs ys = (
    λ m. ListLib.Memᴰ.append_cases xs m,
    λ h. elim h [ inl m ↦ ListLib.Memᴰ.append_left ys m | inr m ↦ ListLib.Memᴰ.append_right xs m ],
  )

  -- The artifacts in the envelope that is built from the dump of a result are pairwise different, and
  -- they are exactly these: the page of the entry, if the result has one, and each piece of evidence
  -- whose place is not blank, under its kind.
  pub build_apply_entry_task_result_envelope-artifacts :
      (result : ApplyEntryDiscoveryResult) (task_input_payload : Fields)
      → (executor_name : Option String) (risk_level : String)
      → let shown =
          (build_apply_entry_task_result_envelope repr
            (result_dump result)
            task_input_payload
            executor_name
            risk_level).artifacts in
        Distinct shown × ((a : Artifact) → Memᴰ a shown ↔ Shown result a)
  unfolding build_apply_entry_task_result_envelope apply_entry_artifacts all_evidence result_dump
      get str_eq
  build_apply_entry_task_result_envelope-artifacts result input name risk = (
    unique_from-Distinct [] _,
    λ a.
        let here = mem-unique_from a (
          entry_artifact repr (entry_url repr (result_dump result))
          ++ evidence_artifacts repr (dumps result.evidence_artifacts)) in
        let either =
          mem-append a (entry_artifact repr (entry_url repr (result_dump result)))
            (evidence_artifacts repr (dumps result.evidence_artifacts)) in
        let entry : Memᴰ a (entry_artifact repr (entry_url repr (result_dump result))) ↔ (
            (is_empty (page result) ≡ false)
            × (a ≡ artifact "url" "application_entry" (page result))) =
          subst
            (λ (u : String). Memᴰ a (entry_artifact repr u) ↔ (
              (is_empty (page result) ≡ false)
              × (a ≡ artifact "url" "application_entry" (page result))))
            (sym (entry_url-page result)) (mem-entry (page result) a) in
        let evidence = mem-Evidence result.evidence_artifacts a in
        (
          λ m. elim (either.0 (here.0 m)) [ inl e ↦ inl (entry.0 e) | inr e ↦ inr (evidence.0 e) ],
          λ h. elim h [
            | inl e ↦ here.1 (either.1 (inl (entry.1 e)))
            | inr e ↦ here.1 (either.1 (inr (evidence.1 e)))
          ],
        ),
  )
