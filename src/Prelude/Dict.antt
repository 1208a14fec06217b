-- ===== src/Prelude/Dict.antt =====
-- A dict with text keys, in insertion order.
use mathlib.Core.Path.{◌≡◌, refl}
use mathlib.Core.Logic.{inl, inr}
use mathlib.Core.Bool.{false}
use mathlib.Core.Option.{Option, none, some}
use mathlib.Core.List.{List, [], ◌∷◌}
use Prim.Native.String.{String}
use offer_master.Prelude.Tests.{if◌then◌else◌, str_eq, str_eq_iff, str_eq_refl, Bool-cases}

module _ {ℓ} {A : Type ℓ} where
  -- `d.get(key)`
  unfoldable pub fetch : String → List (String × A) → Option A
  fetch key [] = none
  fetch key ((k, v) ∷ d) = if str_eq k key then some v else fetch key d

  -- `d[key] = value`
  unfoldable pub put : String → A → List (String × A) → List (String × A)
  put key v [] = (key, v) ∷ []
  put key v ((k, w) ∷ d) = if str_eq k key then (k, v) ∷ d else (k, w) ∷ put key v d

  pub fetch-put : (key : String) (v : A) (d : List (String × A)) → fetch key (put key v d) ≡ some v
  unfolding fetch put
  fetch-put key v [] = rw (str_eq_refl key) refl
  fetch-put key v ((k, w) ∷ d) = elim (Bool-cases (str_eq k key)) [
    | inl same ↦ rw (same, same) refl
    | inr other ↦ rw (other, other) (fetch-put key v d)
  ]

  pub fetch-put_other :
      (key other : String) (v : A) (d : List (String × A))
      → str_eq other key ≡ false
      → fetch key (put other v d) ≡ fetch key d
  unfolding fetch put
  fetch-put_other key other v [] apart = rw apart refl
  fetch-put_other key other v ((k, w) ∷ d) apart = elim (Bool-cases (str_eq k other)) [
    | inl same ↦ rw (same, (str_eq_iff k other).0 same, apart) refl
    | inr differs ↦ rw differs (elim (Bool-cases (str_eq k key)) [
      | inl found ↦ rw found refl
      | inr missed ↦ rw missed (fetch-put_other key other v d apart)
    ])
  ]
