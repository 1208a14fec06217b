-- ===== src/Prelude/Table.antt =====
-- A table as a list of rows, newest first: a row hides the older rows of its key.
use mathlib.Core.Path.{◌≡◌, sym, ap, ◌∙◌}
use mathlib.Core.Logic.{◌↔◌, inl, inr}
use mathlib.Core.Bool.{false}
use mathlib.Core.Option.{Option, none, some, some-injective}
use mathlib.Core.List.{List, [], ◌∷◌, Memᴰ}
use Prim.Native.String.{String}
use offer_master.Prelude.Lists.{Memᴰ-cons}
use offer_master.Prelude.Tests.{
  str_eq, str_eq_iff, str_eq_refl, str_ne, ne_of_str_ne, if◌then◌else◌, Bool-cases,
}

module _ {R : Type 0} (key : R → String) where
  -- The newest row of a key.
  unfoldable pub find : List R → String → Option R
  find [] k = none
  find (r ∷ rows) k = if str_eq (key r) k then some r else find rows k

  drop_key : String → List R → List R
  drop_key k [] = []
  drop_key k (r ∷ rows) = if str_eq (key r) k then drop_key k rows else r ∷ drop_key k rows

  -- The rows that no newer row hides.
  live : List R → List R
  live [] = []
  live (r ∷ rows) = r ∷ drop_key (key r) (live rows)

  module _ (owner : R → String) (o : String) where
    owned_in : List R → List R
    owned_in [] = []
    owned_in (r ∷ rows) = if str_eq (owner r) o then r ∷ owned_in rows else owned_in rows

  unfoldable pub owned : (R → String) → List R → String → List R
  unfolding live drop_key owned_in
  owned owner rows o = owned_in owner o (live rows)

  pub find-key : (rows : List R) (k : String) {r : R} → find rows k ≡ some r → key r ≡ k
  unfolding find
  find-key [] k e = cc
  find-key (x ∷ rows) k e = elim (Bool-cases (str_eq (key x) k)) [
    | inl same ↦
        let here = some-injective _ _ (rw same at e) in
        ap key (sym here) ∙ (str_eq_iff (key x) k).0 same
    | inr other ↦ find-key rows k (rw other at e)
  ]

  mem-drop_key :
      (k : String) (rows : List R) (r : R)
      → Memᴰ r (drop_key k rows) ↔ (Memᴰ r rows × (str_eq (key r) k ≡ false))
  unfolding drop_key
  mem-drop_key k [] r = (λ m. elim m [ ], λ (m, _). elim m [ ])
  mem-drop_key k (x ∷ rows) r = elim (Bool-cases (str_eq (key x) k)) [
    | inl same ↦ rw same (
      λ m. let (at, other) = (mem-drop_key k rows r).0 m in (Memᴰ.tail at, other),
      λ (m, other). elim (Memᴰ-cons m) [
        | inl here ↦ cc
        | inr at ↦ (mem-drop_key k rows r).1 (at, other)
      ],
    )
    | inr differs ↦ rw differs (
      λ m. elim (Memᴰ-cons m) [
        | inl here ↦ (Memᴰ.head here, cc)
        | inr t ↦ let (at, other) = (mem-drop_key k rows r).0 t in (Memᴰ.tail at, other)
      ],
      λ (m, other). elim (Memᴰ-cons m) [
        | inl here ↦ Memᴰ.head here
        | inr at ↦ Memᴰ.tail ((mem-drop_key k rows r).1 (at, other))
      ],
    )
  ]

  mem-live : (rows : List R) (r : R) → Memᴰ r (live rows) ↔ (find rows (key r) ≡ some r)
  unfolding live find
  mem-live [] r = (λ m. elim m [ ], λ e. cc)
  mem-live (x ∷ rows) r = elim (Bool-cases (str_eq (key x) (key r))) [
    | inl same ↦ rw same (
      λ m. elim (Memᴰ-cons m) [
        | inl here ↦ ap some (sym here)
        | inr t ↦
            let (_, other) = (mem-drop_key (key x) (live rows) r).0 t in
            cc (sym ((str_eq_iff (key x) (key r)).0 same), str_eq_refl (key x))
      ],
      λ e. Memᴰ.head (sym (some-injective _ _ e)),
    )
    | inr differs ↦ rw differs (
      λ m. elim (Memᴰ-cons m) [
        | inl here ↦ cc (here, str_eq_refl (key r))
        | inr t ↦ (mem-live rows r).0 (((mem-drop_key (key x) (live rows) r).0 t).0)
      ],
      λ e. Memᴰ.tail (
          (mem-drop_key (key x) (live rows) r).1
            ((mem-live rows r).1 e, str_ne _ _ (λ p. ne_of_str_ne _ _ differs (sym p)))),
    )
  ]

  mem-owned_in :
      (owner : R → String) (o : String) (rows : List R) (r : R)
      → Memᴰ r (owned_in owner o rows) ↔ (Memᴰ r rows × (owner r ≡ o))
  unfolding owned_in
  mem-owned_in owner o [] r = (λ m. elim m [ ], λ (m, _). elim m [ ])
  mem-owned_in owner o (x ∷ rows) r = elim (Bool-cases (str_eq (owner x) o)) [
    | inl same ↦ rw same (
      λ m. elim (Memᴰ-cons m) [
        | inl here ↦ (Memᴰ.head here, ap owner here ∙ (str_eq_iff (owner x) o).0 same)
        | inr t ↦ let (at, mine) = (mem-owned_in owner o rows r).0 t in (Memᴰ.tail at, mine)
      ],
      λ (m, mine). elim (Memᴰ-cons m) [
        | inl here ↦ Memᴰ.head here
        | inr at ↦ Memᴰ.tail ((mem-owned_in owner o rows r).1 (at, mine))
      ],
    )
    | inr differs ↦ rw differs (
      λ m. let (at, mine) = (mem-owned_in owner o rows r).0 m in (Memᴰ.tail at, mine),
      λ (m, mine). elim (Memᴰ-cons m) [
        | inl here ↦ cc ((str_eq_iff (owner x) o).1 (ap owner (sym here) ∙ mine))
        | inr at ↦ (mem-owned_in owner o rows r).1 (at, mine)
      ],
    )
  ]

  pub mem-owned :
      (owner : R → String) (rows : List R) (o : String) (r : R)
      → Memᴰ r (owned owner rows o) ↔ ((find rows (key r) ≡ some r) × (owner r ≡ o))
  unfolding owned
  mem-owned owner rows o r = (
    λ m.
        let (at, mine) = (mem-owned_in owner o (live rows) r).0 m in ((mem-live rows r).0 at, mine),
    λ (at, mine). (mem-owned_in owner o (live rows) r).1 ((mem-live rows r).1 at, mine),
  )
