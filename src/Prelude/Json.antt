-- ===== src/Prelude/Json.antt =====
-- The values of a `dict[str, Any]` payload, as JSON has them, with Python's truth test and `str`.
use mathlib.Core.Bool.{Bool, true, false, not}
use mathlib.Core.Option.{Option, none, some}
use mathlib.Core.List.{List, [], ◌∷◌}
use Prim.Native.String.{String}
use mathlib.Core.Path.{◌≡◌, refl}
use mathlib.Core.Logic.{inl, inr}
use offer_master.Prelude.Tests.{if◌then◌else◌, str_eq, str_eq_refl, str_eq_iff, Bool-cases}
use offer_master.Prelude.Text.{is_empty}

-- A number is kept as its text, with the answer to whether it is other than zero. An object has its
-- items in insertion order.
mutual
  pub data Json : Type 0 where
    null : Json
    bool : Bool → Json
    num : Bool → String → Json
    str : String → Json
    arr : Items → Json
    obj : Fields → Json

  pub data Items : Type 0 where
    nil : Items
    cons : Json → Items → Items

  pub data Fields : Type 0 where
    end : Fields
    field : String → Json → Fields → Fields

-- A list and a dict, from what they hold.
abbrev pub items : List Json → Items
items [] = nil
items (x ∷ xs) = cons x (items xs)

abbrev pub fields : List (String × Json) → Fields
fields [] = end
fields ((k, v) ∷ rest) = field k v (fields rest)

-- `bool(value)`
abbrev pub truthy : Json → Bool
truthy null = false
truthy (bool b) = b
truthy (num nonzero text) = nonzero
truthy (str s) = not (is_empty s)
truthy (arr nil) = false
truthy (arr (cons _ _)) = true
truthy (obj end) = false
truthy (obj (field _ _ _)) = true

-- `d.get(key)`, where a missing key gives None.
unfoldable pub get : String → Fields → Json
get key end = null
get key (field k v rest) = if str_eq k key then v else get key rest

-- `a or b`
abbrev pub or_json : Json → Json → Json
or_json a b = if truthy a then a else b

-- `str(value)`. The text of a list or of a dict is `repr`'s, which is not modelled: it is given.
abbrev pub str_value : (Json → String) → Json → String
str_value repr null = "None"
str_value repr (bool true) = "True"
str_value repr (bool false) = "False"
str_value repr (num nonzero text) = text
str_value repr (str s) = s
str_value repr (arr xs) = repr (arr xs)
str_value repr (obj fs) = repr (obj fs)

-- `d[key] = value`
unfoldable pub insert : String → Json → Fields → Fields
insert key v end = field key v end
insert key v (field k w rest) =
    if str_eq k key then field k v rest else field k w (insert key v rest)

-- An optional text as a value.
abbrev pub opt_str : Option String → Json
opt_str none = null
opt_str (some s) = str s

-- Writing a key is seen under that key,
pub get-insert : (key : String) (v : Json) (fields : Fields) → get key (insert key v fields) ≡ v
unfolding get insert
get-insert key v end = rw (str_eq_refl key) refl
get-insert key v (field k w rest) = elim (Bool-cases (str_eq k key)) [
  | inl same ↦ rw (same, same) refl
  | inr other ↦ rw (other, other) (get-insert key v rest)
]

-- and not under another.
pub get-insert_other :
    (key other : String) (v : Json) (fields : Fields)
    → str_eq other key ≡ false
    → get key (insert other v fields) ≡ get key fields
unfolding get insert
get-insert_other key other v end apart = rw apart refl
get-insert_other key other v (field k w rest) apart = elim (Bool-cases (str_eq k other)) [
  | inl same ↦ rw (same, (str_eq_iff k other).0 same, apart) refl
  | inr differs ↦ rw differs (elim (Bool-cases (str_eq k key)) [
    | inl found ↦ rw found refl
    | inr missed ↦ rw missed (get-insert_other key other v rest apart)
  ])
]

-- The value of a key, if the dict has the key.
unfoldable pub lookup : String → Fields → Option Json
lookup key end = none
lookup key (field k v rest) = if str_eq k key then some v else lookup key rest

-- `d.pop(key, None)`, what it leaves of the dict.
unfoldable pub remove : String → Fields → Fields
remove key end = end
remove key (field k v rest) =
    let removed = remove key rest in if str_eq k key then removed else field k v removed

-- A key that is removed reads as a missing one,
pub get-remove : (key : String) (d : Fields) → get key (remove key d) ≡ null
unfolding get remove
get-remove key end = refl
get-remove key (field k v rest) =
    let removed = get-remove key rest in
    elim (Bool-cases (str_eq k key)) [
      | inl same ↦ rw same removed
      | inr other ↦ rw (other, other) removed
    ]

-- and another key stays.
pub get-remove_other :
    (key other : String) (d : Fields)
    → str_eq other key ≡ false
    → get key (remove other d) ≡ get key d
unfolding get remove
get-remove_other key other end apart = refl
get-remove_other key other (field k v rest) apart =
    let removed = get-remove_other key other rest apart in
    elim (Bool-cases (str_eq k other)) [
      | inl same ↦ rw (same, (str_eq_iff k other).0 same, apart) removed
      | inr differs ↦ elim (Bool-cases (str_eq k key)) [
        | inl found ↦ rw (differs, found) refl
        | inr missed ↦ rw (differs, missed) removed
      ]
    ]
