-- ===== src/Prelude/JsonText.antt =====
-- `json.dumps(value, ensure_ascii=False, sort_keys=True, separators=(comma, colon))`.
use Prim.Native.Nat.{ℕ, ◌/◌, ◌%◌}
use Prim.Native.Char.{code}
use Prim.Native.String.{String, ◌++◌ as ◌<>◌}
use mathlib.Core.Path.{◌≡◌, refl}
use mathlib.Core.Bool.{Bool, true, false}
use mathlib.Core.List.{List, [], ◌∷◌, map}
use offer_master.Prelude.Tests.{ltb, ◌==◌, if◌then◌else◌}
use offer_master.Prelude.Text.{join, str_leb, show}
use offer_master.Prelude.Json.{
  Json, null, bool, num, str, arr, obj, Items, nil, cons, Fields, field, end,
}
use offer_master.Prelude.Sort.{sorted}

hex : ℕ → String
hex n =
    if ltb n 10
    then show n
    else if n == 10
    then "a"
    else if n == 11
    then "b"
    else if n == 12
    then "c"
    else if n == 13
    then "d"
    else if n == 14
    then "e"
    else "f"

-- A control character below 32 in the four digits of its number.
control : ℕ → String
control c = "\\u00" <> (hex (c / 16) <> hex (c % 16))

escape : String → String
escape String.[] = String.[]
escape (String.◌∷◌ c s) =
    let rest = escape s in
    if code c == 34
    then "\\\"" <> rest
    else if code c == 92
    then "\\\\" <> rest
    else if code c == 10
    then "\\n" <> rest
    else if code c == 13
    then "\\r" <> rest
    else if code c == 9
    then "\\t" <> rest
    else if code c == 8
    then "\\b" <> rest
    else if code c == 12
    then "\\f" <> rest
    else if ltb (code c) 32
    then control (code c) <> rest
    else String.◌∷◌ c rest

unfoldable pub quote : String → String
unfolding escape control hex
quote s = "\"" <> (escape s <> "\"")

abbrev key_leb : String × String → String × String → Bool
key_leb (a, _) (b, _) = str_leb a b

abbrev dump_bool : Bool → String
dump_bool true = "true"
dump_bool false = "false"

module _ (comma colon : String) where
  abbrev member : String × String → String
  member (k, v) = quote k <> (colon <> v)

  mutual
    dump : Json → String
    dump null = "null"
    dump (bool b) = dump_bool b
    dump (num nonzero text) = text
    dump (str s) = quote s
    dump (arr items) = "[" <> (join comma (dump_items items) <> "]")
    dump (obj fields) =
        "{" <> (join comma (map member (sorted key_leb (dump_fields fields))) <> "}")

    dump_items : Items → List String
    dump_items nil = []
    dump_items (cons v items) = dump v ∷ dump_items items

    dump_fields : Fields → List (String × String)
    dump_fields end = []
    dump_fields (field k v fields) = (k, dump v) ∷ dump_fields fields

  unfoldable pub dumps : Json → String
  unfolding dump dump_items dump_fields quote
  dumps value = dump value

dumps_sorted :
    dumps "," ":" (obj (field "b" (arr (cons null nil)) (field "a" (str "x\"\n") end)))
    ≡ "{\"a\":\"x\\\"\\n\",\"b\":[null]}"
unfolding dumps sorted str_leb join show
dumps_sorted = refl
