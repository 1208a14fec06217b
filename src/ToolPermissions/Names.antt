-- ===== src/ToolPermissions/Names.antt =====
-- Lists of tool names: stripping and removing duplicates once is enough, and neither changes which
-- names are in the list.
use offer_master.Prelude.{
  ◌≡◌, refl, ap, ◌∙◌, String, true, false, ◌||◌, List, [], ◌∷◌, ◌++◌, str_eq, str_eq_iff,
  Bool-cases, inl, inr, All, arith,
}
use offer_master.Prelude.Text.{is_empty, is_space, strip, lstrip, rstrip, rstrip_cons}
use Prim.Native.Char.{Char, code}
use offer_master.ToolPermissions.{contains_tool, dedupe_from, dedupe, stripped}

-- No name stands twice, and none is among those seen.
abbrev Fresh : List String → List String → Type 0
Fresh seen [] = Unit
Fresh seen (name ∷ names) = (contains_tool seen name ≡ false) × Fresh (name ∷ seen) names

dedupe_from-Fresh : (seen items : List String) → Fresh seen (dedupe_from seen items)
dedupe_from-Fresh seen [] = tt
dedupe_from-Fresh seen (item ∷ items) = elim (Bool-cases (contains_tool seen item)) [
  | inl old ↦ rw old (dedupe_from-Fresh seen items)
  | inr new ↦ rw new (new, dedupe_from-Fresh (item ∷ seen) items)
]

Fresh-dedupe_from : (seen names : List String) → Fresh seen names → dedupe_from seen names ≡ names
Fresh-dedupe_from seen [] fresh = refl
Fresh-dedupe_from seen (name ∷ names) (new, fresh) =
    rw new (ap (λ l. name ∷ l) (Fresh-dedupe_from (name ∷ seen) names fresh))

pub dedupe-dedupe : (items : List String) → dedupe (dedupe items) ≡ dedupe items
dedupe-dedupe items = Fresh-dedupe_from [] (dedupe items) (dedupe_from-Fresh [] items)

contains_equal :
    (x k : String) (names : List String)
    → str_eq x k ≡ true
    → contains_tool names x ≡ contains_tool names k
contains_equal x k names same = ap (contains_tool names) ((str_eq_iff x k).0 same)

contains-dedupe_from :
    (k : String) (seen items : List String)
    → (contains_tool seen k || contains_tool (dedupe_from seen items) k)
      ≡ (contains_tool seen k || contains_tool items k)
contains-dedupe_from k seen [] = refl
contains-dedupe_from k seen (item ∷ items) = ground (
  arith,
  contains-dedupe_from k seen items,
  contains-dedupe_from k (item ∷ seen) items,
  contains_equal item k seen,
)

pub contains-dedupe :
    (k : String) (items : List String) → contains_tool (dedupe items) k ≡ contains_tool items k
contains-dedupe k items = contains-dedupe_from k [] items

pub contains-append :
    (k : String) (xs ys : List String)
    → contains_tool (xs ++ ys) k ≡ (contains_tool xs k || contains_tool ys k)
contains-append k [] ys = refl
contains-append k (x ∷ xs) ys = ground (arith, contains-append k xs ys)

-- A text that stripping leaves as it is, and that is not empty.
abbrev pub IsName : String → Type 0
IsName s = (strip s ≡ s) × (is_empty s ≡ false)

rstrip-rstrip_cons :
    (c : Char) (s : String) → rstrip s ≡ s → rstrip (rstrip_cons c s) ≡ rstrip_cons c s
unfolding rstrip
rstrip-rstrip_cons c String.[] clean = elim (Bool-cases (is_space (code c))) [
  | inl space ↦ rw space refl
  | inr char ↦ rw (char, char) refl
]
rstrip-rstrip_cons c (String.◌∷◌ d s) clean = ap (rstrip_cons c) clean

rstrip-rstrip : (s : String) → rstrip (rstrip s) ≡ rstrip s
unfolding rstrip
rstrip-rstrip String.[] = refl
rstrip-rstrip (String.◌∷◌ c s) = rstrip-rstrip_cons c (rstrip s) (rstrip-rstrip s)

lstrip-rstrip_cons :
    (c : Char) (s : String) → is_space (code c) ≡ false → lstrip (rstrip_cons c s) ≡ rstrip_cons c s
unfolding lstrip
lstrip-rstrip_cons c String.[] char = rw (char, char) refl
lstrip-rstrip_cons c (String.◌∷◌ d s) char = rw char refl

lstrip-strip : (s : String) → lstrip (rstrip (lstrip s)) ≡ rstrip (lstrip s)
unfolding lstrip rstrip
lstrip-strip String.[] = refl
lstrip-strip (String.◌∷◌ c s) = elim (Bool-cases (is_space (code c))) [
  | inl space ↦ rw space (lstrip-strip s)
  | inr char ↦ rw char (lstrip-rstrip_cons c (rstrip s) char)
]

-- Stripping a text twice is stripping it once.
pub strip-strip : (s : String) → strip (strip s) ≡ strip s
unfolding strip
strip-strip s = ap rstrip (lstrip-strip s) ∙ rstrip-rstrip (lstrip s)

pub stripped-names : (items : List String) → All IsName (stripped items)
unfolding stripped
stripped-names [] = tt
stripped-names (item ∷ items) = elim (Bool-cases (is_empty (strip item))) [
  | inl blank ↦ rw blank (stripped-names items)
  | inr name ↦ rw name ((strip-strip item, name), stripped-names items)
]

pub stripped_names : (names : List String) → All IsName names → stripped names ≡ names
unfolding stripped
stripped_names [] clean = refl
stripped_names (name ∷ names) ((same, full), clean) =
    rw (same, full) (ap (λ l. name ∷ l) (stripped_names names clean))

pub dedupe_from-names :
    (seen items : List String) → All IsName items → All IsName (dedupe_from seen items)
dedupe_from-names seen [] clean = tt
dedupe_from-names seen (item ∷ items) (name, clean) = elim (Bool-cases (contains_tool seen item)) [
  | inl old ↦ rw old (dedupe_from-names seen items clean)
  | inr new ↦ rw new (name, dedupe_from-names (item ∷ seen) items clean)
]
