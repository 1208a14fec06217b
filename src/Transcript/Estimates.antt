-- ===== src/Transcript/Estimates.antt =====
-- How far the estimate of a text's tokens is from the number of its characters.
use offer_master.Prelude.{
  ℕ, suc, ◌+◌, ◌*◌, ◌≤◌, ◌≡◌, refl, inl, inr, String, true, false, some, if◌then◌else◌, arith,
  Bool-cases,
}
use Prim.Native.Char.{Char, code}
use offer_master.Prelude.Text.{is_empty, is_space, strip, lstrip, rstrip, rstrip_cons}
use offer_master.Transcript.TokenBudget.{Counts, count_chars, tokens_of, estimate_tokens}

-- The characters of a text that are not white space.
abbrev pub non_space : String → ℕ
non_space String.[] = 0
non_space (String.◌∷◌ c s) = let rest = non_space s in if is_space (code c) then rest else suc rest

abbrev all_of : Counts → ℕ
all_of n = n.cjk_chars + n.ascii_non_space + n.other_non_space

all_of-count_chars : (s : String) → all_of (count_chars s) ≡ non_space s
unfolding count_chars
all_of-count_chars String.[] = refl
all_of-count_chars (String.◌∷◌ c s) = elim (Bool-cases (is_space (code c))) [
  | inl space ↦ rw space (all_of-count_chars s)
  | inr char ↦ ground (arith, char, all_of-count_chars s)
]

rstrip_cons-non_space :
    (c : Char) (s : String) → is_space (code c) ≡ false → 1 ≤ non_space (rstrip_cons c s)
rstrip_cons-non_space c String.[] char = rw (char, char) (omega arith)
rstrip_cons-non_space c (String.◌∷◌ d s) char = rw char (omega arith)

strip-non_space : (s : String) → is_empty (strip s) ≡ false → 1 ≤ non_space (strip s)
unfolding strip lstrip rstrip
strip-non_space String.[] full = cc
strip-non_space (String.◌∷◌ c s) full = elim (Bool-cases (is_space (code c))) [
  | inl space ↦ rw space (strip-non_space s (simp space at full))
  | inr char ↦ rw char (rstrip_cons-non_space c (rstrip s) char)
]

tokens_of-bounds :
    (n : Counts) → 1 ≤ all_of n → (tokens_of n ≤ all_of n) × (all_of n ≤ 4 * tokens_of n)
tokens_of-bounds n some_chars = (ground arith, ground arith)

none_left : (s : String) → is_empty s ≡ true → non_space s ≡ 0
none_left String.[] empty = refl
none_left (String.◌∷◌ c s) empty = cc

estimate_of :
    (text s : String)
    → is_empty text ≡ false
    → strip text ≡ s
    → (is_empty s ≡ false → 1 ≤ non_space s)
    → (estimate_tokens (some text) ≤ non_space s) × (non_space s ≤ 4 * estimate_tokens (some text))
unfolding estimate_tokens
estimate_of text s full e positive = elim (Bool-cases (is_empty s)) [
  | inl blank ↦ rw (e, full, blank, none_left s blank) (omega arith, omega arith)
  | inr some_chars ↦
      let counted = all_of-count_chars s in
      let (upper, lower) =
        tokens_of-bounds (count_chars s) (omega (arith, counted, positive some_chars)) in
      rw (e, full, some_chars) (omega (arith, counted, upper), omega (arith, counted, lower))
]

-- A text is taken to have at most as many tokens as the stripped text has characters that are not
-- white space, and at least a quarter as many.
pub estimate_tokens-bounds :
    (text : String)
    → (estimate_tokens (some text) ≤ non_space (strip text))
      × (non_space (strip text) ≤ 4 * estimate_tokens (some text))
unfolding estimate_tokens strip lstrip rstrip
estimate_tokens-bounds String.[] = (omega arith, omega arith)
estimate_tokens-bounds (String.◌∷◌ c s) =
    estimate_of (String.◌∷◌ c s) (strip (String.◌∷◌ c s)) refl refl
      (strip-non_space (String.◌∷◌ c s))
