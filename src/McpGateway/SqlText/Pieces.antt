-- ===== src/McpGateway/SqlText/Pieces.antt =====
-- SQL texts as pieces, and what stripping leaves of them.
use offer_master.Prelude.{
  ℕ, zero, suc, ◌≤◌, ◌≡◌, refl, ap, ◌∙◌, String, Bool, true, false, ◌&&◌, not, none, some, List, [],
  ◌∷◌, ◌==◌, arith,
}
use Prim.Native.Char.{Char, code}
use offer_master.McpGateway.SqlText.{
  text_length, starts, after_line, after_block, is_quote, strip_loop, strip_sql,
}

-- A character of a quoted text: itself, with a backslash before it, or the quote twice.
pub data Quoted : Type 0 where
  itself : Char → Quoted
  escaped : Char → Quoted
  doubled : Quoted

pub data Piece : Type 0 where
  plain : Char → Piece
  literal : Char → List Quoted → Piece
  hash_comment : String → Piece
  dash_comment : String → Piece
  block_comment : String → Piece

-- The text `s` in front of `t`.
abbrev before : String → String → String
before String.[] t = t
before (String.◌∷◌ c s) t = String.◌∷◌ c (before s t)

abbrev write_quoted : Char → List Quoted → String → String
write_quoted quote [] t = String.◌∷◌ quote t
write_quoted quote (itself c ∷ content) t = String.◌∷◌ c (write_quoted quote content t)
write_quoted quote (escaped c ∷ content) t =
    String.◌∷◌ "\\" (String.◌∷◌ c (write_quoted quote content t))
write_quoted quote (doubled ∷ content) t =
    String.◌∷◌ quote (String.◌∷◌ quote (write_quoted quote content t))

abbrev write_piece : Piece → String → String
write_piece (plain c) t = String.◌∷◌ c t
write_piece (literal quote content) t = String.◌∷◌ quote (write_quoted quote content t)
write_piece (hash_comment text) t = String.◌∷◌ "#" (before text (String.◌∷◌ "\n" t))
write_piece (dash_comment text) t =
    String.◌∷◌ "-" (String.◌∷◌ "-" (before text (String.◌∷◌ "\n" t)))
write_piece (block_comment text) t =
    String.◌∷◌ "/" (String.◌∷◌ "*" (before text (String.◌∷◌ "*" (String.◌∷◌ "/" t))))

abbrev pub write : List Piece → String
write [] = String.[]
write (p ∷ pieces) = write_piece p (write pieces)

-- What is left: the plain characters, and one blank for each other piece.
abbrev pub erase : List Piece → String
erase [] = String.[]
erase (plain c ∷ pieces) = String.◌∷◌ c (erase pieces)
erase (_ ∷ pieces) = String.◌∷◌ " " (erase pieces)

abbrev quoted_ok : Char → List Quoted → Bool
quoted_ok quote [] = true
quoted_ok quote (itself c ∷ content) =
    not (code c == code quote) && (not (code c == 92) && quoted_ok quote content)
quoted_ok quote (escaped c ∷ content) = quoted_ok quote content
quoted_ok quote (doubled ∷ content) = quoted_ok quote content

abbrev one_line : String → Bool
one_line String.[] = true
one_line (String.◌∷◌ c s) = not (code c == 10) && one_line s

-- The text has no `*/` in it.
abbrev unclosed : String → Bool
unclosed String.[] = true
unclosed (String.◌∷◌ c s) = not (code c == 42 && starts 47 s) && unclosed s

-- A plain character opens nothing, with the text that follows it.
abbrev opens_nothing : Char → String → Bool
opens_nothing c t =
    not (is_quote (code c))
    && (not (code c == 45 && starts 45 t)
        && (not (code c == 35) && not (code c == 47 && starts 42 t)))

abbrev piece_ok : Piece → String → Bool
piece_ok (plain c) t = opens_nothing c t
piece_ok (literal quote content) t =
    is_quote (code quote) && (quoted_ok quote content && not (starts (code quote) t))
piece_ok (hash_comment text) t = one_line text
piece_ok (dash_comment text) t = one_line text
piece_ok (block_comment text) t = unclosed text

-- Each piece is what it is called, also with the text behind it.
abbrev pub IsSql : List Piece → Type 0
IsSql [] = Unit
IsSql (p ∷ pieces) = (piece_ok p (write pieces) ≡ true) × IsSql pieces

after_line-before :
    (text t : String) → one_line text ≡ true → after_line (before text (String.◌∷◌ "\n" t)) ≡ t
unfolding after_line
after_line-before String.[] t ok = refl
after_line-before (String.◌∷◌ c s) t ok = ground (arith, after_line-before s t, ok)

close_block :
    (s t : String) (c : Char)
    → (code c == 42 && starts 47 s) ≡ false
    → (code c == 42 && starts 47 (before s (String.◌∷◌ "*" t))) ≡ false
close_block String.[] t c apart = ground arith
close_block (String.◌∷◌ d s) t c apart = apart

after_block-before :
    (text t : String)
    → unclosed text ≡ true
    → after_block (before text (String.◌∷◌ "*" (String.◌∷◌ "/" t))) ≡ t
unfolding after_block
after_block-before String.[] t ok = refl
after_block-before (String.◌∷◌ c s) t ok =
    ground (arith, after_block-before s t, close_block s (String.◌∷◌ "/" t) c, ok)

length-before : (s t : String) → text_length t ≤ text_length (before s t)
length-before String.[] t = omega arith
length-before (String.◌∷◌ c s) t = omega (arith, length-before s t)

-- What the loop does with a quoted text: it comes out behind it, with enough fuel left.
quoted_round :
    (quote : Char) (content : List Quoted) (t : String) (fuel : ℕ)
    → quoted_ok quote content ≡ true
    → is_quote (code quote) ≡ true
    → starts (code quote) t ≡ false
    → text_length (write_quoted quote content t) ≤ fuel
    → (left : ℕ) × (text_length t ≤ left)
      × (strip_loop fuel (some (code quote)) (write_quoted quote content t)
          ≡ strip_loop left none t)
unfolding strip_loop
quoted_round quote [] t zero ok q closed enough = absurd (omega (arith, enough))
quoted_round quote [] t (suc fuel) ok q closed enough =
    (fuel, omega (arith, enough), ground (arith, q, closed))
quoted_round quote (itself c ∷ content) t zero ok q closed enough = absurd (omega (arith, enough))
quoted_round quote (itself c ∷ content) t (suc fuel) ok q closed enough =
    let (left, fits, e) =
      quoted_round quote content t fuel (ground (arith, ok)) q closed (omega (arith, enough)) in
    (left, fits, itself_round ∙ e)
  where
    itself_round :
        strip_loop (suc fuel) (some (code quote)) (String.◌∷◌ c (write_quoted quote content t))
        ≡ strip_loop fuel (some (code quote)) (write_quoted quote content t)
    itself_round = ground (arith, ok)
quoted_round quote (escaped c ∷ content) t zero ok q closed enough = absurd (omega (arith, enough))
quoted_round quote (escaped c ∷ content) t (suc fuel) ok q closed enough =
    quoted_round quote content t fuel ok q closed (omega (arith, enough))
quoted_round quote (doubled ∷ content) t zero ok q closed enough = absurd (omega (arith, enough))
quoted_round quote (doubled ∷ content) t (suc fuel) ok q closed enough =
    let (left, fits, e) = quoted_round quote content t fuel ok q closed (omega (arith, enough)) in
    (left, fits, doubled_round ∙ e)
  where
    doubled_round :
        strip_loop
          (suc fuel)
          (some (code quote))
          (String.◌∷◌ quote (String.◌∷◌ quote (write_quoted quote content t)))
        ≡ strip_loop fuel (some (code quote)) (write_quoted quote content t)
    doubled_round = ground (arith, q)

loop-write :
    (pieces : List Piece) (fuel : ℕ)
    → IsSql pieces
    → text_length (write pieces) ≤ fuel
    → strip_loop fuel none (write pieces) ≡ erase pieces
unfolding strip_loop
loop-write [] zero ok enough = refl
loop-write [] (suc fuel) ok enough = refl
loop-write (plain c ∷ pieces) zero ok enough = absurd (omega (arith, enough))
loop-write (plain c ∷ pieces) (suc fuel) (ok, rest) enough =
    ground (arith, ok, loop-write pieces fuel rest (omega (arith, enough)))
loop-write (literal quote content ∷ pieces) zero ok enough = absurd (omega (arith, enough))
loop-write (literal quote content ∷ pieces) (suc fuel) (ok, rest) enough =
    let (left, fits, e) =
      quoted_round quote content (write pieces) fuel (ground (arith, ok)) (ground (arith, ok))
        (ground (arith, ok)) (omega (arith, enough)) in
    ground (arith, ok, e, loop-write pieces left rest fits)
loop-write (hash_comment text ∷ pieces) zero ok enough = absurd (omega (arith, enough))
loop-write (hash_comment text ∷ pieces) (suc fuel) (ok, rest) enough =
    rw (after_line-before text (write pieces) ok) (
      ap (λ (s : String). String.◌∷◌ " " s)
        (loop-write pieces fuel rest
          (omega (arith, enough, length-before text (String.◌∷◌ "\n" (write pieces))))))
loop-write (dash_comment text ∷ pieces) zero ok enough = absurd (omega (arith, enough))
loop-write (dash_comment text ∷ pieces) (suc fuel) (ok, rest) enough =
    rw (after_line-before text (write pieces) ok) (
      ap (λ (s : String). String.◌∷◌ " " s)
        (loop-write pieces fuel rest
          (omega (arith, enough, length-before text (String.◌∷◌ "\n" (write pieces))))))
loop-write (block_comment text ∷ pieces) zero ok enough = absurd (omega (arith, enough))
loop-write (block_comment text ∷ pieces) (suc fuel) (ok, rest) enough =
    rw (after_block-before text (write pieces) ok) (
      ap (λ (s : String). String.◌∷◌ " " s)
        (loop-write pieces fuel rest (
          omega
            (arith, enough, length-before text (String.◌∷◌ "*" (String.◌∷◌ "/" (write pieces)))))))

-- Of an SQL text that is made of plain characters, literals with backslash or doubled quotes inside,
-- and line and block comments, stripping leaves the plain characters in order and one blank for
-- each other piece, whatever stands in it.
pub strip_sql-write : (pieces : List Piece) → IsSql pieces → strip_sql (write pieces) ≡ erase pieces
unfolding strip_sql
strip_sql-write pieces ok = loop-write pieces (text_length (write pieces)) ok (omega arith)
