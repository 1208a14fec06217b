-- ===== src/McpGateway/SqlText/Rounds.antt =====
-- The loop over the SQL text comes to the end of every text with the fuel that it has.
use offer_master.Prelude.{ℕ, zero, suc, ◌≤◌, ◌≡◌, refl, ap, String, Option, none, some, arith}
use Prim.Native.Char.{Char}
use offer_master.McpGateway.SqlText.{
  text_length, skip_one, after_line, after_block, in_quote, in_code, put_out, strip_loop,
}

skip_one_shorter : (s : String) → text_length (skip_one s) ≤ text_length s
skip_one_shorter String.[] = omega arith
skip_one_shorter (String.◌∷◌ c s) = omega arith

after_line_shorter : (s : String) → text_length (after_line s) ≤ text_length s
unfolding after_line
after_line_shorter String.[] = omega arith
after_line_shorter (String.◌∷◌ c s) = ground (arith, after_line_shorter s)

after_block_shorter : (s : String) → text_length (after_block s) ≤ text_length s
unfolding after_block
after_block_shorter String.[] = omega arith
after_block_shorter (String.◌∷◌ c s) = ground (arith, after_block_shorter s, skip_one_shorter s)

in_quote_shorter :
    (quote : ℕ) (c : Char) (s : String) → text_length (in_quote quote c s).2 ≤ text_length s
in_quote_shorter quote c s = ground (arith, skip_one_shorter s)

in_code_shorter : (c : Char) (s : String) → text_length (in_code c s).2 ≤ text_length s
in_code_shorter c s = ground (
  arith,
  skip_one_shorter s,
  after_line_shorter s,
  after_line_shorter (skip_one s),
  after_block_shorter (skip_one s),
)

-- Any two amounts of fuel that reach the length of the text give the same result, from inside a
-- quoted text as well as from outside.
pub strip_loop_enough :
    (fuel more : ℕ) (quote : Option ℕ) (s : String)
    → text_length s ≤ fuel
    → text_length s ≤ more
    → strip_loop fuel quote s ≡ strip_loop more quote s
unfolding strip_loop
strip_loop_enough zero zero quote s enough also = refl
strip_loop_enough zero (suc more) quote String.[] enough also = refl
strip_loop_enough zero (suc more) quote (String.◌∷◌ c s) enough also =
    absurd (omega (arith, enough))
strip_loop_enough (suc fuel) zero quote String.[] enough also = refl
strip_loop_enough (suc fuel) zero quote (String.◌∷◌ c s) enough also = absurd (omega (arith, also))
strip_loop_enough (suc fuel) (suc more) quote String.[] enough also = refl
strip_loop_enough (suc fuel) (suc more) none (String.◌∷◌ c s) enough also =
    let (out, quote, rest) = in_code c s in
    ap (put_out out) (
      strip_loop_enough fuel more quote rest (omega (arith, enough, in_code_shorter c s))
        (omega (arith, also, in_code_shorter c s)))
strip_loop_enough (suc fuel) (suc more) (some open_quote) (String.◌∷◌ c s) enough also =
    let (out, quote, rest) = in_quote open_quote c s in
    ap (put_out out) (
      strip_loop_enough fuel more quote rest
        (omega (arith, enough, in_quote_shorter open_quote c s))
        (omega (arith, also, in_quote_shorter open_quote c s)))
