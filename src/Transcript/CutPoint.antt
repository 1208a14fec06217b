-- ===== src/Transcript/CutPoint.antt =====
-- Where the transcript is cut: what is kept, how much it is, and that no result loses its call.
use offer_master.Prelude.{
  ℕ, zero, suc, ◌+◌, ◌≤◌, ◌<◌, ◌≡◌, refl, sym, ap, subst, ◌∙◌, ◌⊎◌, inl, inr, ◌≢◌, true, false,
  ◌&&◌, Option, none, some, List, [], ◌∷◌, ◌++◌, length, take, drop, get_elem?, ltb, arith,
  Bool-cases, take-append-drop, str_eq, str_eq_iff,
}
use offer_master.Prelude.Int.{ℤ}
use offer_master.Transcript.{Message, is_tool_call, is_tool_result}
use offer_master.Transcript.TokenBudget.{estimate_message_tokens, exceeds}
use offer_master.Transcript.CallPairs.{
  BeginsWithPair, Separates, whole-Separates, moved, length-take,
}
use offer_master.Transcript.Compaction.{
  tokens_at, splits, would_split_tool_pair, scan, widen, first_id, find_cut_point,
}

estimate-drop :
    (messages : List Message) (index : ℕ)
    → index < length messages
    → estimate_message_tokens (drop index messages)
      ≡ tokens_at messages index + estimate_message_tokens (drop (suc index) messages)
estimate-drop [] index inside = omega (arith, inside)
estimate-drop (m ∷ messages) zero inside = refl
estimate-drop (m ∷ messages) (suc index) inside = estimate-drop messages index (omega arith)

drop-length :
    (messages : List Message) → estimate_message_tokens (drop (length messages) messages) ≡ 0
drop-length [] = refl
drop-length (m ∷ messages) = drop-length messages

drop-first_id :
    (messages : List Message) (index : ℕ)
    → index < length messages
    → (m : Message) × (first_id (drop index messages) ≡ some m.id)
      × (get_elem? messages index ≡ some m)
drop-first_id [] index inside = absurd (omega arith)
drop-first_id (m ∷ messages) zero inside = (m, refl, refl)
drop-first_id (m ∷ messages) (suc index) inside = drop-first_id messages index (omega arith)

roles_differ : str_eq "tool_call" "tool_result" ≡ false
unfolding str_eq
roles_differ = refl

tool_roles : (m : Message) → (is_tool_call m && is_tool_result m) ≡ false
tool_roles m = elim (Bool-cases (is_tool_call m)) [
  | inl call ↦ rw (call, (str_eq_iff m.role "tool_call").0 call) roles_differ
  | inr other ↦ rw other refl
]

lt_ltb : {a b : ℕ} → a < b → ltb a b ≡ true
lt_ltb h = ground arith

splits_once : (a b c : Option Message) → splits b c ≡ true → splits a b ≡ false
splits_once none b c pair = refl
splits_once (some x) none c pair = refl
splits_once (some x) (some y) none pair = cc
splits_once (some x) (some y) (some z) pair = ground (arith, tool_roles y, pair)

drop_longer :
    (messages : List Message) (n : ℕ)
    → n ≡ length messages
    → estimate_message_tokens (drop n messages) ≡ 0
drop_longer messages n e =
    ap (λ i. estimate_message_tokens (drop i messages)) e ∙ drop-length messages

module _ (messages : List Message) where
  abbrev IsSum : ℕ × ℕ → Type 0
  IsSum (running, cut) = running ≡ estimate_message_tokens (drop cut messages)

  -- What the first loop ends with: the kept messages fit, or only the last one is kept.
  abbrev Fits : ℤ → ℕ × ℕ → Type 0
  Fits keep (running, cut) = (exceeds running keep ≡ false) ⊎ (suc cut ≡ length messages)

  -- ... and one more message would not have fitted.
  abbrev IsGreedy : ℤ → ℕ → Type 0
  IsGreedy keep cut =
      (previous : ℕ)
      → suc previous ≡ cut
      → exceeds (estimate_message_tokens (drop previous messages)) keep ≡ true

  abbrev Scanned : ℤ → ℕ × ℕ → Type 0
  Scanned keep s = (s.1 < length messages) × IsSum s × Fits keep s × IsGreedy keep s.1

  greedy :
      (keep : ℤ) (index : ℕ)
      → exceeds (estimate_message_tokens (drop index messages)) keep ≡ true
      → IsGreedy keep (suc index)
  greedy keep index over previous e =
      let same : index ≡ previous = omega (arith, e) in
      subst (λ (i : ℕ). exceeds (estimate_message_tokens (drop i messages)) keep ≡ true) same over

  scan_later :
      (keep : ℤ) (index running : ℕ)
      → index < length messages
      → running ≡ estimate_message_tokens (drop index messages)
      → Fits keep (running, index)
      → Scanned keep (scan messages keep index running index)
  unfolding scan
  scan_later keep zero running inside sum fits =
      (inside, sum, fits, λ previous e. absurd (omega (arith, e)))
  scan_later keep (suc index) running inside sum fits =
      let grown : running + tokens_at messages index
          ≡ estimate_message_tokens (drop index messages) =
        omega (arith, estimate-drop messages index (omega arith), sum) in
      elim (Bool-cases (exceeds (running + tokens_at messages index) keep)) [
        | inl over ↦
            rw (over, lt_ltb inside) (inside, sum, fits, greedy keep index (rw (← grown) over))
        | inr under ↦
            rw (under, lt_ltb inside)
              (scan_later keep index (running + tokens_at messages index) (omega arith) grown
                (inl under))
      ]

  -- The last message is always taken.
  scan_first :
      (keep : ℤ) (last : ℕ)
      → suc last ≡ length messages
      → scan messages keep (length messages) 0 (length messages)
        ≡ scan messages keep last (tokens_at messages last) last
  unfolding scan
  scan_first keep last e =
      let outside : ltb (suc last) (length messages) ≡ false = ground (arith, e) in
      let start : 0 + tokens_at messages last ≡ tokens_at messages last = omega arith in
      ap (λ (n : ℕ). scan messages keep n 0 n) (sym e) ∙ rw (outside, start) refl

  scan-Scanned :
      (keep : ℤ) (last : ℕ)
      → suc last ≡ length messages
      → Scanned keep (scan messages keep (length messages) 0 (length messages))
  scan-Scanned keep last e = subst (Scanned keep) (sym (scan_first keep last e)) (
      scan_later keep last (tokens_at messages last) (omega (arith, e))
        (omega (
          arith,
          estimate-drop messages last (omega (arith, e)),
          drop_longer messages (suc last) e,
        ))
        (inr e))

  abbrev Widened : ℕ → ℕ × ℕ → Type 0
  Widened cut w =
      IsSum w
      × (would_split_tool_pair messages w.1 ≡ false)
      × (w.1 ≤ cut)
      × ((cut ≡ w.1) ⊎ ((cut ≡ suc w.1) × (would_split_tool_pair messages cut ≡ true)))

  stay_whole :
      (running cut : ℕ)
      → would_split_tool_pair messages cut ≡ false
      → widen messages running cut ≡ (running, cut)
  unfolding widen
  stay_whole running zero whole = refl
  stay_whole running (suc previous) whole = rw whole refl

  front_whole :
      (previous : ℕ)
      → would_split_tool_pair messages (suc previous) ≡ true
      → would_split_tool_pair messages previous ≡ false
  front_whole zero split = refl
  front_whole (suc before) split =
      splits_once (get_elem? messages before) (get_elem? messages (suc before))
        (get_elem? messages (suc (suc before))) split

  widen-Widened :
      (running cut : ℕ)
      → cut < length messages
      → IsSum (running, cut)
      → Widened cut (widen messages running cut)
  unfolding widen
  widen-Widened running zero inside sum = (sum, refl, omega arith, inl refl)
  widen-Widened running (suc previous) inside sum =
      elim (Bool-cases (would_split_tool_pair messages (suc previous))) [
        | inl split ↦
            rw
              (
                split,
                stay_whole (running + tokens_at messages previous) previous
                    (front_whole previous split),
              )
              (
                omega (arith, estimate-drop messages previous (omega arith), sum),
                front_whole previous split,
                omega arith,
                inr (refl, refl),
              )
        | inr whole ↦ rw whole (sum, whole, omega arith, inl refl)
      ]

drop-append :
    (n : ℕ) (messages : List Message) → n < length messages → (length (drop n messages) ≢ 0)
drop-append zero [] inside = absurd (omega arith)
drop-append zero (m ∷ messages) inside = λ e. omega (arith, e)
drop-append (suc n) [] inside = absurd (omega arith)
drop-append (suc n) (m ∷ messages) inside = drop-append n messages (omega arith)

module _ (message : Message) (rest : List Message) (keep : ℤ) where
  -- A transcript that is not empty is cut into what is summarized and what is kept: nothing is lost
  -- or moved, something is kept, the estimate is the one of the kept messages, and it is not so that
  -- the last summarized message is a tool call and the first kept one its result.
  pub find_cut_point_lem :
      let cut = find_cut_point (message ∷ rest) keep in
      (cut.messages_to_summarize ++ cut.recent_messages_to_keep ≡ message ∷ rest)
      × (length cut.recent_messages_to_keep ≢ 0)
      × (cut.kept_token_estimate ≡ estimate_message_tokens cut.recent_messages_to_keep)
      × (¬ (Separates cut))
  unfolding find_cut_point
  find_cut_point_lem =
      let messages = message ∷ rest in
      let s = scan messages keep (length messages) 0 (length messages) in
      let w = widen messages s.0 s.1 in
      let (inside, sum, fits, greedy) = scan-Scanned messages keep (length rest) refl in
      let (sum', whole, below, near) = widen-Widened messages s.0 s.1 inside sum in
      (
        take-append-drop w.1 messages,
        drop-append w.1 messages (omega (arith, inside, below)),
        sum',
        whole-Separates messages w.1 (find_cut_point messages keep) refl refl
            (omega (arith, inside, below)) whole,
      )

  -- There is a position from which the messages fit the budget or are the last message alone, and
  -- with the message before it they would not fit. The cut is at this position, or one before it if
  -- what is kept then begins with a tool call and, at the position, its result. So what is kept is
  -- as much as fits, and at most one tool call in front of it.
  pub find_cut_point-budget :
      let cut = find_cut_point (message ∷ rest) keep in
      (position : ℕ) × ((position ≡ length cut.messages_to_summarize)
        ⊎ ((position ≡ suc (length cut.messages_to_summarize))
            × BeginsWithPair cut.recent_messages_to_keep))
      × ((exceeds (estimate_message_tokens (drop position (message ∷ rest))) keep ≡ false)
          ⊎ (suc position ≡ length (message ∷ rest)))
      × ((previous : ℕ)
          → suc previous ≡ position
          → exceeds (estimate_message_tokens (drop previous (message ∷ rest))) keep ≡ true)
  unfolding find_cut_point
  find_cut_point-budget =
      let messages = message ∷ rest in
      let s = scan messages keep (length messages) 0 (length messages) in
      let w = widen messages s.0 s.1 in
      let (inside, sum, fits, greedy) = scan-Scanned messages keep (length rest) refl in
      let (sum', whole, below, near) = widen-Widened messages s.0 s.1 inside sum in
      let size : length (take w.1 messages) ≡ w.1 =
        length-take w.1 messages (omega (arith, inside, below)) in
      (
        s.1,
        moved messages s.1 w.1 size near,
        subst (λ (n : ℕ). (exceeds n keep ≡ false) ⊎ (suc s.1 ≡ length messages)) sum fits,
        greedy,
      )
