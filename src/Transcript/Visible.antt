-- ===== src/Transcript/Visible.antt =====
-- What the visible transcript depends on.
use offer_master.Prelude.{◌≡◌, refl, ap, sym, ◌∙◌, String, Option, none, some, List, [], ◌∷◌, map}
use offer_master.Transcript.{Message}
use offer_master.Transcript.Hygiene.{filter_visible_transcript, keep_visible, visible_text}

-- A message without what only the runtime sees.
abbrev pub public_part : Message → Message
public_part m = record m { runtime_content_text = none; content_json = none }

keep_public :
    (text : Option String) (m : Message) (rest : List Message)
    → keep_visible text (public_part m) rest ≡ keep_visible text m rest
keep_public none m rest = refl
keep_public (some text) m rest = refl

filter_public :
    (messages : List Message)
    → filter_visible_transcript (map public_part messages) ≡ filter_visible_transcript messages
filter_public [] = refl
filter_public (m ∷ messages) =
    keep_public (visible_text m) m (filter_visible_transcript (map public_part messages))
    ∙ ap (keep_visible (visible_text m) m) (filter_public messages)

-- The texts and the contents that only the runtime sees have no influence on the visible
-- transcript: two transcripts that agree in all other parts have the same one.
pub filter_visible_transcript-public :
    (messages others : List Message)
    → map public_part messages ≡ map public_part others
    → filter_visible_transcript messages ≡ filter_visible_transcript others
filter_visible_transcript-public messages others same =
    sym (filter_public messages) ∙ ap filter_visible_transcript same ∙ filter_public others
