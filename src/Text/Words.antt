-- ===== src/Text/Words.antt =====
-- Membership of a text in a set of texts, and putting texts together again after a split.
use scalable_content_platfor.Base.{ℕ, Bool, false, ◌||◌, List, [], ◌∷◌}
use scalable_content_platfor.Text.{Text, text_eq}

-- `text in items`
unfoldable pub contains : List Text → Text → Bool
unfolding text_eq
contains [] text = false
contains (t ∷ ts) text = text_eq t text || contains ts text

-- A character in front of the first of the parts of a split.
abbrev pub put_char : ℕ → List Text → List Text
put_char c [] = (c ∷ []) ∷ []
put_char c (line ∷ lines) = (c ∷ line) ∷ lines
