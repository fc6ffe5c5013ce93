-- ===== src/Observability/Sql.antt =====
-- The verb that a SQL statement is counted under (`sql_operation` of app/observability/metrics.py),
-- with the pattern `_LEADING_NOISE` as the automaton that reads it: its alternatives begin with
-- different characters, so a greedy match never goes back. White space is that of Latin-1.
pub mod Noise
use scalable_content_platfor.Base.{
  ℕ, ◌+◌, Bool, true, false, ◌&&◌, ◌||◌, List, [], ◌∷◌, leb, ◌==◌, if◌then◌else◌,
}
use scalable_content_platfor.Text.{Text, codes, text_eq}
use scalable_content_platfor.Text.Words.{contains}
use scalable_content_platfor.Api.Auth.{is_space, lower}

-- Between two pieces of noise; after one dash or one slash; in a comment to the end of the line; in
-- a bracketed comment, and after a star in it. What may turn out to be no noise is kept.
pub data Mode : Type 0 where
  code line_comment : Mode
  dash slash block_comment star : Text → Mode

pub data Next : Type 0 where
  stop : Text → Next
  go : Mode → Next

-- One character, with the text behind it.
abbrev pub step : Mode → ℕ → Text → Next
step code c s =
    if is_space c || c == b'('
    then go code
    else if c == b'-'
    then go (dash (c ∷ s))
    else if c == b'/'
    then go (slash (c ∷ s))
    else stop (c ∷ s)
step line_comment c s = if c == 10 then go code else go line_comment
step (dash kept) c s = if c == b'-' then go line_comment else stop kept
step (slash kept) c s = if c == b'*' then go (block_comment kept) else stop kept
step (block_comment kept) c s = if c == b'*' then go (star kept) else go (block_comment kept)
step (star kept) c s =
    if c == b'/' then go code else if c == b'*' then go (star kept) else go (block_comment kept)

abbrev pub at_end : Mode → Text
at_end code = []
at_end line_comment = []
at_end (dash kept) = kept
at_end (slash kept) = kept
at_end (block_comment kept) = kept
at_end (star kept) = kept

-- `_LEADING_NOISE.sub("", statement)`
unfoldable pub scan : Mode → Text → Text
scan mode [] = at_end mode
scan mode (c ∷ s) = elim (step mode c s) [ stop rest ↦ rest | go next ↦ scan next s ]

unfoldable pub strip_noise : Text → Text
unfolding scan
strip_noise statement = scan code statement

abbrev pub is_letter : ℕ → Bool
is_letter c = leb b'A' c && leb c b'Z' || leb b'a' c && leb c b'z'

-- `_FIRST_WORD.match`; no match is the empty text.
abbrev pub first_word : Text → Text
first_word [] = []
first_word (c ∷ s) = elim (is_letter c) [ true ↦ c ∷ first_word s | false ↦ [] ]

abbrev pub sql_operations : List Text
sql_operations =
    codes "select" ∷ codes "insert" ∷ codes "update" ∷ codes "delete" ∷ codes "other" ∷ []

-- `_VERB_ALIASES.get(verb, verb)`
unfoldable pub alias : Text → Text
unfolding text_eq
alias verb = if text_eq verb (codes "with") then codes "select" else verb

unfoldable pub bucket_verb : Text → Text
unfolding alias contains
bucket_verb verb = if contains sql_operations (alias verb) then alias verb else codes "other"

unfoldable pub sql_operation : Text → Text
unfolding strip_noise bucket_verb
sql_operation statement = elim (first_word (strip_noise statement)) [
  | [] ↦ codes "other"
  | c ∷ word ↦ bucket_verb (lower (c ∷ word))
]
