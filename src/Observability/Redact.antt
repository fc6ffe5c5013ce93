-- ===== src/Observability/Redact.antt =====
-- What the log lets through (app/observability/logging.py). An event is nested data; a key or a
-- string is any Unicode text, so `str.lower`, `str.upper` and `str.strip` are parameters.
pub mod Censored
use scalable_content_platfor.Base.{
  ℕ, ◌≡◌, refl, ap, Bool, true, false, ◌&&◌, ◌||◌, List, [], ◌∷◌, Option, none, some, ◌==◌,
  Bool-cases, inl, inr, arith, if◌then◌else◌,
}
use mathlib.Core.Path.{ap₂}
use scalable_content_platfor.Text.{Text, codes, text_eq}
use scalable_content_platfor.Text.Words.{contains, put_char}
use scalable_content_platfor.Api.Auth.{is_space}

abbrev pub redacted : Text
redacted = codes "***REDACTED***"

abbrev pub sensitive_words : List Text
sensitive_words =
    codes "password"
    ∷ codes "passwd"
    ∷ codes "secret"
    ∷ codes "token"
    ∷ codes "authorization"
    ∷ codes "credential"
    ∷ codes "credentials"
    ∷ codes "cookie"
    ∷ []

abbrev pub sensitive_keys : List Text
sensitive_keys = codes "api_key" ∷ codes "apikey" ∷ codes "x-api-key" ∷ codes "set-cookie" ∷ []

-- `[._\-\s]`
abbrev pub is_separator : ℕ → Bool
is_separator c = c == b'.' || c == b'_' || c == b'-' || is_space c

-- `_WORD_SPLIT.split`: a run of separators is one.
abbrev pub starts_with_separator : Text → Bool
starts_with_separator [] = false
starts_with_separator (c ∷ s) = is_separator c

unfoldable pub split_words : Text → List Text
split_words [] = [] ∷ []
split_words (c ∷ s) =
    let rest = split_words s in
    if is_separator c
    then (if starts_with_separator s then rest else [] ∷ rest)
    else put_char c rest

-- `any(word in _SENSITIVE_WORDS for word in words)`
abbrev pub any_sensitive : List Text → Bool
any_sensitive [] = false
any_sensitive (word ∷ words) = contains sensitive_words word || any_sensitive words

-- A value of an event: None, a dictionary, a list, or anything else, by its text.
mutual
  pub data Value : Type 0 where
    null : Value
    leaf : Text → Value
    dict : Items → Value
    array : Values → Value

  pub data Items : Type 0 where
    nil : Items
    item : Text → Value → Items → Items

  pub data Values : Type 0 where
    empty : Values
    cons : Value → Values → Values

module _ (lower : Text → Text) where
  unfoldable pub is_sensitive : Text → Bool
  unfolding contains split_words
  is_sensitive key = contains sensitive_keys (lower key) || any_sensitive (split_words (lower key))

  -- `redact_secrets`, which only goes into dictionaries, and what it makes of one item's value.
  unfoldable mutual
    pub redact_secrets : Value → Value
    redact_secrets null = null
    redact_secrets (leaf text) = leaf text
    redact_secrets (array values) = array values
    redact_secrets (dict items) = dict (redact_items items)

    pub redact_items : Items → Items
    redact_items nil = nil
    redact_items (item key value items) =
        item key (redact_value (is_sensitive key) value) (redact_items items)

    pub redact_value : Bool → Value → Value
    redact_value sensitive null = null
    redact_value true (leaf text) = leaf redacted
    redact_value true (dict items) = leaf redacted
    redact_value true (array values) = leaf redacted
    redact_value false (leaf text) = leaf text
    redact_value false (array values) = array values
    redact_value false (dict items) = dict (redact_items items)

-- `logging.getLevelNamesMapping()`, and `logging.INFO` for any other text.
module _ (upper strip : Text → Text) (level_names : Text → Option ℕ) where
  unfoldable pub level_number : Text → ℕ
  level_number level = elim (level_names (upper (strip level))) [ some n ↦ n | none ↦ 20 ]

-- What a reader of the log could find: a value at a path of keys, through dictionaries alone.
unfoldable mutual
  pub at_path : List Text → Value → Option Value
  at_path [] value = some value
  at_path (k ∷ path) null = none
  at_path (k ∷ path) (leaf text) = none
  at_path (k ∷ path) (array values) = none
  at_path (k ∷ path) (dict items) = at_items k path items

  pub at_items : Text → List Text → Items → Option Value
  at_items k path nil = none
  at_items k path (item key value items) = elim (text_eq k key) [
    | true ↦ at_path path value
    | false ↦ at_items k path items
  ]
