-- ===== src/Observability/Labels.antt =====
-- The closed sets of label values, and the functions that keep a value in them
-- (app/observability/metrics.py).
use scalable_content_platfor.Base.{
  ℕ, ◌≡◌, refl, true, List, [], ◌∷◌, Bool-cases, inl, inr, if◌then◌else◌,
}
use scalable_content_platfor.Text.{Text, codes, text_eq}
use scalable_content_platfor.Text.Words.{contains}

abbrev pub other : Text
other = codes "other"

abbrev pub cache_entities : List Text
cache_entities = codes "article" ∷ codes "list" ∷ other ∷ []

abbrev pub cache_operations : List Text
cache_operations =
    codes "get" ∷ codes "set" ∷ codes "delete" ∷ codes "incr" ∷ codes "lock" ∷ other ∷ []

abbrev pub dependencies : List Text
dependencies = codes "mysql" ∷ codes "redis" ∷ other ∷ []

abbrev pub retry_outcomes : List Text
retry_outcomes = codes "success" ∷ codes "exhausted" ∷ other ∷ []

abbrev pub degraded_reasons : List Text
degraded_reasons = codes "load_shed" ∷ codes "breaker_open" ∷ codes "upstream_timeout" ∷ other ∷ []

abbrev pub breaker_states : List Text
breaker_states = codes "closed" ∷ codes "half_open" ∷ codes "open" ∷ other ∷ []

-- `value if value in labels else "other"`
unfoldable pub bucket : List Text → Text → Text
unfolding contains
bucket labels value = if contains labels value then value else other

abbrev pub cache_entity : Text → Text
cache_entity = bucket cache_entities

abbrev pub cache_operation : Text → Text
cache_operation = bucket cache_operations

abbrev pub dependency_label : Text → Text
dependency_label = bucket dependencies

abbrev pub retry_outcome : Text → Text
retry_outcome = bucket retry_outcomes

abbrev pub breaker_state_label : Text → Text
breaker_state_label = bucket breaker_states

abbrev pub degraded_reason : Text → Text
degraded_reason = bucket degraded_reasons

-- `BREAKER_STATE_VALUES.get(label, 0)`
unfoldable pub breaker_state_value : Text → ℕ
unfolding text_eq
breaker_state_value label =
    if text_eq label (codes "half_open") then 1 else if text_eq label (codes "open") then 2 else 0

-- A bucketed value is one of the labels, if "other" is one.
pub bucket-contains :
    (labels : List Text) (value : Text)
    → contains labels other ≡ true
    → contains labels (bucket labels value) ≡ true
unfolding bucket
bucket-contains labels value h = elim (Bool-cases (contains labels value)) [
  | inl e ↦ rw (e, e) refl
  | inr e ↦ rw (e, h) refl
]
