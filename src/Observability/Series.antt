-- ===== src/Observability/Series.antt =====
-- What the platform hands to Prometheus (app/observability/metrics.py): the combinations of label
-- values that it has called each collector with, and what the calls add up to. Prometheus keeps one
-- time series for each combination.
pub mod Cardinality
pub mod Closed
pub mod Methods
use scalable_content_platfor.Base.{
  ℕ, suc, ◌+◌, Bool, true, false, ◌&&◌, ◌||◌, List, [], ◌∷◌, if◌then◌else◌,
}
use scalable_content_platfor.Base.Int.{ℤ}
use scalable_content_platfor.Text.{Text, codes, text_eq}
use scalable_content_platfor.Text.Words.{contains}
use scalable_content_platfor.Observability.Labels.{
  cache_entity, cache_operation, dependency_label, retry_outcome, breaker_state_label,
  breaker_state_value, degraded_reason,
}
use scalable_content_platfor.Observability.Sql.{sql_operation}

-- The label values of a series.
abbrev pub Key : Type 0
Key = List Text

unfoldable pub key_eq : Key → Key → Bool
unfolding text_eq
key_eq [] [] = true
key_eq (a ∷ k) (b ∷ l) = text_eq a b && key_eq k l
key_eq _ _ = false

abbrev pub Series : Type 0
Series = List (Key × ℕ)

-- `.labels(…)`, and then a change of what is counted for them, which starts at 0.
unfoldable pub update : Key → (ℕ → ℕ) → Series → Series
unfolding key_eq
update k f [] = (k, f 0) ∷ []
update k f ((l, n) ∷ series) =
    let rest = update k f series in if key_eq k l then (l, f n) ∷ series else (l, n) ∷ rest

abbrev pub inc : Key → Series → Series
inc k = update k (λ n. n + 1)

-- Of the histograms, the number of observations.
pub record Metrics : Type 0 where
  pub requests : Series
  pub request_duration : Series
  pub db_query_duration : Series
  pub cache_hits : Series
  pub cache_misses : Series
  pub cache_errors : Series
  pub dependency_timeouts : Series
  pub dependency_retries : Series
  pub breaker_state : Series
  pub breaker_transitions : Series
  pub degraded_responses : Series

-- `build_metrics`
abbrev pub build_metrics : Metrics
build_metrics = record {
  requests = [];
  request_duration = [];
  db_query_duration = [];
  cache_hits = [];
  cache_misses = [];
  cache_errors = [];
  dependency_timeouts = [];
  dependency_retries = [];
  breaker_state = [];
  breaker_transitions = [];
  degraded_responses = [];
}

unfoldable pub observe_request : Text → Text → Text → Metrics → Metrics
unfolding update
observe_request route method status m = record m {
  requests = inc (route ∷ method ∷ status ∷ []) m.requests;
  request_duration = inc (route ∷ method ∷ []) m.request_duration;
}

unfoldable pub observe_cache_hit : Text → Metrics → Metrics
unfolding update
observe_cache_hit entity m = record m { cache_hits = inc (cache_entity entity ∷ []) m.cache_hits }

unfoldable pub observe_cache_miss : Text → Metrics → Metrics
unfolding update
observe_cache_miss entity m = record m {
  cache_misses = inc (cache_entity entity ∷ []) m.cache_misses;
}

unfoldable pub observe_cache_error : Text → Metrics → Metrics
unfolding update
observe_cache_error operation m = record m {
  cache_errors = inc (cache_operation operation ∷ []) m.cache_errors;
}

unfoldable pub observe_dependency_timeout : Text → Metrics → Metrics
unfolding update
observe_dependency_timeout dependency m = record m {
  dependency_timeouts = inc (dependency_label dependency ∷ []) m.dependency_timeouts;
}

unfoldable pub observe_retry : Text → Text → Metrics → Metrics
unfolding update
observe_retry dependency outcome m = record m {
  dependency_retries =
      inc (dependency_label dependency ∷ retry_outcome outcome ∷ []) m.dependency_retries;
}

unfoldable pub set_breaker_state : Text → Text → Metrics → Metrics
unfolding update breaker_state_value
set_breaker_state dependency state m = record m {
  breaker_state =
      update (dependency_label dependency ∷ [])
        (λ _. breaker_state_value (breaker_state_label state)) m.breaker_state;
}

unfoldable pub observe_breaker_transition : Text → Text → Metrics → Metrics
unfolding set_breaker_state
observe_breaker_transition dependency to_state m =
    let m' = set_breaker_state dependency to_state m in
    record m' {
      breaker_transitions =
          inc (dependency_label dependency ∷ breaker_state_label to_state ∷ [])
            m'.breaker_transitions;
    }

unfoldable pub observe_degraded_response : Text → Text → Metrics → Metrics
unfolding update
observe_degraded_response route reason m = record m {
  degraded_responses = inc (route ∷ degraded_reason reason ∷ []) m.degraded_responses;
}

unfoldable pub observe_query : Text → Metrics → Metrics
unfolding update
observe_query statement m = record m {
  db_query_duration = inc (sql_operation statement ∷ []) m.db_query_duration;
}

-- One call of the module's.
pub data Observation : Type 0 where
  request : Text → Text → Text → Observation
  cache_hit cache_miss cache_error dependency_timeout query : Text → Observation
  retry breaker_set breaker_moved degraded : Text → Text → Observation

unfoldable pub observe : Observation → Metrics → Metrics
unfolding observe_request observe_cache_hit observe_cache_miss observe_cache_error
    observe_dependency_timeout observe_query observe_retry set_breaker_state
    observe_breaker_transition observe_degraded_response
observe (request route method status) m = observe_request route method status m
observe (cache_hit entity) m = observe_cache_hit entity m
observe (cache_miss entity) m = observe_cache_miss entity m
observe (cache_error operation) m = observe_cache_error operation m
observe (dependency_timeout dependency) m = observe_dependency_timeout dependency m
observe (query statement) m = observe_query statement m
observe (retry dependency outcome) m = observe_retry dependency outcome m
observe (breaker_set dependency state) m = set_breaker_state dependency state m
observe (breaker_moved dependency state) m = observe_breaker_transition dependency state m
observe (degraded route reason) m = observe_degraded_response route reason m

unfoldable pub observe_all : List Observation → Metrics → Metrics
unfolding observe
observe_all [] m = m
observe_all (o ∷ os) m = observe_all os (observe o m)
