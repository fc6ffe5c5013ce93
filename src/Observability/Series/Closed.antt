-- ===== src/Observability/Series/Closed.antt =====
-- The collectors whose labels come from closed sets (app/observability/metrics.py).
use scalable_content_platfor.Base.{
  ◌+◌, ◌*◌, ◌≤◌, ◌≡◌, refl, true, List, [], ◌∷◌, length, All, arith,
}
use scalable_content_platfor.Text.{Text}
use scalable_content_platfor.Text.Words.{contains}
use scalable_content_platfor.Observability.Labels.{
  other, cache_entities, cache_operations, dependencies, retry_outcomes, degraded_reasons,
  breaker_states, bucket, breaker_state_value, bucket-contains,
}
use scalable_content_platfor.Observability.Sql.{sql_operations, sql_operation}
use scalable_content_platfor.Observability.Sql.Noise.{sql_operation-contains}
use scalable_content_platfor.Observability.Series.{
  Metrics, build_metrics, Observation, request, degraded, observe, observe_all, cache_hit,
  cache_miss, cache_error, dependency_timeout, query, retry, breaker_set, breaker_moved,
}
use scalable_content_platfor.Observability.Series.Cardinality.{
  labelled, IsBounded, update-IsBounded, bounded-length,
}

pub record Closed (routes : List Text) (m : Metrics) : Type 0 where
  pub queries : IsBounded (sql_operations ∷ []) m.db_query_duration
  pub hits : IsBounded (cache_entities ∷ []) m.cache_hits
  pub misses : IsBounded (cache_entities ∷ []) m.cache_misses
  pub errors : IsBounded (cache_operations ∷ []) m.cache_errors
  pub timeouts : IsBounded (dependencies ∷ []) m.dependency_timeouts
  pub retries : IsBounded (dependencies ∷ retry_outcomes ∷ []) m.dependency_retries
  pub states : IsBounded (dependencies ∷ []) m.breaker_state
  pub transitions : IsBounded (dependencies ∷ breaker_states ∷ []) m.breaker_transitions
  pub degradations : IsBounded (routes ∷ degraded_reasons ∷ []) m.degraded_responses

-- The route is one of the application's.
abbrev pub IsRouted : List Text → Observation → Type 0
IsRouted routes (degraded route reason) = contains routes route ≡ true
IsRouted routes _ = Unit

-- A bucketed value, and two of them.
one :
    (labels : List Text) (value : Text)
    → contains labels other ≡ true
    → labelled (labels ∷ []) (bucket labels value ∷ []) ≡ true
one labels value h = ground (arith, bucket-contains labels value h)

two :
    (labels labels' : List Text) (value value' : Text)
    → contains labels other ≡ true
    → contains labels' other ≡ true
    → labelled (labels ∷ labels' ∷ []) (bucket labels value ∷ bucket labels' value' ∷ []) ≡ true
two labels labels' value value' h h' =
    ground (arith, bucket-contains labels value h, bucket-contains labels' value' h')

observe-Closed :
    (routes : List Text) (o : Observation) (m : Metrics)
    → IsRouted routes o
    → Closed routes m
    → Closed routes (observe o m)
unfolding observe contains
observe-Closed routes (request route method status) m r c = record {
  queries = c.queries;
  hits = c.hits;
  misses = c.misses;
  errors = c.errors;
  timeouts = c.timeouts;
  retries = c.retries;
  states = c.states;
  transitions = c.transitions;
  degradations = c.degradations;
}
observe-Closed routes (cache_hit e) m r c = record {
  queries = c.queries;
  hits =
      update-IsBounded (cache_entities ∷ []) (bucket cache_entities e ∷ []) (λ n. n + 1)
        m.cache_hits (one cache_entities e refl) c.hits;
  misses = c.misses;
  errors = c.errors;
  timeouts = c.timeouts;
  retries = c.retries;
  states = c.states;
  transitions = c.transitions;
  degradations = c.degradations;
}
observe-Closed routes (cache_miss e) m r c = record {
  queries = c.queries;
  hits = c.hits;
  misses =
      update-IsBounded (cache_entities ∷ []) (bucket cache_entities e ∷ []) (λ n. n + 1)
        m.cache_misses (one cache_entities e refl) c.misses;
  errors = c.errors;
  timeouts = c.timeouts;
  retries = c.retries;
  states = c.states;
  transitions = c.transitions;
  degradations = c.degradations;
}
observe-Closed routes (cache_error e) m r c = record {
  queries = c.queries;
  hits = c.hits;
  misses = c.misses;
  errors =
      update-IsBounded (cache_operations ∷ []) (bucket cache_operations e ∷ []) (λ n. n + 1)
        m.cache_errors (one cache_operations e refl) c.errors;
  timeouts = c.timeouts;
  retries = c.retries;
  states = c.states;
  transitions = c.transitions;
  degradations = c.degradations;
}
observe-Closed routes (dependency_timeout e) m r c = record {
  queries = c.queries;
  hits = c.hits;
  misses = c.misses;
  errors = c.errors;
  timeouts =
      update-IsBounded (dependencies ∷ []) (bucket dependencies e ∷ []) (λ n. n + 1)
        m.dependency_timeouts (one dependencies e refl) c.timeouts;
  retries = c.retries;
  states = c.states;
  transitions = c.transitions;
  degradations = c.degradations;
}
observe-Closed routes (query e) m r c = record {
  queries =
      update-IsBounded (sql_operations ∷ []) (sql_operation e ∷ []) (λ n. n + 1) m.db_query_duration
        (ground (arith, sql_operation-contains e)) c.queries;
  hits = c.hits;
  misses = c.misses;
  errors = c.errors;
  timeouts = c.timeouts;
  retries = c.retries;
  states = c.states;
  transitions = c.transitions;
  degradations = c.degradations;
}
observe-Closed routes (retry d e) m r c = record {
  queries = c.queries;
  hits = c.hits;
  misses = c.misses;
  errors = c.errors;
  timeouts = c.timeouts;
  retries =
      update-IsBounded (dependencies ∷ retry_outcomes ∷ [])
        (bucket dependencies d ∷ bucket retry_outcomes e ∷ []) (λ n. n + 1) m.dependency_retries
        (two dependencies retry_outcomes d e refl refl) c.retries;
  states = c.states;
  transitions = c.transitions;
  degradations = c.degradations;
}
observe-Closed routes (breaker_set d e) m r c = record {
  queries = c.queries;
  hits = c.hits;
  misses = c.misses;
  errors = c.errors;
  timeouts = c.timeouts;
  retries = c.retries;
  states =
      update-IsBounded (dependencies ∷ []) (bucket dependencies d ∷ [])
        (λ _. breaker_state_value (bucket breaker_states e)) m.breaker_state
        (one dependencies d refl) c.states;
  transitions = c.transitions;
  degradations = c.degradations;
}
observe-Closed routes (breaker_moved d e) m r c = record {
  queries = c.queries;
  hits = c.hits;
  misses = c.misses;
  errors = c.errors;
  timeouts = c.timeouts;
  retries = c.retries;
  states =
      update-IsBounded (dependencies ∷ []) (bucket dependencies d ∷ [])
        (λ _. breaker_state_value (bucket breaker_states e)) m.breaker_state
        (one dependencies d refl) c.states;
  transitions =
      update-IsBounded (dependencies ∷ breaker_states ∷ [])
        (bucket dependencies d ∷ bucket breaker_states e ∷ []) (λ n. n + 1) m.breaker_transitions
        (two dependencies breaker_states d e refl refl) c.transitions;
  degradations = c.degradations;
}
observe-Closed routes (degraded d e) m r c = record {
  queries = c.queries;
  hits = c.hits;
  misses = c.misses;
  errors = c.errors;
  timeouts = c.timeouts;
  retries = c.retries;
  states = c.states;
  transitions = c.transitions;
  degradations =
      update-IsBounded (routes ∷ degraded_reasons ∷ []) (d ∷ bucket degraded_reasons e ∷ [])
        (λ n. n + 1) m.degraded_responses
        (ground (arith, r, bucket-contains degraded_reasons e refl)) c.degradations;
}

observe_all-Closed :
    (routes : List Text) (os : List Observation) (m : Metrics)
    → All (IsRouted routes) os
    → Closed routes m
    → Closed routes (observe_all os m)
unfolding observe_all
observe_all-Closed routes [] m r c = c
observe_all-Closed routes (o ∷ os) m r c =
    observe_all-Closed routes os (observe o m) r.1 (observe-Closed routes o m r.0 c)

none_yet : (routes : List Text) → Closed routes build_metrics
none_yet routes = record {
  queries = (refl, tt);
  hits = (refl, tt);
  misses = (refl, tt);
  errors = (refl, tt);
  timeouts = (refl, tt);
  retries = (refl, tt);
  states = (refl, tt);
  transitions = (refl, tt);
  degradations = (refl, tt);
}

-- Whatever is observed, with whatever texts as dependency, state, entity, operation, outcome,
-- reason or SQL statement, the collectors hold a fixed number of time series: 5 of query times, 3
-- of cache hits and of misses, 6 of cache errors, 3 of timeouts, 9 of retries, 3 of breaker states,
-- 12 of breaker transitions, and 4 of degraded responses for each route. That is where degraded
-- responses are counted under routes of the application.
pub observe_all-bounded :
    (routes : List Text) (os : List Observation)
    → All (IsRouted routes) os
    → (length (observe_all os build_metrics).db_query_duration ≤ 5)
      × (length (observe_all os build_metrics).cache_hits ≤ 3)
      × (length (observe_all os build_metrics).cache_misses ≤ 3)
      × (length (observe_all os build_metrics).cache_errors ≤ 6)
      × (length (observe_all os build_metrics).dependency_timeouts ≤ 3)
      × (length (observe_all os build_metrics).dependency_retries ≤ 9)
      × (length (observe_all os build_metrics).breaker_state ≤ 3)
      × (length (observe_all os build_metrics).breaker_transitions ≤ 12)
      × (length (observe_all os build_metrics).degraded_responses ≤ length routes * 4)
observe_all-bounded routes os routed =
    let m = observe_all os build_metrics in
    let c = observe_all-Closed routes os build_metrics routed (none_yet routes) in
    (
      bounded-length (sql_operations ∷ []) m.db_query_duration c.queries,
      bounded-length (cache_entities ∷ []) m.cache_hits c.hits,
      bounded-length (cache_entities ∷ []) m.cache_misses c.misses,
      bounded-length (cache_operations ∷ []) m.cache_errors c.errors,
      bounded-length (dependencies ∷ []) m.dependency_timeouts c.timeouts,
      bounded-length (dependencies ∷ retry_outcomes ∷ []) m.dependency_retries c.retries,
      bounded-length (dependencies ∷ []) m.breaker_state c.states,
      bounded-length (dependencies ∷ breaker_states ∷ []) m.breaker_transitions c.transitions,
      bounded-length (routes ∷ degraded_reasons ∷ []) m.degraded_responses c.degradations,
    )
