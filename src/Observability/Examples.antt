-- ===== src/Observability/Examples.antt =====
-- The theorems on what the platform reports about itself, at concrete inputs.
use scalable_content_platfor.Base.{
  ℕ, ◌+◌, ◌*◌, ◌≤◌, ◌≡◌, ◌⊎◌, refl, true, List, [], ◌∷◌, ◌++◌, All, length, none, some, arith,
}
use scalable_content_platfor.Text.{Text, codes, text_eq}
use scalable_content_platfor.Text.Words.{contains}
use scalable_content_platfor.Effects.{Exception, Outcome, ok, raise, cancelled, other, World, M}
use scalable_content_platfor.Resilience.Fixtures.{empty}
use scalable_content_platfor.Api.{Response}
use scalable_content_platfor.Api.Auth.{lower}
use scalable_content_platfor.Observability.Series.{
  build_metrics, Observation, request, degraded, cache_hit, retry, query, observe_all,
}
use scalable_content_platfor.Observability.Series.Closed.{IsRouted, observe_all-bounded}
use scalable_content_platfor.Observability.Sql.{sql_operation}
use scalable_content_platfor.Observability.Sql.Noise.{Noise, sql_operation-Noise}
use scalable_content_platfor.Observability.Redact.{
  redacted, Value, leaf, dict, nil, item, is_sensitive, split_words, redact_secrets, at_path,
}
use scalable_content_platfor.Observability.Redact.Censored.{
  IsHidden, any_key, redact_secrets-IsHidden,
}
use scalable_content_platfor.Observability.Chain.{
  AccessRecord, Reported, Incoming, request_id_of, handle, bind_request_id,
}
use scalable_content_platfor.Observability.Chain.Recorded.{handle-record}

-- Observations with labels that are no labels.
abbrev observations : List Observation
observations =
    cache_hit (codes "article:42")
    ∷ retry (codes "db1.example") (codes "success")
    ∷ query (codes "DROP TABLE users")
    ∷ degraded (codes "/v1/articles") (codes "load_shed")
    ∷ request (codes "/v1/articles") (codes "BREW") (codes "200")
    ∷ []

abbrev routes : List Text
routes = codes "/v1/articles" ∷ []

routed : All (IsRouted routes) observations
unfolding contains text_eq
routed = ground arith

observe_all-bounded_example :
    (length (observe_all observations build_metrics).db_query_duration ≤ 5)
    × (length (observe_all observations build_metrics).cache_hits ≤ 3)
    × (length (observe_all observations build_metrics).cache_misses ≤ 3)
    × (length (observe_all observations build_metrics).cache_errors ≤ 6)
    × (length (observe_all observations build_metrics).dependency_timeouts ≤ 3)
    × (length (observe_all observations build_metrics).dependency_retries ≤ 9)
    × (length (observe_all observations build_metrics).breaker_state ≤ 3)
    × (length (observe_all observations build_metrics).breaker_transitions ≤ 12)
    × (length (observe_all observations build_metrics).degraded_responses ≤ length routes * 4)
observe_all-bounded_example = observe_all-bounded routes observations routed

noise : Noise (codes "/* a */ (")
noise =
    Noise.block (codes " a ") (codes " (") refl
      (Noise.space 32 (codes "(") refl (Noise.bracket [] Noise.none))

sql_operation-Noise_example :
    sql_operation (codes "/* a */ (" ++ codes "SELECT 1)") ≡ sql_operation (codes "SELECT 1)")
sql_operation-Noise_example = sql_operation-Noise (codes "/* a */ (") (codes "SELECT 1)") noise

-- A password in a dictionary in the event.
abbrev event : Value
event =
    dict (item (codes "user") (dict (item (codes "New-Password") (leaf (codes "hunter2")) nil)) nil)

abbrev path : List Text
path = codes "user" ∷ codes "New-Password" ∷ []

sensitive : any_key lower path ≡ true
unfolding is_sensitive split_words contains text_eq
sensitive = refl

censored : at_path path (redact_secrets lower event) ≡ some (leaf redacted)
unfolding redact_secrets at_path is_sensitive split_words contains text_eq
censored = refl

redact_secrets-IsHidden_example : IsHidden (leaf redacted)
redact_secrets-IsHidden_example =
    redact_secrets-IsHidden lower event (leaf redacted) path sensitive censored

abbrev incoming : Incoming
incoming = record {
  method = codes "GET";
  request_id_header = some (codes "abc-1");
  minted_id = codes "0123456789abcdef";
  route = codes "/v1/articles";
  user_id = none;
}

abbrev world : World (Reported ℕ)
world = record {
  now = 1000;
  breakers = empty;
  counted = [];
  services = record { context = none; records = []; metrics = build_metrics; server = 0 };
}

-- An application that always fails.
abbrev app : M (Reported ℕ) Response
app w = (raise (other 0), record w { now = w.now + 1000 })

abbrev outcome : Outcome Response
outcome = raise (other 0)

abbrev failed : World (Reported ℕ)
failed = (app (bind_request_id (request_id_of incoming) world)).1

handle-record_example :
    ((outcome ≡ raise cancelled)
      × ((handle incoming app world).1.services.records ≡ world.services.records))
    ⊎ ((entry : AccessRecord) × ((handle incoming app world).1.services.records
          ≡ entry ∷ world.services.records)
        × (entry.request_id ≡ some (request_id_of incoming))
        × (((response : Response) × (outcome ≡ ok response)
              × (entry.status ≡ response.status)
              × ((handle incoming app world).0
                  ≡ ok (record { response = response; request_id = request_id_of incoming })))
            ⊎ ((e : Exception) × (outcome ≡ raise e)
                × (entry.status ≡ 500)
                × ((handle incoming app world).0 ≡ raise e))))
handle-record_example = handle-record incoming app world failed outcome refl refl refl
