-- ===== src/Observability/Series/Methods.antt =====
-- The collector of requests, whose labels include the caller's method
-- (app/observability/metrics.py).
use scalable_content_platfor.Base.{
  ◌+◌, ◌≡◌, refl, ◌∙◌, true, false, List, [], ◌∷◌, map, length, All, arith,
}
use scalable_content_platfor.Text.{Text}
use scalable_content_platfor.Observability.Labels.{other}
use scalable_content_platfor.Observability.Series.{
  Key, Series, key_eq, inc, Metrics, build_metrics, request, observe, observe_all,
}
use scalable_content_platfor.Observability.Series.Cardinality.{
  has, keys, distinct, has-update, length-update, key_eq_sym,
}

-- The key of a request of a method, and methods that are each another's.
abbrev pub key_of : Text → Text → Text → Key
key_of route status method = route ∷ method ∷ status ∷ []

still_new :
    (route status method : Text) (methods : List Text) (series : Series)
    → has (map (key_of route status) methods) (key_of route status method) ≡ false
    → All (λ other. has (keys series) (key_of route status other) ≡ false) methods
    → All
        (λ other.
          has (keys (inc (key_of route status method) series)) (key_of route status other) ≡ false)
        methods
still_new route status method [] series d new = tt
still_new route status method (other ∷ methods) series d new =
    let differ : key_eq (key_of route status other) (key_of route status method) ≡ false =
      key_eq_sym (key_of route status other) (key_of route status method) ∙ ground (arith, d) in
    (
      has-update (key_of route status method) (key_of route status other) (λ n. n + 1) series new.0
          differ,
      still_new route status method methods series (ground (arith, d)) new.1,
    )

requests_grow :
    (route status : Text) (methods : List Text) (m : Metrics)
    → distinct (map (key_of route status) methods) ≡ true
    → All (λ method. has (keys m.requests) (key_of route status method) ≡ false) methods
    → length (observe_all (map (λ method. request route method status) methods) m).requests
      ≡ length methods + length m.requests
unfolding observe_all observe
requests_grow route status [] m d new = omega arith
requests_grow route status (method ∷ methods) m d new =
    let later =
      requests_grow route status methods (observe (request route method status) m)
        (ground (arith, d))
        (still_new route status method methods m.requests (ground (arith, d)) new.1) in
    omega (arith, later, length-update (key_of route status method) (λ n. n + 1) m.requests new.0)

-- The counter of requests has no such bound, since the caller's method is one of its labels as it
-- stands: requests to one route, with one status and pairwise different methods, make as many time
-- series as there are methods.
pub observe_all-methods :
    (route status : Text) (methods : List Text)
    → distinct (map (key_of route status) methods) ≡ true
    → length
        (observe_all (map (λ method. request route method status) methods) build_metrics).requests
      ≡ length methods
observe_all-methods route status methods d =
    omega (arith, requests_grow route status methods build_metrics d (none_there methods))
  where
    none_there :
        (others : List Text)
        → All
            (λ method. has (keys build_metrics.requests) (key_of route status method) ≡ false)
            others
    none_there [] = tt
    none_there (x ∷ others) = (refl, none_there others)
