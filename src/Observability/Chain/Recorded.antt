-- ===== src/Observability/Chain/Recorded.antt =====
-- What the outer middleware of app/api/middleware.py records of a request.
use scalable_content_platfor.Base.{ℕ, ◌≡◌, ◌⊎◌, inl, inr, refl, Bool-cases, ◌∷◌, some, arith}
use scalable_content_platfor.Effects.{Exception, cancelled, Outcome, ok, raise, World, M}
use scalable_content_platfor.Api.{Response}
use scalable_content_platfor.Observability.Chain.{
  AccessRecord, Reported, Incoming, is_unobserved, log_request, observe_status, request_id_of,
  finish, access_log, measure, bind_request_id, tag_request, handle, exception, level_of,
}

abbrev pub Finished :
    {S : Type 0}
    → (ℕ → World (Reported S) → World (Reported S))
    → (World (Reported S) → World (Reported S))
    → Exception
    → World (Reported S)
    → Type 0
Finished done failed e w = (e ≡ cancelled) ⊎ (finish done failed (raise e, w) ≡ (raise e, failed w))

module _ {S : Type 0} (request : Incoming) where
  -- A measurement touches neither the log nor its context.
  observe_status-same :
      (status : ℕ) (w : World (Reported S))
      → ((observe_status request status w).services.records ≡ w.services.records)
        × ((observe_status request status w).services.context ≡ w.services.context)
  unfolding observe_status
  observe_status-same status w = elim (Bool-cases (is_unobserved request.route)) [
    | inl e ↦ rw e (refl, refl)
    | inr e ↦ rw e (refl, refl)
  ]

  raised :
      (done : ℕ → World (Reported S) → World (Reported S))
      (failed : World (Reported S) → World (Reported S)) (e : Exception) (w : World (Reported S))
      → Finished done failed e w
  raised done failed e w = ground arith

  -- A request leaves exactly one record in the access log, with the id that its response carries
  -- and the response's status, and if an exception came out of the application, with status 500 and
  -- with the exception passed on. Only a request that is cancelled leaves none. That is if what lies
  -- inside of the chain leaves the access log and the bound request id alone.
  pub handle-record :
      (app : M (Reported S) Response) (w v : World (Reported S)) (r : Outcome Response)
      → app (bind_request_id (request_id_of request) w) ≡ (r, v)
      → v.services.records ≡ w.services.records
      → v.services.context ≡ some (request_id_of request)
      → ((r ≡ raise cancelled) × ((handle request app w).1.services.records ≡ w.services.records))
        ⊎ ((entry : AccessRecord) × ((handle request app w).1.services.records
              ≡ entry ∷ w.services.records)
            × (entry.request_id ≡ some (request_id_of request))
            × (((response : Response) × (r ≡ ok response)
                  × (entry.status ≡ response.status)
                  × ((handle request app w).0
                      ≡ ok (record { response = response; request_id = request_id_of request })))
                ⊎ ((e : Exception) × (r ≡ raise e)
                    × (entry.status ≡ 500)
                    × ((handle request app w).0 ≡ raise e))))
  unfolding handle tag_request access_log measure log_request
  handle-record app w v (ok response) h same bound =
      let kept = observe_status-same response.status v in
      inr (
        record {
          level = level_of response.status;
          request_id = some (request_id_of request);
          user_id = request.user_id;
          route = request.route;
          method = request.method;
          status = response.status;
        },
        ground (arith, h, same, bound, kept),
        refl,
        inl (response, refl, refl, ground (arith, h)),
      )
  handle-record app w v (raise e) h same bound =
      let kept = observe_status-same 500 v in
      let observed = raised (observe_status request) (observe_status request 500) e v in
      let logged =
        raised (λ status. log_request request (level_of status) status)
          (log_request request exception 500) e (observe_status request 500 v) in
      elim observed [
        | inl cancel ↦ inl (ground (arith, cancel), ground (arith, h, cancel, same))
        | inr o ↦ elim logged [
          | inl cancel ↦ inl (ground (arith, cancel), ground (arith, h, cancel, same))
          | inr l ↦ inr (
            record {
              level = exception;
              request_id = some (request_id_of request);
              user_id = request.user_id;
              route = request.route;
              method = request.method;
              status = 500;
            },
            ground (arith, h, o, l, same, bound, kept),
            refl,
            inr (e, refl, refl, ground (arith, h, o, l)),
          )
        ]
      ]
