-- ===== src/Db/Session/Examples.antt =====
-- Requests whose server only records the callbacks that ran, and the theorems at concrete inputs.
use scalable_content_platfor.Base.{
  ℕ, List, ◌++◌, ◌⊎◌, ◌≡◌, refl, inl, none, some, [], ◌∷◌, arith, false,
}
use scalable_content_platfor.Base.Int.{pos}
use scalable_content_platfor.Config
use scalable_content_platfor.Config.{Settings}
use scalable_content_platfor.Effects.{
  Exception, cancelled, os_error, domain, conflict, ok, raise, World, M,
}
use scalable_content_platfor.Request.{Invalidation, Request}
use scalable_content_platfor.Db.Session.{after_commit, drain, get_session}
use scalable_content_platfor.Db.Session.Commit.{
  drain_runs_all, get_session_commits, get_session_aborts,
}
use scalable_content_platfor.Db.Session.Engine.{
  EngineOptions, build_engine_kwargs, build_engine_kwargs_unlimited,
}
use scalable_content_platfor.Resilience.Fixtures.{defaults}

abbrev start : World (Request (List Invalidation))
start = record {
  now = 0;
  breakers = record { mysql_breaker = none; redis_breaker = none };
  counted = [];
  services = record { degraded = false; pending = []; server = [] };
}

abbrev ran : List Invalidation → List Invalidation
ran is = is

-- A callback that is recorded, and fails.
abbrev run : Invalidation → M (Request (List Invalidation)) (Unit {0})
run i w = (
  raise os_error,
  record w { services = record w.services { server = w.services.server ++ i ∷ [] } },
)

abbrev skip : M (Request (List Invalidation)) (Unit {0})
skip w = (ok tt, w)

abbrev seven : Invalidation
seven = record { article_id = some 42; author_id = 7 }

abbrev eight : Invalidation
eight = record { article_id = none; author_id = 8 }

abbrev writing : M (Request (List Invalidation)) ℕ
writing w = (ok 42, record w { services = record w.services { pending = seven ∷ eight ∷ [] } })

after_commit-seven : (after_commit seven start).services.pending ≡ seven ∷ []
unfolding after_commit
after_commit-seven = refl

run-caught :
    (i : Invalidation) (w : World (Request (List Invalidation))) → (run i w).0 ≡ raise cancelled → ⊥
run-caught i w h = cc h

drain_runs_all_example :
    ((drain run (seven ∷ eight ∷ []) start).0 ≡ ok tt)
    × ((drain run (seven ∷ eight ∷ []) start).1.services.server ≡ seven ∷ eight ∷ [])
drain_runs_all_example = drain_runs_all run ran (λ i w. refl) run-caught (seven ∷ eight ∷ []) start

get_session_commits_example :
    ((get_session run skip skip writing start).0 ≡ ok 42)
    × ((get_session run skip skip writing start).1.services.server ≡ seven ∷ eight ∷ [])
get_session_commits_example =
    get_session_commits run ran (λ i w. refl) run-caught skip skip (λ w. refl) (λ w. refl) writing
      start refl refl refl

abbrev conflicting : M (Request (List Invalidation)) ℕ
conflicting w = (raise (domain conflict), (writing w).1)

-- A rollback that fails.
abbrev broken_rollback : M (Request (List Invalidation)) (Unit {0})
broken_rollback w = (raise os_error, w)

get_session_aborts_example :
    ((get_session run skip broken_rollback conflicting start).1.services.server ≡ [])
    × (((broken_rollback (conflicting start).1).0 ≡ ok tt)
          × ((get_session run skip broken_rollback conflicting start).0 ≡ raise (domain conflict))
          × ((get_session run skip broken_rollback conflicting start).1.services.pending ≡ [])
        ⊎ ((e' : Exception) × ((broken_rollback (conflicting start).1).0 ≡ raise e')
            × ((get_session run skip broken_rollback conflicting start).0 ≡ raise e')))
get_session_aborts_example =
    get_session_aborts run ran (λ i w. refl) run-caught skip broken_rollback (λ w. refl) (λ w. refl)
      conflicting start refl (inl refl)

-- Half a millisecond.
abbrev short : Settings
short = record defaults { db_statement_timeout_seconds = pos 500 }

build_engine_kwargs_unlimited_example :
    (o : EngineOptions) × (build_engine_kwargs short ≡ Config.ok o) × (o.max_execution_time ≡ 0)
build_engine_kwargs_unlimited_example =
    build_engine_kwargs_unlimited short (omega arith) (omega arith) (omega arith) (omega arith)
      (omega arith)
