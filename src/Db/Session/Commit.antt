-- ===== src/Db/Session/Commit.antt =====
-- When the queue of app/db/after_commit.py drains, and when it is dropped (`get_session` of
-- app/db/session.py).
use scalable_content_platfor.Base.{
  ◌≡◌, refl, ap, sym, ◌∙◌, ◌⊎◌, inl, inr, List, [], ◌∷◌, ◌++◌, arith,
}
use mathlib.Core.List.{append_assoc, append-nil}
use scalable_content_platfor.Effects.{
  Exception, cancelled, Outcome, Outcome-cases, ok, raise, World, M,
}
use scalable_content_platfor.Request.{Invalidation, Request}
use scalable_content_platfor.Db.Session.{
  discard_after_commit, is_exception, drain, set_pending, get_session,
}

module _ {S : Type 0} (run : Invalidation → M (Request S) (Unit {0})) (ran : S → List Invalidation)
    (once : (i : Invalidation) (w : World (Request S))
      → ran (run i w).1.services.server ≡ ran w.services.server ++ i ∷ [])
    (caught : (i : Invalidation) (w : World (Request S)) → (run i w).0 ≡ raise cancelled → ⊥) where
  -- A callback that raises is skipped, and the ones behind it run, each once and in order.
  pub drain_runs_all :
      (callbacks : List Invalidation) (w : World (Request S))
      → ((drain run callbacks w).0 ≡ ok tt)
        × (ran (drain run callbacks w).1.services.server ≡ ran w.services.server ++ callbacks)
  unfolding drain is_exception
  drain_runs_all [] w = (refl, sym (append-nil (ran w.services.server)))
  drain_runs_all (i ∷ is) w =
      let rest = drain_runs_all is (run i w).1 in
      let trace : ran (drain run is (run i w).1).1.services.server
          ≡ ran w.services.server ++ i ∷ is =
        rest.1 ∙ ap (λ l. l ++ is) (once i w) ∙ append_assoc (ran w.services.server) (i ∷ []) is in
      elim (Outcome-cases (run i w).0) [
        | inl (_, e) ↦ ground (arith, e, rest.0, trace)
        | inr (x, e) ↦ ground (arith, e, caught i w, rest.0, trace)
      ]

  module _ {A : Type 0} (commit rollback : M (Request S) (Unit {0}))
      (commit_runs_none : (w : World (Request S))
        → ran (commit w).1.services.server ≡ ran w.services.server)
      (rollback_runs_none : (w : World (Request S))
        → ran (rollback w).1.services.server ≡ ran w.services.server)
      (handler : M (Request S) A) (w : World (Request S))
      (handler_runs_none : ran (handler w).1.services.server ≡ ran w.services.server) where
    -- The callbacks that wait when the handler has returned and the commit is done.
    abbrev pub waiting : List Invalidation
    waiting = (commit (handler w).1).1.services.pending

    -- For callbacks that are not cancelled and whose runs are recorded one by one, and a handler, a
    -- commit and a rollback that run none: when the handler returns and the commit succeeds, the
    -- client gets the handler's result, and the callbacks that ran are exactly those that were
    -- waiting, each once and in the order of their registration, whether or not one raised.
    pub get_session_commits :
        {a : A}
        → (handler w).0 ≡ ok a
        → (commit (handler w).1).0 ≡ ok tt
        → ((get_session run commit rollback handler w).0 ≡ ok a)
          × (ran (get_session run commit rollback handler w).1.services.server
              ≡ ran w.services.server ++ waiting)
    unfolding get_session
    get_session_commits h c =
        let w₂ = (commit (handler w).1).1 in
        let before : ran w₂.services.server ≡ ran w.services.server =
          commit_runs_none (handler w).1 ∙ handler_runs_none in
        let all = drain_runs_all w₂.services.pending (set_pending [] w₂) in
        let trace = all.1 ∙ ap (λ l. l ++ w₂.services.pending) before in
        ground (arith, all.0, trace)

    -- The world that the rollback starts from, when the handler or the commit has raised.
    abbrev pub undone_from : Outcome A → World (Request S)
    undone_from (ok a) = (commit (handler w).1).1
    undone_from (raise e) = (handler w).1

    -- For a handler, a commit and a rollback that run no callback: when the handler or the commit
    -- raises, no callback runs, also when the rollback raises. If the rollback goes through, the
    -- client gets the very exception, and nothing waits any more; if it raises, the client gets the
    -- exception of the rollback.
    pub get_session_aborts :
        {e : Exception}
        → ((handler w).0 ≡ raise e)
          ⊎ ((a : A) × ((handler w).0 ≡ ok a) × ((commit (handler w).1).0 ≡ raise e))
        → (ran (get_session run commit rollback handler w).1.services.server
            ≡ ran w.services.server)
          × ((((rollback (undone_from (handler w).0)).0 ≡ ok tt)
                × ((get_session run commit rollback handler w).0 ≡ raise e)
                × ((get_session run commit rollback handler w).1.services.pending ≡ []))
              ⊎ ((e' : Exception) × ((rollback (undone_from (handler w).0)).0 ≡ raise e')
                  × ((get_session run commit rollback handler w).0 ≡ raise e')))
    unfolding get_session discard_after_commit
    get_session_aborts (inl h) =
        let w₁ = (handler w).1 in
        elim (Outcome-cases (rollback w₁).0) [
          | inl (_, u) ↦ ground (arith, h, u, rollback_runs_none w₁)
          | inr (e', u) ↦ (
            ground (arith, h, u, rollback_runs_none w₁),
            inr (e', ground (arith, h, u), ground (arith, h, u)),
          )
        ]
    get_session_aborts (inr (a, h, c)) =
        let w₁ = (handler w).1 in
        let w₂ = (commit w₁).1 in
        elim (Outcome-cases (rollback w₂).0) [
          | inl (_, u) ↦ ground (arith, h, c, u, commit_runs_none w₁, rollback_runs_none w₂)
          | inr (e', u) ↦ (
            ground (arith, h, c, u, commit_runs_none w₁, rollback_runs_none w₂),
            inr (e', ground (arith, h, c, u), ground (arith, h, c, u)),
          )
        ]
