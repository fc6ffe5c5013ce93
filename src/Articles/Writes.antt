-- ===== src/Articles/Writes.antt =====
-- `update` and `delete` of app/services/article_service.py.
use scalable_content_platfor.Base.{
  ℕ, zero, suc, ◌≡◌, refl, ap, sym, ◌∙◌, ◌⊎◌, inl, inr, Bool, Bool-cases, true, false, List, [],
  ◌∷◌, ◌++◌, ◌==◌, some, arith, if◌then◌else◌,
}
use scalable_content_platfor.Text.{Text}
use scalable_content_platfor.Effects.{
  Outcome-cases, ok, raise, domain, forbidden, World, M, ◌>>=◌, ◌>>◌, pure,
}
use scalable_content_platfor.Request.{Invalidation, Request}
use scalable_content_platfor.Db.Session.{after_commit}
use scalable_content_platfor.Cache.Keys.{Datetime}
use scalable_content_platfor.Articles.{Article, User, is_admin, ArticleOut, article_out}
use scalable_content_platfor.Articles.Repository
use scalable_content_platfor.Articles.Service.{
  Service, authorize, load, update, delete, raise_conflict_or_not_found, invalidate_after_commit,
}

-- The author, or an administrator.
abbrev pub MayWrite : User → Article → Type 0
MayWrite actor article = (article.author_id ≡ actor.id) ⊎ (is_admin actor ≡ true)

authorize-MayWrite :
    {S : Type 0} (actor : User) (article : Article) (w : World S)
    → ((authorize actor article w ≡ (ok tt, w)) × MayWrite actor article)
      ⊎ (authorize actor article w ≡ (raise (domain forbidden), w))
unfolding authorize
authorize-MayWrite actor article w = ground arith

-- A sequence that returned, returned in its first part.
bind_ok :
    {S A B : Type 0} (m : M S A) (f : A → M S B) (w : World S) {b : B} {w' : World S}
    → (m >>= f) w ≡ (ok b, w')
    → (a : A) × ((m w).0 ≡ ok a) × (f a (m w).1 ≡ (ok b, w'))
bind_ok m f w e = elim (Outcome-cases (m w).0) [
  | inl (a, r) ↦ (a, r, ground arith)
  | inr (x, r) ↦ ground arith
]

module _ {S : Type 0} (service : Service S) where
  open service use {runtime, policies, db}

  refused_raises :
      (article_id : ℕ) (w : World (Request S))
      → (raise_conflict_or_not_found service article_id w).0 ≡ ok tt
      → ⊥
  unfolding raise_conflict_or_not_found
  refused_raises article_id w e =
      elim (Outcome-cases (Repository.get runtime policies.database db article_id w).0) [
        | inl (a, r) ↦ ground arith
        | inr (x, r) ↦ ground arith
      ]

  -- What stands behind the count of matched rows runs only if it is positive.
  after_count :
      {A : Type 0} (article_id n : ℕ) (m : M (Request S) A) (w w' : World (Request S)) {a : A}
      → ((if n == 0 then raise_conflict_or_not_found service article_id else pure tt) >> m) w
        ≡ (ok a, w')
      → (k : ℕ) × (n ≡ suc k) × (m w ≡ (ok a, w'))
  after_count article_id zero m w w' e =
      let r = bind_ok (raise_conflict_or_not_found service article_id) (λ _. m) w e in
      absurd (refused_raises article_id w r.1)
  after_count article_id (suc n) m w w' e = (n, refl, ground (arith, e))

  after_authorize :
      {A : Type 0} (actor : User) (article : Article) (m : M (Request S) A)
      (w w' : World (Request S)) {a : A}
      → (authorize actor article >> m) w ≡ (ok a, w')
      → MayWrite actor article × (m w ≡ (ok a, w'))
  after_authorize actor article m w w' e = elim (authorize-MayWrite actor article w) [
    | inl (is, may) ↦ (may, ground arith)
    | inr denied ↦ ground arith
  ]

  -- From the load on, for a compare-and-set and what comes after its count.
  write_ok :
      {A : Type 0} (actor : User) (article_id : ℕ) (cas : M (Request S) ℕ)
      (m : Article → M (Request S) A) (w w' : World (Request S)) {a : A}
      → (load service article_id >>= λ article.
            authorize actor article
            >> (cas >>= λ n.
                (if n == 0 then raise_conflict_or_not_found service article_id else pure tt)
                >> m article))
          w
        ≡ (ok a, w')
      → (article : Article) × (n : ℕ) × ((load service article_id w).0 ≡ ok article)
        × MayWrite actor article
        × ((cas (load service article_id w).1).0 ≡ ok (suc n))
        × (m article (cas (load service article_id w).1).1 ≡ (ok a, w'))
  write_ok {A} actor article_id cas m w w' e =
      let counted : Article → ℕ → M (Request S) A = λ article n.
        (if n == 0 then raise_conflict_or_not_found service article_id else pure tt) >> m article in
      let loaded =
        bind_ok (load service article_id)
          (λ article. authorize actor article >> (cas >>= counted article)) w e in
      let article = loaded.0 in
      let w₁ = (load service article_id w).1 in
      let written = after_authorize actor article (cas >>= counted article) w₁ w' loaded.2 in
      let matched = bind_ok cas (counted article) w₁ written.1 in
      let done = after_count article_id matched.0 (m article) (cas w₁).1 w' matched.2 in
      (article, done.0, loaded.1, written.0, matched.1 ∙ ap ok done.1, done.2)

  -- The world with one more invalidation behind those that wait, or, for a service without a session,
  -- as it was.
  abbrev pub queued_behind :
      Bool → List Invalidation → Invalidation → World (Request S) → World (Request S)
  queued_behind true before i w = record w {
    services = record w.services { pending = before ++ i ∷ [] };
  }
  queued_behind false before i w = w

  invalidate_after_commit_lem :
      (article_id author_id : ℕ) (w : World (Request S))
      → invalidate_after_commit service (some article_id) author_id w ≡ (
        ok tt,
        queued_behind service.has_session w.services.pending
            (record { article_id = some article_id; author_id = author_id })
            w,
      )
  unfolding invalidate_after_commit after_commit
  invalidate_after_commit_lem article_id author_id w = elim (Bool-cases service.has_session) [
    | inl e ↦ rw e refl
    | inr e ↦ rw e refl
  ]

  -- A delete returns only if the article was there, its author or an administrator asked, and the
  -- compare-and-set matched a row; and the world it leaves is that of the statement, with the
  -- invalidation of that article and of its author's pages behind those that wait for the commit if
  -- the service has a session, and otherwise as it was.
  pub delete_ok :
      (actor : User) (article_id : ℕ) (token : Datetime) (w w' : World (Request S))
      → delete service actor article_id token w ≡ (ok tt, w')
      → let cas = Repository.soft_delete_cas runtime policies.database db article_id token in
        let written = cas (load service article_id w).1 in
        (article : Article) × (n : ℕ) × ((load service article_id w).0 ≡ ok article)
        × MayWrite actor article
        × (written.0 ≡ ok (suc n))
        × (w'
            ≡ queued_behind service.has_session written.1.services.pending
                (record { article_id = some article_id; author_id = article.author_id })
                written.1)
  unfolding delete
  delete_ok actor article_id token w w' e =
      let cas = Repository.soft_delete_cas runtime policies.database db article_id token in
      let done =
        write_ok actor article_id cas
          (λ article. invalidate_after_commit service (some article_id) article.author_id) w w' e in
      let left =
        invalidate_after_commit_lem article_id done.0.author_id
          (cas (load service article_id w).1).1 in
      (done.0, done.1, done.2, done.3, done.4, ap (λ r. r.1) (sym done.5 ∙ left))

  -- An update returns only if the article was there, its author or an administrator asked, and the
  -- compare-and-set matched a row; then the invalidation of that article and of its author's
  -- pages stands behind those that wait for the commit if the service has a session, and otherwise
  -- nothing more waits; and the response is the article that a read of that world found.
  pub update_ok :
      (actor : User) (article_id : ℕ) (title body : Text) (token : Datetime) (out : ArticleOut)
      (w w' : World (Request S))
      → update service actor article_id title body token w ≡ (ok out, w')
      → let cas = Repository.update_cas runtime policies.database db article_id token title body in
        let written = cas (load service article_id w).1 in
        (article : Article) × (n : ℕ) × ((load service article_id w).0 ≡ ok article)
        × MayWrite actor article
        × (written.0 ≡ ok (suc n))
        × (fresh : Article) × (load service article_id (
              queued_behind service.has_session written.1.services.pending
                (record { article_id = some article_id; author_id = article.author_id })
                written.1)
            ≡ (ok fresh, w'))
        × (out ≡ article_out fresh)
  unfolding update
  update_ok actor article_id title body token out w w' e =
      let reread : M (Request S) ArticleOut =
        load service article_id >>= λ fresh. pure (article_out fresh) in
      let done =
        write_ok actor article_id
          (Repository.update_cas runtime policies.database db article_id token title body)
          (λ article. invalidate_after_commit service (some article_id) article.author_id >> reread)
          w w' e in
      let article = done.0 in
      let queue = invalidate_after_commit service (some article_id) article.author_id in
      let w₁ =
        (Repository.update_cas runtime policies.database db article_id token title body
          (load service article_id w).1).1 in
      let queued = bind_ok queue (λ _. reread) w₁ done.5 in
      let final =
        bind_ok (load service article_id) (λ fresh. pure (article_out fresh)) (queue w₁).1
          queued.2 in
      let left =
        ap (λ r. load service article_id r.1)
          (invalidate_after_commit_lem article_id article.author_id w₁) in
      let again : load service article_id (queue w₁).1 ≡ (ok final.0, w') =
        ground (arith, final.1, final.2) in
      let same : out ≡ article_out final.0 = ground (arith, final.2) in
      (article, done.1, done.2, done.3, done.4, final.0, sym left ∙ again, same)
