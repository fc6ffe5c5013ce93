-- ===== src/Articles/Coherent/Get.antt =====
-- `get` of app/services/article_service.py, through the cache.
use scalable_content_platfor.Base.{
  ℕ, ◌≡◌, refl, Bool, true, false, Option, none, some, if◌then◌else◌,
}
use scalable_content_platfor.Text.{Text}
use scalable_content_platfor.Effects.{World, M, ◌>>=◌, ◌>>◌, pure}
use scalable_content_platfor.Request.{Request}
use scalable_content_platfor.Resilience.Guard.Kept.{Returns, Kept, Anything}
use scalable_content_platfor.Cache.Keys.{article_key, jittered_ttl}
use scalable_content_platfor.Cache.Articles.{get_article, set_article, acquire_lock, release_lock}
use scalable_content_platfor.Articles.{Article, ArticleOut, article_out}
use scalable_content_platfor.Articles.Service
use scalable_content_platfor.Articles.Service.{
  Service, Codec, decode, finally, load, poll, await_loader, load_and_store, lock_ttl,
  poll_interval,
}
use scalable_content_platfor.Articles.Kept.{Outside, bind-Kept, finally-Kept}
use scalable_content_platfor.Articles.Coherent.Polled.{await_loader-Kept}
use scalable_content_platfor.Articles.Coherent.{
  Coherence, Found, loaded, cached, peeked, stored, locked, unlocked,
}

module _ {S : Type 0} (J : S → Type 0) (Current : ℕ → ArticleOut → Type 0) (service : Service S)
    (coherence : Coherence J Current service) where
  open service use {
    runtime, policies, db, client, cache_enabled, codec, article_ttl, jitter, draw, sleep,
    lock_timeout,
  }
  open coherence use {sleep_kept}

  waited :
      (article_id : ℕ)
      → Kept
          (Outside J)
          (Found J Current service article_id)
          (await_loader service (article_key article_id))
  waited article_id =
      await_loader-Kept J service (article_key article_id) (Found J Current service article_id) tt
        (peeked J Current service coherence article_id) sleep_kept

  load_and_store-Kept :
      (article_id : ℕ) (won : Bool)
      → Kept (Outside J) (Current article_id) (load_and_store service article_id won)
  unfolding load_and_store
  load_and_store-Kept article_id won =
      finally-Kept J (Current article_id) body last
        (bind-Kept J (λ r. Current article_id (article_out r)) (Current article_id)
          (load service article_id) fill (loaded J Current service coherence article_id) fill_kept)
        (last_kept won)
    where
      fill : Article → M (Request S) ArticleOut
      fill a =
          (λ w.
            set_article client cache_enabled policies.cache article_id
              (codec.encode_article (article_out a)) (jittered_ttl article_ttl jitter (draw w)) w)
          >> pure (article_out a)

      body : M (Request S) ArticleOut
      body = load service article_id >>= fill

      last : M (Request S) (Unit {0})
      last =
          if won
          then release_lock client cache_enabled policies.cache (article_key article_id)
          else pure tt

      fill_kept :
          (a : Article)
          → Current article_id (article_out a)
          → Kept (Outside J) (Current article_id) (fill a)
      fill_kept a q =
          bind-Kept J Anything (Current article_id) _ (λ u. pure (article_out a))
            (λ w.
              stored J Current service coherence article_id (article_out a)
                (jittered_ttl article_ttl jitter (draw w)) q w)
            (λ u t w j. (j, q))

      last_kept :
          (b : Bool)
          → Kept (Outside J) Anything (
              if b
              then release_lock client cache_enabled policies.cache (article_key article_id)
              else pure tt)
      last_kept true = unlocked J Current service coherence (article_key article_id)
      last_kept false = λ w j. (j, tt)

  decoded :
      (article_id : ℕ) (body : Option Text) (m : M (Request S) ArticleOut)
      → Found J Current service article_id body
      → Kept (Outside J) (Current article_id) m
      → Kept
          (Outside J)
          (Current article_id)
          (elim (decode codec.decode_article body) [ some dto ↦ pure dto | none ↦ m ])
  decoded article_id none m q k = k
  decoded article_id (some body) m q k = parsed (codec.decode_article body) refl
    where
      parsed :
          (r : Option ArticleOut)
          → codec.decode_article body ≡ r
          → Kept (Outside J) (Current article_id) (elim r [ some dto ↦ pure dto | none ↦ m ])
      parsed none e = k
      parsed (some dto) e = λ w j. (j, q dto e)

  get-Kept :
      (article_id : ℕ) → Kept (Outside J) (Current article_id) (Service.get service article_id)
  unfolding Service.get
  get-Kept article_id =
      bind-Kept J (Found J Current service article_id) (Current article_id)
        (get_article client cache_enabled policies.cache article_id) from_body
        (cached J Current service coherence article_id)
        (λ body q. decoded article_id body from_lock q from_lock_kept)
    where
      key : Text
      key = article_key article_id

      wait : Bool → M (Request S) (Option Text)
      wait won = if won then pure none else await_loader service key

      from_wait : Bool → Option Text → M (Request S) ArticleOut
      from_wait won later = elim (decode codec.decode_article later) [
        | some dto ↦ pure dto
        | none ↦ load_and_store service article_id won
      ]

      from_lock : M (Request S) ArticleOut
      from_lock = acquire_lock client cache_enabled policies.cache key (lock_ttl service) >>= λ won.
          wait won >>= from_wait won

      from_body : Option Text → M (Request S) ArticleOut
      from_body body = elim (decode codec.decode_article body) [
        | some dto ↦ pure dto
        | none ↦ from_lock
      ]

      wait_kept : (won : Bool) → Kept (Outside J) (Found J Current service article_id) (wait won)
      wait_kept true = λ w j. (j, tt)
      wait_kept false = waited article_id

      from_lock_kept : Kept (Outside J) (Current article_id) from_lock
      from_lock_kept =
          bind-Kept J Anything (Current article_id)
            (acquire_lock client cache_enabled policies.cache key (lock_ttl service))
            (λ won. wait won >>= from_wait won)
            (locked J Current service coherence key (lock_ttl service))
            (λ won t.
              bind-Kept J (Found J Current service article_id) (Current article_id) (wait won)
                (from_wait won) (wait_kept won)
                (λ later q.
                  decoded article_id later (load_and_store service article_id won) q
                    (load_and_store-Kept article_id won)))

  -- Let `J` be an invariant of what lies outside of the process, which the statements, the
  -- commands of the cache and every wait keep, the storing of a `Current` version under its
  -- article's key included, and under which the database, and the cache under that key, give only
  -- `Current` versions of an article. Then `get` keeps the invariant, and if it gives an article,
  -- that is a `Current` version of the one asked for: whether it finds the cache full, empty,
  -- failing or locked, and whatever the guard of the database does. The version may be an old one
  -- that the cache still holds, and nothing is said of the exceptions.
  pub get-Returns :
      (article_id : ℕ) (w : World (Request S))
      → J w.services.server
      → J (Service.get service article_id w).1.services.server
        × Returns (Current article_id) (Service.get service article_id w).0
  get-Returns article_id w j = get-Kept article_id w j
