-- ===== src/Articles/Coherent.antt =====
-- What the cache-aside read of app/services/article_service.py relies on, and what its parts keep.
pub mod Polled
pub mod Get
pub mod Listed
mod Examples
use scalable_content_platfor.Base.{
  ℕ, zero, suc, ◌+◌, ◌/◌, max, ◌≡◌, refl, ap, Bool, true, false, not, ◌||◌, Option, none, some,
  List, [], ◌∷◌, All, arith, inl, inr, if◌then◌else◌, ltb, Bool-cases, Option-cases,
}
use mathlib.Core.Path.{subst}
use scalable_content_platfor.Text.{Text, codes}
use scalable_content_platfor.Effects.{
  Exception, Outcome, Outcome-cases, ok, raise, domain, article_not_found, CacheEntity, article,
  CacheOperation, World, M, ◌>>=◌, ◌>>◌, pure, throw, count,
}
use scalable_content_platfor.Request.{Request}
use scalable_content_platfor.Resilience.Policy.{DependencyPolicy, mysql}
use scalable_content_platfor.Resilience.Retry.{before_attempt}
use scalable_content_platfor.Resilience.Guard.{Runtime, guarded_read, heard_success, heard_failure}
use scalable_content_platfor.Resilience.Guard.Kept.{
  Returns, Post, Kept, KeptBy, Anything, RuntimeKeeps, guarded_call-Kept,
}
use scalable_content_platfor.Cache.Keys.{article_key, lock_key, jittered_ttl}
use scalable_content_platfor.Cache.Articles
use scalable_content_platfor.Cache.Articles.{
  Redis, is_cache_failure, live, degrade, succeed, command, count_read, read, write, get_article,
  set_article, peek, acquire_lock, release_lock,
}
use scalable_content_platfor.Articles.{Article, ArticleOut, article_out}
use scalable_content_platfor.Articles.Repository
use scalable_content_platfor.Articles.Repository.{
  Database, is_live_article, select_article, scalar_one_or_none,
}
use scalable_content_platfor.Articles.Service
use scalable_content_platfor.Articles.Service.{
  Service, Codec, decode, finally, load, poll, await_loader, load_and_store, lock_ttl,
  poll_interval,
}
use scalable_content_platfor.Articles.Kept.{Outside, bind-Kept, finally-Kept, if-Post, command-Kept}

module _ {S : Type 0} (J : S → Type 0) (Current : ℕ → ArticleOut → Type 0)
    (service : Service S) where
  open service use {
    runtime, policies, db, client, cache_enabled, codec, article_ttl, jitter, draw, sleep,
    lock_timeout,
  }

  -- A body that the cache gives for an article decodes, if at all, to a version that is `Current`.
  abbrev pub Found : ℕ → Option Text → Type 0
  Found article_id none = Unit
  Found article_id (some body) =
      (dto : ArticleOut) → codec.decode_article body ≡ some dto → Current article_id dto

  -- What `get` relies on: the rows that the database gives for an article are `Current` versions of
  -- it, and so is what the cache gives under its key, if only such versions are stored there.
  pub record Coherence : Type 1 where
    pub libraries : RuntimeKeeps (Outside J) runtime
    pub rollback_kept : Kept (Outside J) Anything db.rollback
    pub select_kept :
        (article_id : ℕ)
        → Kept
            (Outside J)
            (All (λ r. Current article_id (article_out r)))
            (db.select_where (is_live_article article_id))
    pub get_kept :
        (article_id : ℕ)
        → Kept (Outside J) (Found article_id) (client.get_key (article_key article_id))
    pub set_kept :
        (article_id : ℕ) (dto : ArticleOut) (ttl : ℕ)
        → Current article_id dto
        → Kept
            (Outside J)
            Anything
            (client.set_key (article_key article_id) (codec.encode_article dto) ttl)
    pub nx_kept :
        (k v : Text) (ttl : ℕ) → Kept (Outside J) Anything (client.set_nx (lock_key k) v ttl)
    pub delete_kept : (k : Text) → Kept (Outside J) Anything (client.delete_key (lock_key k))
    pub sleep_kept : (d : ℕ) → KeptBy (Outside J) (sleep d)

  module _ (coherence : Coherence) where
    open coherence use {
      libraries, rollback_kept, select_kept, get_kept, set_kept, nx_kept, delete_kept, sleep_kept,
    }

    rollback_before : (n : ℕ) → Kept (Outside J) Anything (before_attempt n (some db.rollback))
    unfolding before_attempt
    rollback_before n w j = ground (arith, rollback_kept w j)

    abbrev Row : ℕ → Option Article → Type 0
    Row article_id none = Unit
    Row article_id (some r) = Current article_id (article_out r)

    one_row :
        (article_id : ℕ) (rows : List Article)
        → All (λ r. Current article_id (article_out r)) rows
        → Kept (Outside J) (Row article_id) (scalar_one_or_none rows)
    unfolding scalar_one_or_none
    one_row article_id [] h w j = (j, tt)
    one_row article_id (r ∷ []) h w j = (j, h.0)
    one_row article_id (r ∷ s ∷ rows) h w j = (j, tt)

    found_row :
        (article_id : ℕ)
        → Kept (Outside J) (Row article_id) (Repository.get runtime policies.database db article_id)
    unfolding Repository.get select_article guarded_read
    found_row article_id =
        guarded_call-Kept (Outside J) runtime libraries (Row article_id) true (some db.rollback)
          mysql policies.database (select_article runtime policies.database db article_id)
          rollback_before
          (bind-Kept J (All (λ r. Current article_id (article_out r))) (Row article_id)
            (db.select_where (is_live_article article_id)) scalar_one_or_none
            (select_kept article_id) (one_row article_id))

    pub loaded :
        (article_id : ℕ)
        → Kept (Outside J) (λ r. Current article_id (article_out r)) (load service article_id)
    unfolding load
    loaded article_id =
        bind-Kept J (Row article_id) (λ r. Current article_id (article_out r))
          (Repository.get runtime policies.database db article_id) (present) (found_row article_id)
          present_kept
      where
        present : Option Article → M (Request S) Article
        present a = elim a [ none ↦ throw (domain article_not_found) | some r ↦ pure r ]

        present_kept :
            (a : Option Article)
            → Row article_id a
            → Kept (Outside J) (λ r. Current article_id (article_out r)) (present a)
        present_kept none q w j = (j, tt)
        present_kept (some r) q w j = (j, q)

    body_counted :
        (article_id : ℕ) (body : Option Text)
        → Found article_id body
        → Kept (Outside J) (Found article_id) (count_read article body)
    unfolding count_read
    body_counted article_id none q w j = (j, tt)
    body_counted article_id (some body) q w j = (j, q)

    pub cached :
        (article_id : ℕ)
        → Kept
            (Outside J)
            (Found article_id)
            (get_article client cache_enabled policies.cache article_id)
    unfolding get_article read
    cached article_id =
        command-Kept J (Found article_id) (Found article_id) cache_enabled policies.cache
          CacheOperation.get none (client.get_key (article_key article_id)) (count_read article) tt
          (get_kept article_id) (body_counted article_id)

    pub peeked :
        (article_id : ℕ)
        → Kept
            (Outside J)
            (Found article_id)
            (peek client cache_enabled policies.cache (article_key article_id))
    unfolding peek
    peeked article_id =
        command-Kept J (Found article_id) (Found article_id) cache_enabled policies.cache
          CacheOperation.get none (client.get_key (article_key article_id)) pure tt
          (get_kept article_id) (λ body q w j. (j, q))

    pub stored :
        (article_id : ℕ) (dto : ArticleOut) (ttl : ℕ)
        → Current article_id dto
        → Kept (Outside J) Anything (
            set_article client cache_enabled policies.cache article_id
              (codec.encode_article dto)
              ttl)
    unfolding set_article write
    stored article_id dto ttl q =
        command-Kept J Anything Anything cache_enabled policies.cache CacheOperation.set tt
          (client.set_key (article_key article_id) (codec.encode_article dto) (max 1 ttl)) pure tt
          (set_kept article_id dto (max 1 ttl) q) (λ a q w j. (j, tt))

    pub locked :
        (k : Text) (ttl : ℕ)
        → Kept (Outside J) Anything (acquire_lock client cache_enabled policies.cache k ttl)
    unfolding acquire_lock
    locked k ttl =
        command-Kept J Anything Anything cache_enabled policies.cache CacheOperation.lock true
          (client.set_nx (lock_key k) (codes "1") (max 1 ttl)) pure tt
          (nx_kept k (codes "1") (max 1 ttl)) (λ a q w j. (j, tt))

    pub unlocked :
        (k : Text) → Kept (Outside J) Anything (release_lock client cache_enabled policies.cache k)
    unfolding release_lock
    unlocked k =
        command-Kept J Anything Anything cache_enabled policies.cache CacheOperation.lock tt
          (client.delete_key (lock_key k)) pure tt (delete_kept k) (λ a q w j. (j, tt))
