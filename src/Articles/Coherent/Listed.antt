-- ===== src/Articles/Coherent/Listed.antt =====
-- `list_articles` of app/services/article_service.py, through the cache.
pub mod Served
mod Examples
use mathlib.Core.Path.{subst}
use scalable_content_platfor.Base.{
  ℕ, zero, suc, ◌+◌, ◌/◌, max, ◌≡◌, refl, ap, Bool, true, false, map, Option, none, some, List, [],
  ◌∷◌, arith, inl, inr, if◌then◌else◌, ltb,
}
use scalable_content_platfor.Text.{Text, codes}
use scalable_content_platfor.Effects.{
  Exception, Outcome, ok, raise, CacheEntity, list, CacheOperation, World, M, ◌>>=◌, ◌>>◌, pure,
  throw, count,
}
use scalable_content_platfor.Request.{Request}
use scalable_content_platfor.Resilience.Policy.{mysql}
use scalable_content_platfor.Resilience.Retry.{before_attempt}
use scalable_content_platfor.Resilience.Guard.{guarded_read}
use scalable_content_platfor.Resilience.Guard.Kept.{
  Returns, Post, Kept, KeptBy, Anything, RuntimeKeeps, guarded_call-Kept,
}
use scalable_content_platfor.Cache.Keys.{lock_key, jittered_ttl}
use scalable_content_platfor.Cache.Articles.{
  get_generations, generation_keys, first_two, as_int, get_list_page, set_list_page, count_read,
  read, write, peek, acquire_lock, release_lock,
}
use scalable_content_platfor.Articles.Repository
use scalable_content_platfor.Articles.Repository.{list_matches}
use scalable_content_platfor.Articles.Service.{
  Service, Position, Page, page_of_rows, load_page, page_key, load_and_store_page, decode, poll,
  await_loader, poll_interval, lock_ttl, list_articles,
}
use scalable_content_platfor.Articles.Kept.{Outside, bind-Kept, finally-Kept, if-Post, command-Kept}

-- One query, and which pages are right answers to it.
module _ {S : Type 0} (J : S → Type 0) (service : Service S) (limit : ℕ) (after : Option Position)
    (author_id : Option ℕ) (Right : Page → Type 0) where
  open service use {
    runtime, policies, db, client, cache_enabled, codec, sha256_16, list_ttl, jitter, draw, sleep,
    lock_timeout,
  }

  -- A body that the cache gives for the query decodes, if at all, to a right page.
  abbrev pub FoundPage : Option Text → Type 0
  FoundPage none = Unit
  FoundPage (some body) = (page : Page) → codec.decode_page body ≡ some page → Right page

  -- What `list_articles` relies on: the rows that the database gives make a right page, and so does
  -- what the cache holds for the query in any generation, if only such pages are stored there.
  pub record PageCoherence : Type 1 where
    pub libraries : RuntimeKeeps (Outside J) runtime
    pub rollback_kept : Kept (Outside J) Anything db.rollback
    pub select_kept :
        Kept
          (Outside J)
          (λ rows. Right (page_of_rows limit rows))
          (db.select_page (list_matches after author_id) (limit + 1))
    pub mget_kept : (ks : List Text) → Kept (Outside J) Anything (client.mget ks)
    pub get_kept :
        (g : ℕ × ℕ)
        → Kept (Outside J) FoundPage (client.get_key (page_key service g limit after author_id))
    pub set_kept :
        (g : ℕ × ℕ) (page : Page) (ttl : ℕ)
        → Right page
        → Kept
            (Outside J)
            Anything
            (client.set_key (page_key service g limit after author_id) (codec.encode_page page) ttl)
    pub nx_kept :
        (k v : Text) (ttl : ℕ) → Kept (Outside J) Anything (client.set_nx (lock_key k) v ttl)
    pub delete_kept : (k : Text) → Kept (Outside J) Anything (client.delete_key (lock_key k))
    pub sleep_kept : (d : ℕ) → KeptBy (Outside J) (sleep d)

  module _ (coherence : PageCoherence) where
    open coherence use {
      libraries, rollback_kept, select_kept, mget_kept, get_kept, set_kept, nx_kept, delete_kept,
      sleep_kept,
    }

    rollback_before : (n : ℕ) → Kept (Outside J) Anything (before_attempt n (some db.rollback))
    unfolding before_attempt
    rollback_before n w j = ground (arith, rollback_kept w j)

    pub page_loaded : Kept (Outside J) Right (load_page service limit after author_id)
    unfolding load_page Repository.list guarded_read
    page_loaded =
        bind-Kept J (λ rows. Right (page_of_rows limit rows)) Right
          (Repository.list runtime policies.database db (limit + 1) after author_id)
          (λ rows. pure (page_of_rows limit rows))
          (guarded_call-Kept (Outside J) runtime libraries (λ rows. Right (page_of_rows limit rows))
            true (some db.rollback) mysql policies.database
            (db.select_page (list_matches after author_id) (limit + 1)) rollback_before select_kept)
          (λ rows q w j. (j, q))

    pub generations_kept :
        Kept (Outside J) Anything (get_generations client cache_enabled policies.cache author_id)
    unfolding get_generations
    generations_kept =
        command-Kept J Anything Anything cache_enabled policies.cache CacheOperation.get (0, 0)
          (client.mget (generation_keys author_id)) (λ values. pure (first_two (map as_int values)))
          tt (mget_kept (generation_keys author_id)) (λ values q w j. (j, tt))

    module _ (g : ℕ × ℕ) where
      page_counted :
          (body : Option Text) → FoundPage body → Kept (Outside J) FoundPage (count_read list body)
      unfolding count_read
      page_counted none q w j = (j, tt)
      page_counted (some body) q w j = (j, q)

      pub page_cached : Kept (Outside J) FoundPage (
          get_list_page client cache_enabled policies.cache
            (page_key service g limit after author_id))
      unfolding get_list_page read
      page_cached =
          command-Kept J FoundPage FoundPage cache_enabled policies.cache CacheOperation.get none
            (client.get_key (page_key service g limit after author_id)) (count_read list) tt
            (get_kept g) page_counted

      pub page_peeked :
          Kept
            (Outside J)
            FoundPage
            (peek client cache_enabled policies.cache (page_key service g limit after author_id))
      unfolding peek
      page_peeked =
          command-Kept J FoundPage FoundPage cache_enabled policies.cache CacheOperation.get none
            (client.get_key (page_key service g limit after author_id)) pure tt (get_kept g)
            (λ body q w j. (j, q))

      pub page_stored :
          (page : Page) (ttl : ℕ)
          → Right page
          → Kept (Outside J) Anything (
              set_list_page client cache_enabled policies.cache
                (page_key service g limit after author_id)
                (codec.encode_page page)
                ttl)
      unfolding set_list_page write
      page_stored page ttl q =
          command-Kept J Anything Anything cache_enabled policies.cache CacheOperation.set tt
            (client.set_key (page_key service g limit after author_id) (codec.encode_page page)
              (max 1 ttl))
            pure tt (set_kept g page (max 1 ttl) q) (λ a q w j. (j, tt))

      pub page_locked : Kept (Outside J) Anything (
          acquire_lock client cache_enabled policies.cache
            (page_key service g limit after author_id)
            (lock_ttl service))
      unfolding acquire_lock
      page_locked =
          command-Kept J Anything Anything cache_enabled policies.cache CacheOperation.lock true
            (client.set_nx (lock_key (page_key service g limit after author_id)) (codes "1")
              (max 1 (lock_ttl service)))
            pure tt
            (nx_kept (page_key service g limit after author_id) (codes "1")
              (max 1 (lock_ttl service)))
            (λ a q w j. (j, tt))

      pub page_unlocked : Kept (Outside J) Anything (
          release_lock client cache_enabled policies.cache
            (page_key service g limit after author_id))
      unfolding release_lock
      page_unlocked =
          command-Kept J Anything Anything cache_enabled policies.cache CacheOperation.lock tt
            (client.delete_key (lock_key (page_key service g limit after author_id))) pure tt
            (delete_kept (page_key service g limit after author_id)) (λ a q w j. (j, tt))
