-- ===== src/Articles/Router/Served.antt =====
-- A page of the list endpoint (app/api/routers/articles.py) as it comes from the database, through
-- the service, its cache and the guard, where the cache is off and the database answers.
use scalable_content_platfor.Base.{
  ℕ, suc, ◌+◌, ◌≤◌, ◌≡◌, refl, ap, ◌∙◌, Bool, true, false, List, map, take, filter, Option, none,
  some, arith,
}
use scalable_content_platfor.Text.{Text}
use scalable_content_platfor.Effects.{ok, World}
use scalable_content_platfor.Request.{Request}
use scalable_content_platfor.Resilience.Breaker.{CircuitBreaker, closed, record_success}
use scalable_content_platfor.Resilience.Policy.{mysql}
use scalable_content_platfor.Resilience.Guard.{
  get_breaker, set_breaker, heard_success, guarded_read,
}
use scalable_content_platfor.Resilience.Guard.Verdict.{guarded_call_answer}
use scalable_content_platfor.Resilience.Guard.Outage.{
  get_breaker-set_breaker, get_breaker_cong, allow_closed,
}
use scalable_content_platfor.Cache.Keys.{Datetime, jittered_ttl}
use scalable_content_platfor.Cache.Articles.{
  get_generations, get_list_page, acquire_lock, set_list_page, release_lock,
}
use scalable_content_platfor.Cache.Articles.Fallback.{
  CacheCall, get_generations_call, get_list_page_call, acquire_lock_call, set_list_page_call,
  release_lock_call, fallback, perform, perform_bypassed,
}
use scalable_content_platfor.Articles.{Article, summary_of}
use scalable_content_platfor.Articles.Repository
use scalable_content_platfor.Articles.Repository.{list_matches}
use scalable_content_platfor.Articles.Service
use scalable_content_platfor.Articles.Service.{
  Service, Position, Page, page_of_rows, load_page, load_and_store_page, lock_ttl, page_key,
}
use scalable_content_platfor.Articles.Pages.{query_rows}
use scalable_content_platfor.Articles.Router.{
  max_page_size, limit_of, author_of, after_of, next_cursor_of, list_articles,
}

-- What `Query(ge=1)` accepts.
abbrev pub IsAuthor : Option ℕ → Type 0
IsAuthor none = Unit
IsAuthor (some author) = 1 ≤ author

author_of-IsAuthor : (author : Option ℕ) → IsAuthor author → author_of author ≡ ok author
unfolding author_of
author_of-IsAuthor none h = refl
author_of-IsAuthor (some author) h = ground arith

limit_of-le : (n : ℕ) → suc n ≤ max_page_size → limit_of (some (suc n)) ≡ ok (suc n)
unfolding limit_of
limit_of-le n h = ground arith

record_success-closed : (b : CircuitBreaker) → b.state ≡ closed → (record_success b).state ≡ closed
unfolding record_success
record_success-closed b h = ground arith

-- A service whose cache is switched off, on a table that stays as it is, in the order of the list
-- query, whose driver answers each query in time and leaves the breakers alone.
pub record Serves {S : Type 0} (service : Service S) (ordered : List Article) : Type 0 where
  pub off : service.cache_enabled ≡ false
  pub rows :
      (p : Article → Bool) (limit : ℕ) (w : World (Request S))
      → (service.db.select_page p limit w).0 ≡ ok (map summary_of (take limit (filter p ordered)))
  pub silent :
      (p : Article → Bool) (limit : ℕ) (w : World (Request S))
      → (service.db.select_page p limit w).1.breakers ≡ w.breakers
  pub prompt :
      (p : Article → Bool) (limit : ℕ) (w : World (Request S))
      → (service.db.select_page p limit w).1.now ≤ w.now + service.policies.database.call_timeout

module _ {S : Type 0} (service : Service S) where
  open service use {
    runtime, policies, db, client, cache_enabled, codec, list_ttl, jitter, draw, sha256_16,
  }

  abbrev pub Closed : World (Request S) → Type 0
  Closed w = (get_breaker mysql policies.database w).state ≡ closed

  module _ (ordered : List Article) (serves : Serves service ordered) where
    open serves use {off, rows, silent, prompt}

    rows_served :
        (limit : ℕ) (after : Option Position) (author : Option ℕ) (w : World (Request S))
        → Closed w
        → (w' : World (Request S)) × (Repository.list runtime policies.database db limit after
              author w
            ≡ (ok (query_rows ordered limit after author), w'))
          × Closed w'
    unfolding Repository.list guarded_read query_rows heard_success
    rows_served limit after author w c =
        let policy = policies.database in
        let p = list_matches after author in
        let b = get_breaker mysql policy w in
        let w₁ = set_breaker mysql b w in
        let w₂ = (db.select_page p limit w₁).1 in
        let same : get_breaker mysql policy w₂ ≡ b =
          get_breaker_cong mysql policy w₂ w₁ (silent p limit w₁)
          ∙ get_breaker-set_breaker mysql policy b w in
        let kept : get_breaker mysql policy (heard_success mysql policy w₂) ≡ record_success b =
          get_breaker-set_breaker mysql policy (record_success (get_breaker mysql policy w₂)) w₂
          ∙ ap record_success same in
        (
          heard_success mysql policy w₂,
          guarded_call_answer runtime true (some db.rollback) mysql policy (db.select_page p limit)
              w {w' = w₂} (allow_closed w.now b c) (ground (arith, rows p limit w₁)) refl
              (prompt p limit w₁),
          ap (λ x. x.state) kept ∙ record_success-closed b c,
        )

    skipped :
        (c : CacheCall) (w : World (Request S))
        → perform client cache_enabled policies.cache c w ≡ (ok (fallback c), w)
    skipped c w = perform_bypassed client cache_enabled policies.cache c w (ground (arith, off))

    page_served :
        (limit : ℕ) (after : Option Position) (author : Option ℕ) (w : World (Request S))
        → Closed w
        → (w' : World (Request S)) × (Service.list_articles service limit after author w
            ≡ (ok (page_of_rows limit (query_rows ordered (limit + 1) after author)), w'))
          × Closed w'
    unfolding Service.list_articles load_and_store_page load_page
    page_served limit after author w c =
        let (w', listed, still) = rows_served (limit + 1) after author w c in
        let key = page_key service (0, 0) limit after author in
        let page = page_of_rows limit (query_rows ordered (limit + 1) after author) in
        let asked : get_generations client cache_enabled policies.cache author w ≡ (ok (0, 0), w) =
          skipped (get_generations_call author) w in
        let missed : get_list_page client cache_enabled policies.cache key w ≡ (ok none, w) =
          skipped (get_list_page_call key) w in
        let won : acquire_lock client cache_enabled policies.cache key (lock_ttl service) w
            ≡ (ok true, w) =
          skipped (acquire_lock_call key (lock_ttl service)) w in
        let ttl = jittered_ttl list_ttl jitter (draw w') in
        let stored : set_list_page client cache_enabled policies.cache key (codec.encode_page page)
              ttl w'
            ≡ (ok tt, w') =
          skipped (set_list_page_call key (codec.encode_page page) ttl) w' in
        let freed : release_lock client cache_enabled policies.cache key w' ≡ (ok tt, w') =
          skipped (release_lock_call key) w' in
        (w', ground (arith, asked, missed, won, listed, stored, freed), still)

    -- One request of a client.
    pub list_articles_served :
        (fromisoformat : Text → Option Datetime) (n : ℕ) (cursor : Option Text)
        (after : Option Position) (author : Option ℕ) (w : World (Request S))
        → suc n ≤ max_page_size
        → IsAuthor author
        → after_of cursor ≡ ok after
        → Closed w
        → let page = page_of_rows (suc n) (query_rows ordered (suc n + 1) after author) in
          (w' : World (Request S)) × (list_articles fromisoformat service
              (some (suc n))
              cursor
              author
              w
            ≡ (ok (page.0, next_cursor_of page.1), w'))
          × Closed w'
    unfolding list_articles
    list_articles_served fromisoformat n cursor after author w small given read c =
        let (w', served, still) = page_served (suc n) after author w c in
        (
          w',
          ground (arith, limit_of-le n small, author_of-IsAuthor author given, read, served),
          still,
        )
