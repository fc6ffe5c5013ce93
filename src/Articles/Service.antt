-- ===== src/Articles/Service.antt =====
-- The article service (app/services/article_service.py), with the cache-aside read path. The spans
-- around the operations are left out. JSON is pydantic's and the json module's, and a parameter: a
-- text that does not validate decodes to `none`.
use scalable_content_platfor.Base.{
  ℕ, zero, suc, ◌+◌, ◌/◌, ◌≤◌, Bool, not, ◌&&◌, List, [], ◌∷◌, length, take, Option, none, some,
  max, is_some, ltb, leb, ◌==◌, if◌then◌else◌,
}
use scalable_content_platfor.Base.Int.{ℤ}
use scalable_content_platfor.Text.{Text}
use scalable_content_platfor.Effects.{
  domain, article_not_found, conflict, forbidden, ok, raise, World, M, ◌>>=◌, ◌>>◌, pure, throw,
  modify,
}
use scalable_content_platfor.Request.{Invalidation, Request}
use scalable_content_platfor.Resilience.Policy.{Policies}
use scalable_content_platfor.Resilience.Guard.{Runtime}
use scalable_content_platfor.Cache.Keys.{
  Datetime, article_key, list_key, cursor_parts, jittered_ttl, round_micros,
}
use scalable_content_platfor.Cache.Articles
use scalable_content_platfor.Cache.Articles.{Redis}
use scalable_content_platfor.Db.Session.{after_commit}
use scalable_content_platfor.Articles.{
  Article, User, is_admin, ArticleSummaryOut, ArticleOut, article_out,
}
use scalable_content_platfor.Articles.Repository
use scalable_content_platfor.Articles.Repository.{Database}

abbrev pub Position : Type 0
Position = Datetime × ℕ

abbrev pub Page : Type 0
Page = List ArticleSummaryOut × Option Position

pub record Codec : Type 0 where
  pub encode_article : ArticleOut → Text
  pub decode_article : Text → Option ArticleOut
  pub encode_page : Page → Text
  pub decode_page : Text → Option Page

-- What the service is constructed with, and what lies around it. `sleep` is `asyncio.sleep`, and
-- the draws of the jitter are read off the world.
pub record Service (S : Type 0) : Type 1 where
  pub runtime : Runtime (Request S)
  pub policies : Policies
  pub db : Database (Request S)
  pub client : Redis (Request S)
  pub cache_enabled : Bool
  pub has_session : Bool
  pub codec : Codec
  pub sha256_16 : Text → Text
  pub article_ttl : ℕ
  pub list_ttl : ℕ
  pub jitter : ℤ
  pub lock_timeout : ℕ
  pub draw : World (Request S) → ℕ
  pub sleep : ℕ → World (Request S) → World (Request S)
  pub sleep_law : (d : ℕ) (w : World (Request S)) → w.now + d ≤ (sleep d w).now

abbrev pub poll_interval : ℕ
poll_interval = 20000

module _ {S A : Type 0} where
  -- `try: … finally: …`; an exception of the last part takes the place of the first one's.
  abbrev pub finally : M (Request S) A → M (Request S) (Unit {0}) → M (Request S) A
  finally body last w =
      let (r, w') = body w in
      let (l, w'') = last w' in elim l [ ok _ ↦ (r, w'') | raise e ↦ (raise e, w'') ]

-- A parsed body, or a miss.
abbrev pub decode : {A : Type 0} → (Text → Option A) → Option Text → Option A
decode parse none = none
decode parse (some body) = parse body

-- `if article.author_id != actor.id and not actor.is_admin`
unfoldable pub authorize : {S : Type 0} → User → Article → M S (Unit {0})
unfolding is_admin
authorize actor article =
    if not (article.author_id == actor.id) && not (is_admin actor)
    then throw (domain forbidden)
    else pure tt

-- `last = page[-1]` and its position; an empty page has none (`limit` is at least 1).
unfoldable pub last_position : List ArticleSummaryOut → Option Position
last_position [] = none
last_position (r ∷ []) = some (r.created_at, r.id)
last_position (r ∷ s ∷ rows) = last_position (s ∷ rows)

-- The sentinel row proves that another page exists.
unfoldable pub page_of_rows : ℕ → List ArticleSummaryOut → Page
unfolding last_position
page_of_rows limit rows =
    if leb (length rows) limit
    then (rows, none)
    else (take limit rows, last_position (take limit rows))

module _ {S : Type 0} (service : Service S) where
  open service use {
    runtime, policies, db, client, cache_enabled, has_session, codec, sha256_16, article_ttl,
    list_ttl, jitter, lock_timeout, draw, sleep,
  }

  abbrev pub lock_ttl : ℕ
  lock_ttl = max 1 (round_micros lock_timeout)

  -- `_load`
  unfoldable pub load : ℕ → M (Request S) Article
  load article_id = do
    article ← Repository.get runtime policies.database db article_id
    elim article [ none ↦ throw (domain article_not_found) | some a ↦ pure a ]

  -- `_load_page`
  unfoldable pub load_page : ℕ → Option Position → Option ℕ → M (Request S) Page
  unfolding page_of_rows
  load_page limit after author_id = do
    rows ← Repository.list runtime policies.database db (limit + 1) after author_id
    pure (page_of_rows limit rows)

  -- The loop of `_await_loader`; enough fuel is the number of polls that fit before the deadline.
  unfoldable pub poll : ℕ → ℕ → Text → M (Request S) (Option Text)
  poll zero deadline key w = (ok none, w)
  poll (suc fuel) deadline key w =
      let (r, w') = Articles.peek client cache_enabled policies.cache key (sleep poll_interval w) in
      let again = poll fuel deadline key w' in
      if ltb w.now deadline
      then elim r [
        | ok (some body) ↦ (ok (some body), w')
        | ok none ↦ again
        | raise e ↦ (raise e, w')
      ]
      else (ok none, w)

  unfoldable pub await_loader : Text → M (Request S) (Option Text)
  unfolding poll
  await_loader key w = poll (lock_timeout / poll_interval + 1) (w.now + lock_timeout) key w

  -- `_invalidate_after_commit`
  unfoldable pub invalidate_after_commit : Option ℕ → ℕ → M (Request S) (Unit {0})
  invalidate_after_commit article_id author_id = modify (λ w.
      if has_session
      then after_commit (record { article_id = article_id; author_id = author_id }) w
      else w)

  -- The queued closure.
  unfoldable pub invalidate : Invalidation → M (Request S) (Unit {0})
  invalidate i = do
    elim i.article_id [
      | none ↦ pure tt
      | some article_id ↦ Articles.invalidate_article client cache_enabled policies.cache article_id
    ]
    Articles.bump_generations client cache_enabled policies.cache (some i.author_id)

  unfoldable pub create : User → Text → Text → M (Request S) ArticleOut
  create actor title body = do
    article ← Repository.create runtime policies.database db actor.id title body
    invalidate_after_commit none actor.id
    pure (article_out article)

  -- The `try` of `get`, and its `finally`.
  unfoldable pub load_and_store : ℕ → Bool → M (Request S) ArticleOut
  load_and_store article_id won =
      finally
        (do
          article ← load article_id
          let dto = article_out article
          (λ w.
              Articles.set_article client cache_enabled policies.cache article_id
                (codec.encode_article dto) (jittered_ttl article_ttl jitter (draw w)) w)
          pure dto)
        (if won
          then Articles.release_lock client cache_enabled policies.cache (article_key article_id)
          else pure tt)

  unfoldable pub get : ℕ → M (Request S) ArticleOut
  get article_id = do
    body ← Articles.get_article client cache_enabled policies.cache article_id
    elim (decode codec.decode_article body) [
      | some cached ↦ pure cached
      | none ↦ do
        won ←
            Articles.acquire_lock client cache_enabled policies.cache (article_key article_id)
              lock_ttl
        waited ← (if won then pure none else await_loader (article_key article_id))
        elim (decode codec.decode_article waited) [
          | some dto ↦ pure dto
          | none ↦ load_and_store article_id won
        ]
    ]

  -- The `try` of `list_articles`, and its `finally`.
  unfoldable pub load_and_store_page :
      Text → ℕ → Option Position → Option ℕ → Bool → M (Request S) Page
  load_and_store_page key limit after author_id won =
      finally
        (do
          page ← load_page limit after author_id
          (λ w.
              Articles.set_list_page client cache_enabled policies.cache key
                (codec.encode_page page) (jittered_ttl list_ttl jitter (draw w)) w)
          pure page)
        (if won then Articles.release_lock client cache_enabled policies.cache key else pure tt)

  abbrev pub page_key : ℕ × ℕ → ℕ → Option Position → Option ℕ → Text
  page_key (global_gen, author_gen) limit after author_id =
      list_key sha256_16 (if is_some author_id then author_gen else global_gen) author_id limit
        (cursor_parts after)

  unfoldable pub list_articles : ℕ → Option Position → Option ℕ → M (Request S) Page
  list_articles limit after author_id = do
    generations ← Articles.get_generations client cache_enabled policies.cache author_id
    let key = page_key generations limit after author_id
    body ← Articles.get_list_page client cache_enabled policies.cache key
    elim (decode codec.decode_page body) [
      | some cached ↦ pure cached
      | none ↦ do
        won ← Articles.acquire_lock client cache_enabled policies.cache key lock_ttl
        waited ← (if won then pure none else await_loader key)
        elim (decode codec.decode_page waited) [
          | some page ↦ pure page
          | none ↦ load_and_store_page key limit after author_id won
        ]
    ]

  -- `_raise_conflict_or_not_found`
  unfoldable pub raise_conflict_or_not_found : ℕ → M (Request S) (Unit {0})
  raise_conflict_or_not_found article_id = do
    article ← Repository.get runtime policies.database db article_id
    throw (domain (if is_some article then conflict else article_not_found))

  unfoldable pub update : User → ℕ → Text → Text → Datetime → M (Request S) ArticleOut
  update actor article_id title body expected_updated_at = do
    article ← load article_id
    authorize actor article
    rowcount ←
        Repository.update_cas runtime policies.database db article_id expected_updated_at title body
    if rowcount == 0 then raise_conflict_or_not_found article_id else pure tt
    invalidate_after_commit (some article_id) article.author_id
    fresh ← load article_id
    pure (article_out fresh)

  unfoldable pub delete : User → ℕ → Datetime → M (Request S) (Unit {0})
  delete actor article_id expected_updated_at = do
    article ← load article_id
    authorize actor article
    rowcount ←
        Repository.soft_delete_cas runtime policies.database db article_id expected_updated_at
    if rowcount == 0 then raise_conflict_or_not_found article_id else pure tt
    invalidate_after_commit (some article_id) article.author_id
