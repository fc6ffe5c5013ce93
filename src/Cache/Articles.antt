-- ===== src/Cache/Articles.antt =====
-- The article cache (app/cache/article_cache.py): every operation asks first whether the cache is
-- live, turns a failure of Redis into its fallback, and reports to the breaker of Redis. The client
-- is redis-py's, and a parameter. The breaker is `get_breaker`'s: the object keeps a reference to
-- it from its first use on, and nothing replaces it.
pub mod Fallback
pub mod Latch
pub mod Budget
pub mod Generations
mod Examples
use scalable_content_platfor.Base.{
  ℕ, ◌+◌, Bool, true, false, not, ◌||◌, List, [], ◌∷◌, ◌++◌, map, Option, none, some, max, is_some,
  if◌then◌else◌,
}
use scalable_content_platfor.Text.{Text, codes, isdigit, parse}
use scalable_content_platfor.Effects.{
  Exception, redis_connection_error, redis_timeout_error, redis_other, timeout_error, os_error,
  Outcome, ok, raise, CacheEntity, article, list, CacheOperation, get, set, delete, incr, lock,
  cache_hit, cache_miss, cache_error, World, M, ◌>>=◌, ◌>>◌, pure, modify, count,
}
use scalable_content_platfor.Request.{Request}
use scalable_content_platfor.Resilience.Breaker.{allow}
use scalable_content_platfor.Resilience.Policy.{redis, DependencyPolicy}
use scalable_content_platfor.Resilience.Guard.{
  get_breaker, set_breaker, heard_success, heard_failure,
}
use scalable_content_platfor.Cache.Keys.{
  article_key, generation_key, author_generation_key, lock_key,
}

-- `isinstance(error, CACHE_FAILURES)`
unfoldable pub is_cache_failure : Exception → Bool
is_cache_failure redis_connection_error = true
is_cache_failure redis_timeout_error = true
is_cache_failure redis_other = true
is_cache_failure timeout_error = true
is_cache_failure os_error = true
is_cache_failure _ = false

-- The commands of the client that the cache sends. `set_nx` is `SET … NX`.
pub record Redis (S : Type 0) : Type 0 where
  pub get_key : Text → M S (Option Text)
  pub mget : List Text → M S (List (Option Text))
  pub set_key : Text → Text → ℕ → M S (Unit {0})
  pub set_nx : Text → Text → ℕ → M S Bool
  pub delete_key : Text → M S (Unit {0})
  pub incr_key : Text → M S (Unit {0})

-- A counter value, or 0 for anything that is not one. INCR writes plain digits, at most 19 of them. A
-- text that `int` reads with a sign or spaces, and one of more than 4300 digits, which it refuses so
-- that the source gives 0, are not modelled: the first gives 0 here, and the second its value.
unfoldable pub as_int : Option Text → ℕ
as_int none = 0
as_int (some s) = if isdigit s then parse s else 0

module _ {S : Type 0} where
  unfoldable pub degrade : DependencyPolicy → CacheOperation → World (Request S) → World (Request S)
  degrade policy operation w =
      count (cache_error operation)
        (heard_failure redis policy (record w { services = record w.services { degraded = true } }))

  unfoldable pub succeed : DependencyPolicy → World (Request S) → World (Request S)
  succeed policy w = heard_success redis policy w

module _ {S : Type 0} (enabled : Bool) (policy : DependencyPolicy) where
  -- The three gates.
  unfoldable pub live : World (Request S) → Bool × World (Request S)
  live w =
      if not enabled || w.services.degraded
      then (false, w)
      else let (allowed, b) = allow w.now (get_breaker redis policy w) in
        (allowed, set_breaker redis b w)

  module _ {A B : Type 0} where
    -- The frame that the operations share: the fallback unless live, one command, the fallback on a
    -- failure of the cache, and `after` on its answer.
    unfoldable pub command :
        CacheOperation → B → M (Request S) A → (A → M (Request S) B) → M (Request S) B
    unfolding live degrade succeed
    command operation fallback send after w =
        let (alive, w₁) = live w in
        let (answer, w₂) = send w₁ in
        if not alive then (ok fallback, w₁) else elim answer [
          | ok a ↦ after a (succeed policy w₂)
          | raise e ↦
              if is_cache_failure e
              then (ok fallback, degrade policy operation w₂)
              else (raise e, w₂)
        ]

module _ {S : Type 0} where
  -- What `_get` counts.
  unfoldable pub count_read : CacheEntity → Option Text → M (Request S) (Option Text)
  count_read entity none w = (ok none, count (cache_miss entity) w)
  count_read entity (some body) w = (ok (some body), count (cache_hit entity) w)

-- `[generation_key()]`, and the author's if there is one.
abbrev pub generation_keys : Option ℕ → List Text
generation_keys none = generation_key ∷ []
generation_keys (some author_id) = generation_key ∷ author_generation_key author_id ∷ []

-- The first two of the parsed values, padded with zeros.
abbrev pub first_two : List ℕ → ℕ × ℕ
first_two [] = (0, 0)
first_two (a ∷ []) = (a, 0)
first_two (a ∷ b ∷ _) = (a, b)

module _ {S : Type 0} (client : Redis (Request S)) where
  -- The two commands inside one `try`.
  unfoldable pub send_increments : Option ℕ → M (Request S) (Unit {0})
  send_increments none = client.incr_key generation_key
  send_increments (some author_id) = do
    client.incr_key generation_key
    client.incr_key (author_generation_key author_id)

module _ {S : Type 0} (client : Redis (Request S)) (enabled : Bool)
    (policy : DependencyPolicy) where
  unfoldable pub read : Text → CacheEntity → M (Request S) (Option Text)
  read key entity = command enabled policy get none (client.get_key key) (count_read entity)

  unfoldable pub get_article : ℕ → M (Request S) (Option Text)
  unfolding read
  get_article article_id = read (article_key article_id) article

  unfoldable pub get_list_page : Text → M (Request S) (Option Text)
  unfolding read
  get_list_page key = read key list

  unfoldable pub peek : Text → M (Request S) (Option Text)
  peek key = command enabled policy get none (client.get_key key) pure

  unfoldable pub get_generations : Option ℕ → M (Request S) (ℕ × ℕ)
  get_generations author_id =
      command enabled policy get (0, 0) (client.mget (generation_keys author_id))
        (λ values. pure (first_two (map as_int values)))

  unfoldable pub write : Text → Text → ℕ → M (Request S) (Unit {0})
  write key body ttl_seconds =
      command enabled policy set tt (client.set_key key body (max 1 ttl_seconds)) pure

  unfoldable pub set_article : ℕ → Text → ℕ → M (Request S) (Unit {0})
  unfolding write
  set_article article_id body ttl_seconds = write (article_key article_id) body ttl_seconds

  unfoldable pub set_list_page : Text → Text → ℕ → M (Request S) (Unit {0})
  unfolding write
  set_list_page key body ttl_seconds = write key body ttl_seconds

  unfoldable pub invalidate_article : ℕ → M (Request S) (Unit {0})
  invalidate_article article_id =
      command enabled policy delete tt (client.delete_key (article_key article_id)) pure

  unfoldable pub bump_generations : Option ℕ → M (Request S) (Unit {0})
  bump_generations author_id =
      command enabled policy incr tt (send_increments client author_id) pure

  unfoldable pub acquire_lock : Text → ℕ → M (Request S) Bool
  acquire_lock key ttl_seconds =
      command enabled policy lock true
        (client.set_nx (lock_key key) (codes "1") (max 1 ttl_seconds)) pure

  unfoldable pub release_lock : Text → M (Request S) (Unit {0})
  release_lock key = command enabled policy lock tt (client.delete_key (lock_key key)) pure
