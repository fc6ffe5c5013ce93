-- ===== src/Cache/Articles/Examples.antt =====
-- A server whose keys are a function, one that cannot be reached, and the cache's operations on
-- both.
use scalable_content_platfor.Base.{
  ℕ, suc, ◌+◌, ◌≡◌, ◌≢◌, refl, true, false, Option, none, some, [], ◌∷◌, map, ◌≤◌, arith, inl,
  if◌then◌else◌,
}
use scalable_content_platfor.Text.{Text, decimal, text_eq}
use scalable_content_platfor.Text.Decimal.{parse-decimal, isdigit-decimal}
use scalable_content_platfor.Effects.{redis_connection_error, ok, raise, World, Registry}
use scalable_content_platfor.Request.{Request}
use scalable_content_platfor.Resilience.Breaker.{CircuitBreaker, allow, opened}
use scalable_content_platfor.Resilience.Guard.{get_breaker, heard_success, new_breaker}
use scalable_content_platfor.Resilience.Fixtures.{policies, empty}
use scalable_content_platfor.Cache.Keys.{list_key}
use scalable_content_platfor.Cache.Articles.{
  is_cache_failure, Redis, as_int, live, command, succeed, bump_generations, send_increments,
}
use scalable_content_platfor.Cache.Articles.Fallback.{
  get_article_call, bump_generations_call, perform,
}
use scalable_content_platfor.Cache.Articles.Latch.{FailsSafely, IsOk, perform_total}
use scalable_content_platfor.Cache.Articles.Budget.{
  LeavesRequest, errors, perform_all, errors-perform_all,
}
use scalable_content_platfor.Cache.Articles.Generations.{
  Counts, generation, bump_generations_unreachable,
}

abbrev Keys : Type 0
Keys = Text → Option Text

abbrev store : Text → Option Text → World (Request Keys) → World (Request Keys)
store k v w = record w {
  services = record w.services { server = λ j. if text_eq k j then v else w.services.server j };
}

abbrev server : Redis (Request Keys)
server = record {
  get_key = λ k w. (ok (w.services.server k), w);
  mget = λ ks w. (ok (map w.services.server ks), w);
  set_key = λ k v t w. (ok tt, store k (some v) w);
  set_nx = λ k v t w. (ok true, store k (some v) w);
  delete_key = λ k w. (ok tt, store k none w);
  incr_key = λ k w. (ok tt, store k (some (decimal (suc (as_int (w.services.server k))))) w);
}

-- Every command fails to connect.
abbrev down : Redis (Request Keys)
down = record {
  get_key = λ k w. (raise redis_connection_error, w);
  mget = λ ks w. (raise redis_connection_error, w);
  set_key = λ k v t w. (raise redis_connection_error, w);
  set_nx = λ k v t w. (raise redis_connection_error, w);
  delete_key = λ k w. (raise redis_connection_error, w);
  incr_key = λ k w. (raise redis_connection_error, w);
}

text_eq_refl : (s : Text) → text_eq s s ≡ true
unfolding text_eq
text_eq_refl [] = refl
text_eq_refl (a ∷ s) = ground (arith, text_eq_refl s)

text_eq-eq : (s t : Text) → text_eq s t ≡ true → s ≡ t
unfolding text_eq
text_eq-eq [] [] h = refl
text_eq-eq [] (b ∷ t) h = ground arith
text_eq-eq (a ∷ s) [] h = ground arith
text_eq-eq (a ∷ s) (b ∷ t) h = ground (arith, text_eq-eq s t)

as_int-decimal : (n : ℕ) → as_int (some (decimal n)) ≡ n
unfolding as_int
as_int-decimal n = rw (isdigit-decimal n) (parse-decimal n)

abbrev stored : Keys → Text → Option Text
stored s k = s k

server-Counts : Counts server stored
server-Counts = record {
  incr_self = λ k w h. rw (text_eq_refl k) (as_int-decimal _);
  incr_other = λ k j w h. ground (arith, text_eq-eq k j);
  incr_latch = λ k w. refl;
}

down-FailsSafely : FailsSafely down
unfolding is_cache_failure
down-FailsSafely = record {
  get_safe = λ k w. refl;
  mget_safe = λ ks w. refl;
  set_safe = λ k v t w. refl;
  nx_safe = λ k v t w. refl;
  delete_safe = λ k w. refl;
  incr_safe = λ k w. refl;
}

down-LeavesRequest : LeavesRequest down
down-LeavesRequest = record {
  get_keeps = λ k w. (refl, refl);
  mget_keeps = λ ks w. (refl, refl);
  set_keeps = λ k v t w. (refl, refl);
  nx_keeps = λ k v t w. (refl, refl);
  delete_keeps = λ k w. (refl, refl);
  incr_keeps = λ k w. (refl, refl);
}

abbrev request : Registry → World (Request Keys)
request breakers = record {
  now = 1000;
  breakers = breakers;
  counted = [];
  services = record { degraded = false; pending = []; server = λ k. none };
}

abbrev fresh : World (Request Keys)
fresh = request empty

abbrev degraded : World (Request Keys)
degraded = record fresh { services = record fresh.services { degraded = true } }

-- The breaker of Redis, open since the request's now.
abbrev open_breaker : CircuitBreaker
open_breaker = record (new_breaker policies.cache) { state = opened; opened_at = 1000 }

abbrev refusing : World (Request Keys)
refusing = request (record empty { redis_breaker = some open_breaker })

perform_total_example :
    IsOk (perform down true policies.cache (bump_generations_call (some 7)) fresh).0
perform_total_example =
    perform_total down down-FailsSafely true policies.cache (bump_generations_call (some 7)) fresh

-- Two operations on a server that is down: the second is the fallback without a command.
errors-perform_all_example :
    errors
      (perform_all down down-LeavesRequest true policies.cache
        (get_article_call 42 ∷ get_article_call 43 ∷ [])
        fresh).counted
    ≤ 0 + 1
errors-perform_all_example =
    errors-perform_all down down-LeavesRequest true policies.cache
      (get_article_call 42 ∷ get_article_call 43 ∷ []) fresh

abbrev keep : Text → Text
keep material = material

bump_generations_unreachable_example :
    let w' = (bump_generations server true policies.cache (some 7) fresh).1 in
    list_key keep (generation stored none fresh) none 20 none
    ≢ list_key keep (generation stored none w') none 20 none
unfolding bump_generations command live succeed send_increments heard_success get_breaker
    new_breaker allow
bump_generations_unreachable_example =
    bump_generations_unreachable server stored server-Counts true policies.cache 7 fresh refl refl
      refl keep none 20 20 none none (inl refl) (λ e. e)
