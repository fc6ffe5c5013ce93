-- ===== src/Cache/Articles/Fallback.antt =====
-- The operations of app/cache/article_cache.py as one type of calls, with their fallbacks, and the
-- cache switched off, failed, or refused by its breaker.
use scalable_content_platfor.Base.{
  ℕ, ◌≡◌, ap, ◌∙◌, Bool, true, false, not, ◌||◌, Option, none, arith,
}
use scalable_content_platfor.Text.{Text}
use scalable_content_platfor.Effects.{Outcome, ok, CacheOperation, World, M}
use scalable_content_platfor.Request.{Request}
use scalable_content_platfor.Resilience.Breaker.{CircuitBreaker, allow}
use scalable_content_platfor.Resilience.Policy.{redis, DependencyPolicy}
use scalable_content_platfor.Resilience.Guard.{get_breaker, set_breaker}
use scalable_content_platfor.Cache.Articles.{
  Redis, live, command, get_article, get_list_page, peek, get_generations, set_article,
  set_list_page, invalidate_article, bump_generations, acquire_lock, release_lock,
}

-- A call of the article cache.
pub data CacheCall : Type 0 where
  get_article_call invalidate_article_call : ℕ → CacheCall
  get_list_page_call peek_call release_lock_call : Text → CacheCall
  get_generations_call bump_generations_call : Option ℕ → CacheCall
  set_article_call : ℕ → Text → ℕ → CacheCall
  set_list_page_call : Text → Text → ℕ → CacheCall
  acquire_lock_call : Text → ℕ → CacheCall

-- What a call gives where the cache gives nothing: a miss, the generations zero, a won lock.
abbrev pub Answer : CacheCall → Type 0
Answer (get_article_call _) = Option Text
Answer (get_list_page_call _) = Option Text
Answer (peek_call _) = Option Text
Answer (get_generations_call _) = ℕ × ℕ
Answer (acquire_lock_call _ _) = Bool
Answer _ = Unit

abbrev pub fallback : (c : CacheCall) → Answer c
fallback (get_article_call _) = none
fallback (get_list_page_call _) = none
fallback (peek_call _) = none
fallback (get_generations_call _) = (0, 0)
fallback (acquire_lock_call _ _) = true
fallback (invalidate_article_call _) = tt
fallback (release_lock_call _) = tt
fallback (bump_generations_call _) = tt
fallback (set_article_call _ _ _) = tt
fallback (set_list_page_call _ _ _) = tt

module _ {S : Type 0} (client : Redis (Request S)) (enabled : Bool)
    (policy : DependencyPolicy) where
  abbrev pub perform : (c : CacheCall) → M (Request S) (Answer c)
  perform (get_article_call i) = get_article client enabled policy i
  perform (get_list_page_call k) = get_list_page client enabled policy k
  perform (peek_call k) = peek client enabled policy k
  perform (get_generations_call a) = get_generations client enabled policy a
  perform (acquire_lock_call k t) = acquire_lock client enabled policy k t
  perform (invalidate_article_call i) = invalidate_article client enabled policy i
  perform (release_lock_call k) = release_lock client enabled policy k
  perform (bump_generations_call a) = bump_generations client enabled policy a
  perform (set_article_call i b t) = set_article client enabled policy i b t
  perform (set_list_page_call k b t) = set_list_page client enabled policy k b t

  command_off :
      {A B : Type 0} (operation : CacheOperation) (fallback : B) (send : M (Request S) A)
      (after : A → M (Request S) B) (w : World (Request S))
      → (live enabled policy w).0 ≡ false
      → command enabled policy operation fallback send after w
        ≡ (ok fallback, (live enabled policy w).1)
  unfolding command
  command_off operation fallback send after w h = rw h

  -- Where the cache is not live, every operation gives its fallback, sends no command, counts
  -- nothing, and changes at most the breaker that it asked.
  pub perform_off :
      (c : CacheCall) (w : World (Request S))
      → (live enabled policy w).0 ≡ false
      → perform c w ≡ (ok (fallback c), (live enabled policy w).1)
  unfolding get_article get_list_page peek get_generations set_article set_list_page
      invalidate_article bump_generations acquire_lock release_lock
  perform_off (get_article_call i) w h = command_off _ _ _ _ w h
  perform_off (get_list_page_call k) w h = command_off _ _ _ _ w h
  perform_off (peek_call k) w h = command_off _ _ _ _ w h
  perform_off (get_generations_call a) w h = command_off _ _ _ _ w h
  perform_off (acquire_lock_call k t) w h = command_off _ _ _ _ w h
  perform_off (invalidate_article_call i) w h = command_off _ _ _ _ w h
  perform_off (release_lock_call k) w h = command_off _ _ _ _ w h
  perform_off (bump_generations_call a) w h = command_off _ _ _ _ w h
  perform_off (set_article_call i b t) w h = command_off _ _ _ _ w h
  perform_off (set_list_page_call k b t) w h = command_off _ _ _ _ w h

  live_bypassed :
      (w : World (Request S))
      → not enabled || w.services.degraded ≡ true
      → live enabled policy w ≡ (false, w)
  unfolding live
  live_bypassed w h = ground arith

  live_refused :
      (w : World (Request S)) {b : CircuitBreaker}
      → allow w.now (get_breaker redis policy w) ≡ (false, b)
      → not enabled || w.services.degraded ≡ false
      → live enabled policy w ≡ (false, set_breaker redis b w)
  unfolding live
  live_refused w h on = ground arith

  -- A cache that is switched off, and one that has failed in this request, touches nothing at all:
  -- no command, no breaker, no count; the request gets the fallback.
  pub perform_bypassed :
      (c : CacheCall) (w : World (Request S))
      → not enabled || w.services.degraded ≡ true
      → perform c w ≡ (ok (fallback c), w)
  perform_bypassed c w h =
      let off = live_bypassed w h in
      perform_off c w (ap (λ r. r.0) off)
      ∙ ap {B = Outcome (Answer c) × World (Request S)} (λ r. (ok (fallback c), r.1)) off

  -- The same where the breaker of Redis refuses the call, but for the breaker's own state.
  pub perform_refused :
      (c : CacheCall) (w : World (Request S)) {b : CircuitBreaker}
      → allow w.now (get_breaker redis policy w) ≡ (false, b)
      → not enabled || w.services.degraded ≡ false
      → perform c w ≡ (ok (fallback c), set_breaker redis b w)
  perform_refused c w {b} h on =
      let off = live_refused w h on in
      perform_off c w (ap (λ r. r.0) off)
      ∙ ap {B = Outcome (Answer c) × World (Request S)} (λ r. (ok (fallback c), r.1)) off
