-- ===== src/Cache/Articles/Latch.antt =====
-- The operations of app/cache/article_cache.py on a Redis that fails.
use scalable_content_platfor.Base.{inl, inr, ℕ, ◌≡◌, Bool, true, Option, none, some, List, arith}
use scalable_content_platfor.Text.{Text}
use scalable_content_platfor.Effects.{
  Outcome-cases, Outcome, ok, raise, CacheEntity, CacheOperation, World, M,
}
use scalable_content_platfor.Request.{Request}
use scalable_content_platfor.Resilience.Policy.{DependencyPolicy}
use scalable_content_platfor.Cache.Articles.{
  is_cache_failure, Redis, live, succeed, command, count_read, read, write, get_article,
  get_list_page, peek, get_generations, set_article, set_list_page, invalidate_article,
  bump_generations, send_increments, acquire_lock, release_lock,
}
use scalable_content_platfor.Cache.Articles.Fallback
use scalable_content_platfor.Cache.Keys.{generation_key, author_generation_key}

-- The client raises nothing but what it documents as its failures.
abbrev pub Safe : {A : Type 0} → Outcome A → Type 0
Safe (ok a) = Unit
Safe (raise e) = is_cache_failure e ≡ true

abbrev pub IsOk : {A : Type 0} → Outcome A → Type 0
IsOk (ok a) = Unit
IsOk (raise e) = ⊥

pub record FailsSafely {S : Type 0} (client : Redis S) : Type 0 where
  pub get_safe : (k : Text) (w : World S) → Safe (client.get_key k w).0
  pub mget_safe : (ks : List Text) (w : World S) → Safe (client.mget ks w).0
  pub set_safe : (k v : Text) (t : ℕ) (w : World S) → Safe (client.set_key k v t w).0
  pub nx_safe : (k v : Text) (t : ℕ) (w : World S) → Safe (client.set_nx k v t w).0
  pub delete_safe : (k : Text) (w : World S) → Safe (client.delete_key k w).0
  pub incr_safe : (k : Text) (w : World S) → Safe (client.incr_key k w).0

command_total :
    {S A B : Type 0} (enabled : Bool) (policy : DependencyPolicy) (operation : CacheOperation)
    (fallback : B) (send : M (Request S) A) (after : A → M (Request S) B) (w : World (Request S))
    → ((w : World (Request S)) → Safe (send w).0)
    → ((a : A) (w : World (Request S)) → IsOk (after a w).0)
    → IsOk (command enabled policy operation fallback send after w).0
unfolding command
command_total enabled policy operation fallback send after w safe total =
    let w₁ = (live enabled policy w).1 in
    elim (Outcome-cases (send w₁).0) [
      | inl (a, e) ↦ ground (arith, total a (succeed policy (send w₁).1))
      | inr (x, e) ↦ ground (arith, safe w₁)
    ]

count_read_total :
    {S : Type 0} (entity : CacheEntity) (a : Option Text) (w : World (Request S))
    → IsOk (count_read entity a w).0
unfolding count_read
count_read_total entity none w = tt
count_read_total entity (some a) w = tt

module _ {S : Type 0} (client : Redis (Request S)) (safe : FailsSafely client) where
  increments-Safe : (a : Option ℕ) (w : World (Request S)) → Safe (send_increments client a w).0
  unfolding send_increments
  increments-Safe none w = safe.incr_safe generation_key w
  increments-Safe (some a) w =
      let k = author_generation_key a in
      ground (
        arith,
        safe.incr_safe generation_key w,
        safe.incr_safe k (client.incr_key generation_key w).1,
      )

  module _ (enabled : Bool) (policy : DependencyPolicy) where
    -- No failure of Redis reaches the request: with a client that raises nothing but its documented
    -- failures, every operation of the cache returns.
    pub perform_total :
        (c : Fallback.CacheCall) (w : World (Request S))
        → IsOk (Fallback.perform client enabled policy c w).0
    unfolding get_article get_list_page peek get_generations set_article set_list_page
        invalidate_article bump_generations acquire_lock release_lock read write
    perform_total (Fallback.get_article_call i) w =
        command_total _ _ _ _ _ _ w (safe.get_safe _) (count_read_total _)
    perform_total (Fallback.get_list_page_call k) w =
        command_total _ _ _ _ _ _ w (safe.get_safe _) (count_read_total _)
    perform_total (Fallback.peek_call k) w =
        command_total _ _ _ _ _ _ w (safe.get_safe _) (λ a w. tt)
    perform_total (Fallback.get_generations_call a) w =
        command_total _ _ _ _ _ _ w (safe.mget_safe _) (λ a w. tt)
    perform_total (Fallback.acquire_lock_call k t) w =
        command_total _ _ _ _ _ _ w (safe.nx_safe _ _ _) (λ a w. tt)
    perform_total (Fallback.invalidate_article_call i) w =
        command_total _ _ _ _ _ _ w (safe.delete_safe _) (λ a w. tt)
    perform_total (Fallback.release_lock_call k) w =
        command_total _ _ _ _ _ _ w (safe.delete_safe _) (λ a w. tt)
    perform_total (Fallback.bump_generations_call a) w =
        command_total _ _ _ _ _ _ w (increments-Safe a) (λ a w. tt)
    perform_total (Fallback.set_article_call i b t) w =
        command_total _ _ _ _ _ _ w (safe.set_safe _ _ _) (λ a w. tt)
    perform_total (Fallback.set_list_page_call k b t) w =
        command_total _ _ _ _ _ _ w (safe.set_safe _ _ _) (λ a w. tt)
