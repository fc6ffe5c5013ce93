-- ===== src/Cache/Articles/Budget.antt =====
-- The failures that one request counts (`observe_cache_error` in app/cache/article_cache.py).
use scalable_content_platfor.Base.{
  inl, inr, ℕ, suc, ◌+◌, ◌≤◌, ◌≡◌, Bool, true, false, Option, none, some, List, [], ◌∷◌, arith,
  if◌then◌else◌,
}
use scalable_content_platfor.Text.{Text}
use scalable_content_platfor.Effects.{
  Outcome-cases, CacheEntity, CacheOperation, Metric, cache_error, World, M, pure,
}
use scalable_content_platfor.Request.{Request}
use scalable_content_platfor.Resilience.Policy.{DependencyPolicy}
use scalable_content_platfor.Resilience.Guard.{heard_success, heard_failure}
use scalable_content_platfor.Cache.Articles.{
  Redis, live, degrade, succeed, command, count_read, read, write, get_article, get_list_page, peek,
  get_generations, set_article, set_list_page, invalidate_article, bump_generations,
  send_increments, acquire_lock, release_lock,
}
use scalable_content_platfor.Cache.Articles.Fallback.{
  CacheCall, perform, get_article_call, get_list_page_call, peek_call, get_generations_call,
  acquire_lock_call, invalidate_article_call, release_lock_call, bump_generations_call,
  set_article_call, set_list_page_call,
}
use scalable_content_platfor.Cache.Keys.{generation_key, author_generation_key}

-- How many failures the request has counted.
abbrev pub errors : List Metric → ℕ
errors [] = 0
errors (cache_error o ∷ ms) = suc (errors ms)
errors (m ∷ ms) = errors ms

-- The failures so far, and the one that is still possible.
abbrev budget : {S : Type 0} → World (Request S) → ℕ
budget w = errors w.counted + (if w.services.degraded then 0 else 1)

-- The commands themselves leave the request's counters and its latch alone.
abbrev pub Keeps : {S A : Type 0} → M (Request S) A → Type 0
Keeps {S} m =
    (w : World (Request S))
    → ((m w).1.counted ≡ w.counted) × ((m w).1.services.degraded ≡ w.services.degraded)

pub record LeavesRequest {S : Type 0} (client : Redis (Request S)) : Type 0 where
  pub get_keeps : (k : Text) → Keeps (client.get_key k)
  pub mget_keeps : (ks : List Text) → Keeps (client.mget ks)
  pub set_keeps : (k v : Text) (t : ℕ) → Keeps (client.set_key k v t)
  pub nx_keeps : (k v : Text) (t : ℕ) → Keeps (client.set_nx k v t)
  pub delete_keeps : (k : Text) → Keeps (client.delete_key k)
  pub incr_keeps : (k : Text) → Keeps (client.incr_key k)

live_keeps :
    {S : Type 0} (enabled : Bool) (policy : DependencyPolicy) (w : World (Request S))
    → ((live enabled policy w).1.counted ≡ w.counted)
      × ((live enabled policy w).1.services.degraded ≡ w.services.degraded)
      × ((live enabled policy w).0 ≡ true → w.services.degraded ≡ false)
unfolding live
live_keeps enabled policy w = ground arith

command_budget :
    {S A B : Type 0} (enabled : Bool) (policy : DependencyPolicy) (operation : CacheOperation)
    (fallback : B) (send : M (Request S) A) (after : A → M (Request S) B) (w : World (Request S))
    → Keeps send
    → ((a : A) (w : World (Request S)) → budget (after a w).1 ≤ budget w)
    → budget (command enabled policy operation fallback send after w).1 ≤ budget w
unfolding command degrade succeed heard_failure heard_success
command_budget enabled policy operation fallback send after w keeps frugal =
    let w₁ = (live enabled policy w).1 in
    elim (Outcome-cases (send w₁).0) [
      | inl (a, e) ↦
          ground
            (arith, frugal a (succeed policy (send w₁).1), keeps w₁, live_keeps enabled policy w)
      | inr (x, e) ↦ ground (arith, keeps w₁, live_keeps enabled policy w)
    ]

count_read_budget :
    {S : Type 0} (entity : CacheEntity) (a : Option Text) (w : World (Request S))
    → budget (count_read entity a w).1 ≤ budget w
unfolding count_read
count_read_budget entity none w = omega arith
count_read_budget entity (some a) w = omega arith

pure_budget : {S A : Type 0} (a : A) (w : World (Request S)) → budget (pure a w).1 ≤ budget w
pure_budget a w = omega arith

module _ {S : Type 0} (client : Redis (Request S)) (quiet : LeavesRequest client) where
  increments_keep : (a : Option ℕ) → Keeps (send_increments client a)
  unfolding send_increments
  increments_keep none = quiet.incr_keeps generation_key
  increments_keep (some a) = λ w.
      let k = author_generation_key a in
      ground (
        arith,
        quiet.incr_keeps generation_key w,
        quiet.incr_keeps k (client.incr_key generation_key w).1,
      )

  module _ (enabled : Bool) (policy : DependencyPolicy) where
    perform_budget :
        (c : CacheCall) (w : World (Request S))
        → budget (perform client enabled policy c w).1 ≤ budget w
    unfolding get_article get_list_page peek get_generations set_article set_list_page
        invalidate_article bump_generations acquire_lock release_lock read write
    perform_budget (get_article_call i) w =
        command_budget _ _ _ _ _ _ w (quiet.get_keeps _) (count_read_budget _)
    perform_budget (get_list_page_call k) w =
        command_budget _ _ _ _ _ _ w (quiet.get_keeps _) (count_read_budget _)
    perform_budget (peek_call k) w = command_budget _ _ _ _ _ _ w (quiet.get_keeps _) pure_budget
    perform_budget (get_generations_call a) w =
        command_budget _ _ _ _ _ _ w (quiet.mget_keeps _) (λ vs w'. omega arith)
    perform_budget (acquire_lock_call k t) w =
        command_budget _ _ _ _ _ _ w (quiet.nx_keeps _ _ _) pure_budget
    perform_budget (invalidate_article_call i) w =
        command_budget _ _ _ _ _ _ w (quiet.delete_keeps _) pure_budget
    perform_budget (release_lock_call k) w =
        command_budget _ _ _ _ _ _ w (quiet.delete_keeps _) pure_budget
    perform_budget (bump_generations_call a) w =
        command_budget _ _ _ _ _ _ w (increments_keep a) pure_budget
    perform_budget (set_article_call i b t) w =
        command_budget _ _ _ _ _ _ w (quiet.set_keeps _ _ _) pure_budget
    perform_budget (set_list_page_call k b t) w =
        command_budget _ _ _ _ _ _ w (quiet.set_keeps _ _ _) pure_budget

    -- The calls of one request, one after another.
    pub perform_all : List CacheCall → World (Request S) → World (Request S)
    perform_all [] w = w
    perform_all (c ∷ cs) w = perform_all cs (perform client enabled policy c w).1

    perform_all_budget :
        (cs : List CacheCall) (w : World (Request S)) → budget (perform_all cs w) ≤ budget w
    unfolding perform_all
    perform_all_budget [] w = omega arith
    perform_all_budget (c ∷ cs) w =
        omega
          (arith, perform_budget c w, perform_all_budget cs (perform client enabled policy c w).1)

    -- However many calls a request makes and however Redis fails, it counts at most one failure,
    -- with a client that leaves the request's counters and its latch alone.
    pub errors-perform_all :
        (cs : List CacheCall) (w : World (Request S))
        → errors (perform_all cs w).counted ≤ errors w.counted + 1
    errors-perform_all cs w = ground (arith, perform_all_budget cs w)
