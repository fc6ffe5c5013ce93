-- ===== src/Articles/Coherent/Polled.antt =====
-- The wait for another loader (`_await_loader` of app/services/article_service.py), for any key.
use scalable_content_platfor.Base.{ℕ, zero, suc, ◌+◌, ◌/◌, Option, none, some, ltb}
use scalable_content_platfor.Text.{Text}
use scalable_content_platfor.Effects.{Outcome, ok, raise, World}
use scalable_content_platfor.Request.{Request}
use scalable_content_platfor.Resilience.Guard.Kept.{Returns, Post, Kept, KeptBy}
use scalable_content_platfor.Cache.Articles.{peek}
use scalable_content_platfor.Articles.Service.{Service, poll, await_loader, poll_interval}
use scalable_content_platfor.Articles.Kept.{Outside, if-Post}

-- What is asked of the bodies under the key, and that no body at all is fine.
module _ {S : Type 0} (J : S → Type 0) (service : Service S) (key : Text) (Q : Option Text → Type 0)
    (nothing : Q none)
    (peek_kept : Kept
      (Outside J)
      Q
      (peek service.client service.cache_enabled service.policies.cache key))
    (sleep_kept : (d : ℕ) → KeptBy (Outside J) (service.sleep d)) where
  open service use {policies, client, cache_enabled, sleep, lock_timeout}

  polled : (fuel deadline : ℕ) → Kept (Outside J) Q (poll service fuel deadline key)
  unfolding poll
  polled zero deadline w j = (j, nothing)
  polled (suc fuel) deadline w j =
      let look = peek client cache_enabled policies.cache key (sleep poll_interval w) in
      let seen = peek_kept (sleep poll_interval w) (sleep_kept poll_interval w j) in
      let again = polled fuel deadline look.1 seen.0 in
      if-Post J Q (ltb w.now deadline) _ (ok none, w) (round look seen.0 seen.1 again) (j, nothing)
    where
      round :
          (look : Outcome (Option Text) × World (Request S))
          → J look.1.services.server
          → Returns Q look.0
          → Post (Outside J) Q (poll service fuel deadline key look.1)
          → Post (Outside J) Q (elim look.0 [
            | ok (some body) ↦ (ok (some body), look.1)
            | ok none ↦ poll service fuel deadline key look.1
            | raise e ↦ (raise e, look.1)
          ])
      round (ok none, v) k q again = again
      round (ok (some body), v) k q again = (k, q)
      round (raise e, v) k q again = (k, tt)

  pub await_loader-Kept : Kept (Outside J) Q (await_loader service key)
  unfolding await_loader
  await_loader-Kept w j = polled (lock_timeout / poll_interval + 1) (w.now + lock_timeout) w j
