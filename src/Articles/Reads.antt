-- ===== src/Articles/Reads.antt =====
-- `_await_loader` of app/services/article_service.py.
use scalable_content_platfor.Base.{
  ℕ, zero, suc, ◌+◌, ◌*◌, ◌/◌, ◌≤◌, ◌≡◌, Bool, Option, none, arith, inl, inr,
}
use scalable_content_platfor.Text.{Text}
use scalable_content_platfor.Effects.{Outcome, Outcome-cases, ok, World}
use scalable_content_platfor.Request.{Request}
use scalable_content_platfor.Resilience.Policy.{DependencyPolicy}
use scalable_content_platfor.Resilience.Guard.{heard_success, heard_failure}
use scalable_content_platfor.Cache.Articles.{Redis, live, command, degrade, succeed, peek}
use scalable_content_platfor.Articles.Service.{Service, poll, await_loader, poll_interval}

-- The clock of the client's `GET` goes forward.
abbrev pub Forward : {S : Type 0} → Redis (Request S) → Type 0
Forward {S} client = (k : Text) (w : World (Request S)) → w.now ≤ (client.get_key k w).1.now

live_now :
    {S : Type 0} (enabled : Bool) (policy : DependencyPolicy) (w : World (Request S))
    → (live enabled policy w).1.now ≡ w.now
unfolding live
live_now enabled policy w = ground arith

peek-Forward :
    {S : Type 0} (client : Redis (Request S)) (enabled : Bool) (policy : DependencyPolicy)
    → Forward client
    → (key : Text) (w : World (Request S)) → w.now ≤ (peek client enabled policy key w).1.now
unfolding peek command degrade succeed heard_success heard_failure
peek-Forward client enabled policy forward key w =
    let w₁ = (live enabled policy w).1 in
    elim (Outcome-cases (client.get_key key w₁).0) [
      | inl (a, e) ↦ ground (arith, live_now enabled policy w, forward key w₁)
      | inr (x, e) ↦ ground (arith, live_now enabled policy w, forward key w₁)
    ]

module _ {S : Type 0} (service : Service S) (forward : Forward service.client) where
  open service use {client, cache_enabled, policies, lock_timeout, sleep, sleep_law}

  abbrev round : Text → World (Request S) → Outcome (Option Text) × World (Request S)
  round key w = peek client cache_enabled policies.cache key (sleep poll_interval w)

  round_forward : (key : Text) (w : World (Request S)) → w.now + poll_interval ≤ (round key w).1.now
  round_forward key w = omega (
    arith,
    sleep_law poll_interval w,
    peek-Forward client cache_enabled policies.cache forward key (sleep poll_interval w),
  )

  -- One round, given what the next ones do.
  poll_on :
      (fuel more deadline : ℕ) (key : Text) (w : World (Request S))
      → (let r = poll service fuel deadline key (round key w).1 in
          (poll service more deadline key (round key w).1 ≡ r)
          × (r.0 ≡ ok none → deadline ≤ r.1.now))
      → let r = poll service (suc fuel) deadline key w in
        (poll service (suc more) deadline key w ≡ r) × (r.0 ≡ ok none → deadline ≤ r.1.now)
  unfolding poll
  poll_on fuel more deadline key w rest = ground arith

  poll_enough :
      (fuel more deadline : ℕ) (key : Text) (w : World (Request S))
      → deadline ≤ w.now + fuel * poll_interval
      → fuel ≤ more
      → let r = poll service fuel deadline key w in
        (poll service more deadline key w ≡ r) × (r.0 ≡ ok none → deadline ≤ r.1.now)
  unfolding poll
  poll_enough zero zero deadline key w enough h = ground arith
  poll_enough zero (suc more) deadline key w enough h = ground arith
  poll_enough (suc fuel) zero deadline key w enough h = absurd (omega arith)
  poll_enough (suc fuel) (suc more) deadline key w enough h =
      let step = round_forward key w in
      poll_on fuel more deadline key w (
        poll_enough fuel more deadline key (round key w).1 (omega (arith, step, enough))
          (omega (arith, h)))

  -- The polls that await_loader allows are enough: one that may poll more often does the same. And
  -- without a body it gives up no earlier than the lock's timeout. Both for a clock that the
  -- cache's reads do not turn back.
  pub poll-await_loader :
      (more : ℕ) (key : Text) (w : World (Request S))
      → lock_timeout / poll_interval + 1 ≤ more
      → let r = await_loader service key w in
        (poll service more (w.now + lock_timeout) key w ≡ r)
        × (r.0 ≡ ok none → w.now + lock_timeout ≤ r.1.now)
  unfolding await_loader
  poll-await_loader more key w h =
      poll_enough (lock_timeout / poll_interval + 1) more (w.now + lock_timeout) key w (omega arith)
        h
