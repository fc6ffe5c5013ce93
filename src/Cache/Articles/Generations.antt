-- ===== src/Cache/Articles/Generations.antt =====
-- The generations of list pages (`bump_generations` of app/cache/article_cache.py) and the keys
-- that carry them.
use scalable_content_platfor.Base.{
  ℕ, suc, ◌≡◌, ◌≢◌, ◌⊎◌, refl, ap, sym, ◌∙◌, Bool, true, false, Option, none, some, get_or, drop,
  inl, inr, arith,
}
use scalable_content_platfor.Text.{Text}
use scalable_content_platfor.Text.Decimal.{decimal_inj}
use scalable_content_platfor.Effects.{Outcome-cases, ok, World}
use scalable_content_platfor.Request.{Request}
use scalable_content_platfor.Resilience.Policy.{DependencyPolicy}
use scalable_content_platfor.Resilience.Guard.{heard_success, heard_failure}
use scalable_content_platfor.Cache.Keys.{
  generation_key, author_generation_key, filter_material, list_key,
}
use scalable_content_platfor.Cache.Keys.Windows.{list_key_inj}
use scalable_content_platfor.Cache.Articles.{
  Redis, as_int, live, degrade, succeed, command, send_increments, bump_generations,
}

pub author_generation_key_inj :
    (a b : ℕ) → author_generation_key a ≡ author_generation_key b → a ≡ b
unfolding author_generation_key
author_generation_key_inj a b e = decimal_inj a b (ap (drop 25) e)

pub generation_key-ne : (a : ℕ) → generation_key ≢ author_generation_key a
unfolding generation_key author_generation_key
generation_key-ne a e =
    let c : ◌≡◌ {A = ℕ} 0 b':' = ap (λ t. get_or t 17 0) e in absurd (omega arith)

-- What redis documents of the two commands, of the keys that are stored.
pub record Counts {S : Type 0} (client : Redis (Request S)) (stored : S → Text → Option Text)
    : Type 0 where
  pub incr_self :
      (k : Text) (w : World (Request S))
      → (client.incr_key k w).0 ≡ ok tt
      → as_int (stored (client.incr_key k w).1.services.server k)
        ≡ suc (as_int (stored w.services.server k))
  pub incr_other :
      (k j : Text) (w : World (Request S))
      → j ≢ k
      → stored (client.incr_key k w).1.services.server j ≡ stored w.services.server j
  pub incr_latch :
      (k : Text) (w : World (Request S))
      → (client.incr_key k w).1.services.degraded ≡ w.services.degraded

-- The generation that a page under the filter is built from.
abbrev pub generation : {S : Type 0} → (S → Text → Option Text) → Option ℕ → World (Request S) → ℕ
generation stored none w = as_int (stored w.services.server generation_key)
generation stored (some a) w = as_int (stored w.services.server (author_generation_key a))

module _ {S : Type 0} (client : Redis (Request S)) (stored : S → Text → Option Text)
    (counts : Counts client stored) where
  increments_move :
      (a : ℕ) (w : World (Request S))
      → (send_increments client (some a) w).0 ≡ ok tt
      → let w' = (send_increments client (some a) w).1 in
        (generation stored none w' ≡ suc (generation stored none w))
        × (generation stored (some a) w' ≡ suc (generation stored (some a) w))
  unfolding send_increments
  increments_move a w h =
      let k = author_generation_key a in
      let w₁ = (client.incr_key generation_key w).1 in
      let other = generation_key-ne a in
      ground (
        arith,
        counts.incr_self generation_key w,
        counts.incr_self k w₁,
        counts.incr_other generation_key k w (λ e. other (sym e)),
        counts.incr_other k generation_key w₁ other,
      )

  increments_keep :
      (a b : ℕ) (w : World (Request S))
      → b ≢ a
      → generation stored (some b) (send_increments client (some a) w).1
        ≡ generation stored (some b) w
  unfolding send_increments
  increments_keep a b w h =
      let k = author_generation_key a in
      let j = author_generation_key b in
      let w₁ = (client.incr_key generation_key w).1 in
      let other = generation_key-ne b in
      ground (
        arith,
        counts.incr_other generation_key j w (λ e. other (sym e)),
        counts.incr_other k j w₁ (λ e. h (author_generation_key_inj b a e)),
      )

live_server :
    {S : Type 0} (enabled : Bool) (policy : DependencyPolicy) (w : World (Request S))
    → (live enabled policy w).1.services.server ≡ w.services.server
unfolding live
live_server enabled policy w = ground arith

-- A bump that was sent and did not fail has sent its increments, on the server that it found.
bump_sent :
    {S : Type 0} (client : Redis (Request S)) (enabled : Bool) (policy : DependencyPolicy)
    (author : Option ℕ) (w : World (Request S))
    → (live enabled policy w).0 ≡ true
    → (bump_generations client enabled policy author w).0 ≡ ok tt
    → (bump_generations client enabled policy author w).1.services.degraded ≡ false
    → ((send_increments client author (live enabled policy w).1).0 ≡ ok tt)
      × ((bump_generations client enabled policy author w).1.services.server
          ≡ (send_increments client author (live enabled policy w).1).1.services.server)
unfolding bump_generations command degrade succeed heard_failure heard_success
bump_sent client enabled policy author w alive done healthy =
    elim (Outcome-cases (send_increments client author (live enabled policy w).1).0) [
      | inl (a, e) ↦ ground arith
      | inr (x, e) ↦ ground arith
    ]

module _ {S : Type 0} (client : Redis (Request S)) (stored : S → Text → Option Text)
    (counts : Counts client stored) (enabled : Bool) (policy : DependencyPolicy) (author : ℕ)
    (w : World (Request S)) (alive : (live enabled policy w).0 ≡ true)
    (done : (bump_generations client enabled policy (some author) w).0 ≡ ok tt)
    (healthy : (bump_generations client enabled policy (some author) w).1.services.degraded
      ≡ false) where
  affected :
      (filter : Option ℕ)
      → (filter ≡ none) ⊎ (filter ≡ some author)
      → generation stored filter (bump_generations client enabled policy (some author) w).1
        ≡ suc (generation stored filter w)
  affected filter which =
      let w₁ = (live enabled policy w).1 in
      let sent = bump_sent client enabled policy (some author) w alive done healthy in
      let moved = increments_move client stored counts author w₁ sent.0 in
      let found = live_server enabled policy w in
      elim which [
        | inl e ↦ rw (e, sent.1) (moved.0 ∙ ap (λ s. suc (as_int (stored s generation_key))) found)
        | inr e ↦
            rw (e, sent.1)
              (moved.1 ∙ ap (λ s. suc (as_int (stored s (author_generation_key author)))) found)
      ]

  -- Where the cache is live, the bump succeeds, and `INCR` counts as documented, the generation of
  -- the unfiltered pages and that of the author's pages go up by one, and every other author's
  -- stays.
  pub bump_generations_moves :
      (other : ℕ)
      → other ≢ author
      → let w' = (bump_generations client enabled policy (some author) w).1 in
        (generation stored none w' ≡ suc (generation stored none w))
        × (generation stored (some author) w' ≡ suc (generation stored (some author) w))
        × (generation stored (some other) w' ≡ generation stored (some other) w)
  bump_generations_moves other h =
      let w₁ = (live enabled policy w).1 in
      let sent = bump_sent client enabled policy (some author) w alive done healthy in
      let kept = increments_keep client stored counts author other w₁ h in
      let found = live_server enabled policy w in
      (
        affected none (inl refl),
        affected (some author) (inr refl),
        rw sent.1 (kept ∙ ap (λ s. as_int (stored s (author_generation_key other))) found),
      )

  -- Where the cache is live, the bump succeeds, and `INCR` counts as documented, no page key that
  -- was built before the write, unfiltered or for the author, can be built after it, for any
  -- window, if the digest tells the two windows' materials apart: all of those pages are
  -- unreachable.
  pub bump_generations_unreachable :
      (sha256_16 : Text → Text) (filter : Option ℕ) (limit limit' : ℕ)
      (position position' : Option (ℕ × ℕ))
      → (filter ≡ none) ⊎ (filter ≡ some author)
      → (sha256_16 (filter_material limit position) ≡ sha256_16 (filter_material limit' position')
          → filter_material limit position ≡ filter_material limit' position')
      → let w' = (bump_generations client enabled policy (some author) w).1 in
        list_key sha256_16 (generation stored filter w) filter limit position
        ≢ list_key sha256_16 (generation stored filter w') filter limit' position'
  bump_generations_unreachable sha filter limit limit' position position' which collide same =
      let equal = list_key_inj sha _ _ filter filter limit limit' position position' collide same in
      absurd (omega (arith, affected filter which, equal.0))
