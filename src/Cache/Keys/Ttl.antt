-- ===== src/Cache/Keys/Ttl.antt =====
-- `jittered_ttl` of app/cache/keys.py.
use scalable_content_platfor.Base.{ℕ, ◌+◌, ◌*◌, ◌≤◌, arith}
use scalable_content_platfor.Base.Int.{ℤ, pos, pos_part, ◌<ℤ◌}
use scalable_content_platfor.Cache.Keys.{jittered_ttl, round_micros}

round_micros_bounds :
    (low high t : ℕ)
    → low * 1000000 ≤ t
    → t ≤ high * 1000000
    → (low ≤ round_micros t) × (round_micros t ≤ high)
unfolding round_micros
round_micros_bounds low high t h k = ground arith

-- For a positive base and a positive jitter, within half a second of the interval: never zero, so
-- no entry is written without an expiry, and between `base - base × jitter` and `base + base ×
-- jitter` up to rounding.
pub jittered_ttl_bounds :
    (base_seconds : ℕ) (jitter : ℤ) (draw : ℕ)
    → 1 ≤ base_seconds
    → pos 0 <ℤ jitter
    → let spread = base_seconds * pos_part jitter in
      let ttl = jittered_ttl base_seconds jitter draw in
      (1 ≤ ttl)
      × (ttl * 1000000 ≤ base_seconds * 1000000 + spread + 500000)
      × (base_seconds * 1000000 ≤ ttl * 1000000 + spread + 500000)
unfolding jittered_ttl
jittered_ttl_bounds base_seconds jitter draw h j = ground arith
