-- ===== src/Cache.antt =====
-- The cache-aside half that faces Redis (app/cache): the keys, and the article cache.
pub mod Keys
pub mod Articles
