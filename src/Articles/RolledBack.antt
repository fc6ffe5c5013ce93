-- ===== src/Articles/RolledBack.antt =====
-- A run of `update` (app/services/article_service.py) whose last read meets a transient fault: the
-- guard retries the read, and rolls the session back before it does.
use scalable_content_platfor.Base.{
  ℕ, ◌+◌, ◌≡◌, refl, Bool, true, false, List, [], ◌∷◌, map, length, take, filter, arith, none, ◌==◌,
  if◌then◌else◌,
}
use scalable_content_platfor.Base.Int.{pos}
use scalable_content_platfor.Text.{codes}
use scalable_content_platfor.Effects.{ok, raise, operational_error, World}
use scalable_content_platfor.Request.{Request}
use scalable_content_platfor.Resilience.Concrete.{runtime}
use scalable_content_platfor.Resilience.Fixtures.{policies, empty}
use scalable_content_platfor.Resilience.Breaker.{allow, record_success}
use scalable_content_platfor.Resilience.Retry.{with_retry, attempt, before_attempt, is_transient}
use scalable_content_platfor.Resilience.Guard.{guarded_read, guarded_write, new_breaker}
use scalable_content_platfor.Cache.Articles.{Redis}
use scalable_content_platfor.Db.Session.{after_commit}
use scalable_content_platfor.Articles.{Article, User, summary_of, article_out}
use scalable_content_platfor.Articles.Repository
use scalable_content_platfor.Articles.Repository.{
  Database, update_cas, is_live_article, cas_matches,
}
use scalable_content_platfor.Articles.Service.{
  Service, update, load, authorize, invalidate_after_commit,
}

-- What is committed, what the transaction sees, and how many reads there have been.
record Tables : Type 0 where
  committed : List Article
  seen : List Article
  reads : ℕ

abbrev old : Article
old = record {
  id = 5;
  author_id = 7;
  title = codes "old";
  body = codes "old";
  created_at = 30;
  updated_at = 30;
  deleted_at = none;
}

abbrev update_all : (Article → Bool) → (Article → Article) → List Article → List Article
update_all p f rows = map (λ r. if p r then f r else r) rows

abbrev with_tables : (Tables → Tables) → World (Request Tables) → World (Request Tables)
with_tables f w = record w { services = record w.services { server = f w.services.server } }

-- The second read of a run loses its connection.
abbrev db : Database (Request Tables)
db = record {
  insert = λ author title body w. (ok old, w);
  select_where = λ p w. (
    if w.services.server.reads == 1
        then raise operational_error
        else ok (filter p w.services.server.seen),
    with_tables (λ t. record t { reads = t.reads + 1 }) w,
  );
  select_page =
      λ p limit w. (ok (map summary_of (take limit (filter p w.services.server.seen))), w);
  update_where = λ p f w. (
    ok (length (filter p w.services.server.seen)),
    with_tables (λ t. record t { seen = update_all p f t.seen }) w,
  );
  rollback = λ w. (ok tt, with_tables (λ t. record t { seen = t.committed }) w);
  utcnow = λ w. w.now;
}

abbrev no_cache : Redis (Request Tables)
no_cache = record {
  get_key = λ k w. (ok none, w);
  mget = λ ks w. (ok [], w);
  set_key = λ k v t w. (ok tt, w);
  set_nx = λ k v t w. (ok false, w);
  delete_key = λ k w. (ok tt, w);
  incr_key = λ k w. (ok tt, w);
}

abbrev service : Service Tables
service = record {
  runtime = runtime;
  policies = policies;
  db = db;
  client = no_cache;
  cache_enabled = false;
  has_session = true;
  codec = record {
    encode_article = λ a. [];
    decode_article = λ s. none;
    encode_page = λ p. [];
    decode_page = λ s. none;
  };
  sha256_16 = λ s. s;
  article_ttl = 300;
  list_ttl = 60;
  jitter = pos 200000;
  lock_timeout = 50000;
  draw = λ w. 0;
  sleep = λ d w. record w { now = w.now + d };
  sleep_law = λ d w. omega arith;
}

abbrev alice : User
alice = record { id = 7; role_name = codes "user" }

abbrev world : World (Request Tables)
world = record {
  now = 1000;
  breakers = empty;
  counted = [];
  services = record {
    degraded = false;
    pending = [];
    server = record { committed = old ∷ []; seen = old ∷ []; reads = 0 };
  };
}

-- The update succeeds, with the article as it was, and the transaction holds no change to commit.
update-old :
    let (r, w') = update service alice 5 (codes "new") (codes "new") 30 world in
    (r ≡ ok (article_out old)) × (w'.services.server.seen ≡ old ∷ [])
unfolding update load Repository.get guarded_read allow new_breaker with_retry runtime attempt
    is_live_article authorize update_cas guarded_write record_success cas_matches
    invalidate_after_commit after_commit before_attempt is_transient
update-old = (refl, refl)
