-- ===== src/Articles/Examples.antt =====
-- A small table, a database that holds it, and the theorems on articles at concrete inputs.
use scalable_content_platfor.Base.{
  ℕ, suc, ◌+◌, ◌++◌, ◌≤◌, ◌≡◌, refl, Bool, true, false, Option, none, some, List, [], ◌∷◌, map,
  length, take, filter, All, arith, if◌then◌else◌,
}
use scalable_content_platfor.Text.{Text, codes}
use scalable_content_platfor.Articles.{Article, ArticleOut, User, summary_of, article_out}
use scalable_content_platfor.Articles.Repository.{is_after}
use scalable_content_platfor.Articles.Pages.{IsDescending, visible}
use scalable_content_platfor.Articles.Repository.{list_matches}
use scalable_content_platfor.Articles.Router.Served.{Serves}
use scalable_content_platfor.Articles.Router.Follow.{IsStored, follow, follow-visible}
use scalable_content_platfor.Base.Int.{pos}
use scalable_content_platfor.Effects.{ok, World}
use scalable_content_platfor.Request.{Request}
use scalable_content_platfor.Resilience.Concrete.{runtime}
use scalable_content_platfor.Resilience.Fixtures.{policies, empty}
use scalable_content_platfor.Cache.Articles.{Redis}
use scalable_content_platfor.Articles.Repository
use scalable_content_platfor.Articles.Repository.{
  Database, replace_text, update_cas, soft_delete_cas, is_live_article, cas_matches,
}
use scalable_content_platfor.Resilience.Breaker.{allow, record_success}
use scalable_content_platfor.Resilience.Retry.{with_retry, attempt}
use scalable_content_platfor.Resilience.Guard.{
  guarded_read, guarded_write, new_breaker, get_breaker,
}
use scalable_content_platfor.Db.Session.{after_commit}
use scalable_content_platfor.Articles.Service.{
  Service, poll, await_loader, load, update, delete, authorize, invalidate_after_commit,
}
use scalable_content_platfor.Articles.Reads.{poll-await_loader}
use scalable_content_platfor.Articles.Writes.{MayWrite, update_ok, delete_ok}

-- By its author, its time, and whether it is deleted.
abbrev row : ℕ → ℕ → ℕ → Option ℕ → Article
row id author created deleted = record {
  id = id;
  author_id = author;
  title = codes "t";
  body = codes "b";
  created_at = created;
  updated_at = created;
  deleted_at = deleted;
}

-- Two rows have one time, and one is deleted.
abbrev table : List Article
table =
    row 5 7 30 none
    ∷ row 4 8 20 none
    ∷ row 3 7 20 none
    ∷ row 2 7 15 (some 40)
    ∷ row 1 7 10 none
    ∷ []

table-IsDescending : IsDescending table
unfolding is_after
table-IsDescending = ground arith

visible-table : visible (some 7) table ≡ row 5 7 30 none ∷ row 3 7 20 none ∷ row 1 7 10 none ∷ []
unfolding visible
visible-table = refl

-- A database that is a table, newest first, and a cache that holds nothing and whose locks are
-- taken.
abbrev rows_of : World (Request (List Article)) → List Article
rows_of w = w.services.server

abbrev put_rows : List Article → World (Request (List Article)) → World (Request (List Article))
put_rows rows w = record w { services = record w.services { server = rows } }

abbrev update_all : (Article → Bool) → (Article → Article) → List Article → List Article
update_all p f rows = map (λ r. if p r then f r else r) rows

abbrev db : Database (Request (List Article))
db = record {
  insert = λ author title body w.
      let new = record (row 9 author w.now none) { title = title; body = body } in
      (ok new, put_rows (new ∷ rows_of w) w);
  select_where = λ p w. (ok (filter p (rows_of w)), w);
  select_page = λ p limit w. (ok (map summary_of (take limit (filter p (rows_of w)))), w);
  update_where =
      λ p f w. (ok (length (filter p (rows_of w))), put_rows (update_all p f (rows_of w)) w);
  rollback = λ w. (ok tt, w);
  utcnow = λ w. w.now;
}

abbrev taken : Redis (Request (List Article))
taken = record {
  get_key = λ k w. (ok none, record w { now = w.now + 1000 });
  mget = λ ks w. (ok [], w);
  set_key = λ k v t w. (ok tt, w);
  set_nx = λ k v t w. (ok false, w);
  delete_key = λ k w. (ok tt, w);
  incr_key = λ k w. (ok tt, w);
}

abbrev service : Service (List Article)
service = record {
  runtime = runtime;
  policies = policies;
  db = db;
  client = taken;
  cache_enabled = true;
  has_session = true;
  codec = record {
    encode_article = λ a. [];
    decode_article = λ s. none;
    encode_page = λ p. [];
    decode_page = λ s. none;
  };
  sha256_16 = λ s. s;
  article_ttl = 300;
  list_ttl = 60;
  jitter = pos 200000;
  lock_timeout = 50000;
  draw = λ w. 0;
  sleep = λ d w. record w { now = w.now + d };
  sleep_law = λ d w. omega arith;
}

abbrev world : World (Request (List Article))
world = record {
  now = 1000;
  breakers = empty;
  counted = [];
  services = record { degraded = false; pending = []; server = table };
}

poll-await_loader_example :
    let r = await_loader service (codes "article:5") world in
    (poll service 7 51000 (codes "article:5") world ≡ r) × (r.0 ≡ ok none → 51000 ≤ r.1.now)
poll-await_loader_example =
    poll-await_loader service (λ k w. omega arith) 7 (codes "article:5") world (omega arith)

abbrev alice : User
alice = record { id = 7; role_name = codes "user" }

abbrev new_text : Text
new_text = codes "new"

abbrev updated : World (Request (List Article))
updated = (update service alice 5 new_text new_text 30 world).1

abbrev updated_out : ArticleOut
updated_out = article_out (replace_text new_text new_text (row 5 7 30 none))

update-alice : update service alice 5 new_text new_text 30 world ≡ (ok updated_out, updated)
unfolding update load Repository.get guarded_read allow new_breaker with_retry runtime attempt
    is_live_article authorize update_cas guarded_write record_success cas_matches
    invalidate_after_commit after_commit
update-alice = refl

update_ok_example :
    let written =
      update_cas runtime policies.database db 5 30 new_text new_text (load service 5 world).1 in
    (article : Article) × (n : ℕ) × ((load service 5 world).0 ≡ ok article)
    × MayWrite alice article
    × (written.0 ≡ ok (suc n))
    × (fresh : Article) × (load service 5 (record written.1 {
      services = record written.1.services {
        pending =
            written.1.services.pending
            ++ record { article_id = some 5; author_id = article.author_id } ∷ [];
      };
    })
        ≡ (ok fresh, updated))
    × (updated_out ≡ article_out fresh)
update_ok_example =
    update_ok service alice 5 new_text new_text 30 updated_out world updated update-alice

abbrev deleted : World (Request (List Article))
deleted = (delete service alice 5 30 world).1

delete-alice : delete service alice 5 30 world ≡ (ok tt, deleted)
unfolding delete load Repository.get guarded_read allow new_breaker with_retry runtime attempt
    is_live_article authorize soft_delete_cas guarded_write record_success cas_matches
    invalidate_after_commit after_commit
delete-alice = refl

delete_ok_example :
    let written = soft_delete_cas runtime policies.database db 5 30 (load service 5 world).1 in
    (article : Article) × (n : ℕ) × ((load service 5 world).0 ≡ ok article)
    × MayWrite alice article
    × (written.0 ≡ ok (suc n))
    × (deleted ≡ record written.1 {
      services = record written.1.services {
        pending =
            written.1.services.pending
            ++ record { article_id = some 5; author_id = article.author_id } ∷ [];
      };
    })
delete_ok_example = delete_ok service alice 5 30 world deleted delete-alice

stored : All (λ r. IsStored (summary_of r)) table
stored = ground arith

-- The cache is off, and the table stays as it is.
abbrev reading : Service (List Article)
reading = record service {
  cache_enabled = false;
  db = record db {
    select_page = λ p limit w. (ok (map summary_of (take limit (filter p table))), w);
  };
}

serves : Serves reading table
serves = record {
  off = refl;
  rows = λ p limit w. refl;
  silent = λ p limit w. refl;
  prompt = λ p limit w. omega arith;
}

follow-visible_example :
    (follow (λ s. none) reading (some 2) (some 7) 4 none world).0
    ≡ ok (map summary_of (row 5 7 30 none ∷ row 3 7 20 none ∷ row 1 7 10 none ∷ []))
unfolding visible new_breaker get_breaker
follow-visible_example =
    follow-visible (λ s. none) reading table serves 1 (some 7) (omega arith) (omega arith) stored 4
      world refl table-IsDescending (omega arith)
