-- ===== src/Articles/Coherent/Examples.antt =====
-- A server with a cache that is a list of entries and a table, and `get` on it, at a hit.
use scalable_content_platfor.Base.{
  ℕ, ◌+◌, ◌≡◌, refl, ap, sym, ◌∙◌, true, false, none, some, Option, List, [], ◌∷◌, ◌++◌, length,
  take, drop, filter, map, All, arith, Bool-cases, inl, inr, if◌then◌else◌,
}
use scalable_content_platfor.Base.Int.{pos}
use scalable_content_platfor.Text.{Text, codes, text_eq, decimal}
use scalable_content_platfor.Text.Equality.{text_eq-eq}
use scalable_content_platfor.Text.Decimal.{decimal_inj}
use scalable_content_platfor.Effects.{ok, raise, other, World}
use scalable_content_platfor.Request.{Request}
use scalable_content_platfor.Resilience.Concrete.{runtime}
use scalable_content_platfor.Resilience.Fixtures.{policies, empty}
use scalable_content_platfor.Resilience.Breaker.{allow}
use scalable_content_platfor.Resilience.Guard.{new_breaker, get_breaker}
use scalable_content_platfor.Resilience.Guard.Kept.{Returns}
use scalable_content_platfor.Cache.Keys.{article_key}
use scalable_content_platfor.Cache.Articles.{Redis, live, command, get_article, read, count_read}
use scalable_content_platfor.Articles.{Article, ArticleOut, article_out}
use scalable_content_platfor.Articles.Repository.{Database, is_live_article}
use scalable_content_platfor.Articles.Service
use scalable_content_platfor.Articles.Service.{Service}
use scalable_content_platfor.Articles.Coherent.{Coherence, Found}
use scalable_content_platfor.Articles.Coherent.Get.{get-Returns}

abbrev Entry : Type 0
Entry = Text × Text

record Server : Type 0 where
  pub cache : List Entry
  pub table : List Article

abbrev encode : ArticleOut → Text
encode dto =
    dto.summary.id
      ∷ dto.summary.author_id
      ∷ dto.summary.created_at
      ∷ dto.summary.updated_at
      ∷ length dto.summary.title
      ∷ dto.summary.title
    ++ dto.body

abbrev decode : Text → Option ArticleOut
decode (id ∷ author_id ∷ created_at ∷ updated_at ∷ n ∷ text) = some (record {
  summary = record {
    id = id;
    author_id = author_id;
    title = take n text;
    created_at = created_at;
    updated_at = updated_at;
  };
  body = drop n text;
})
decode _ = none

abbrev lookup : Text → List Entry → Option Text
lookup key [] = none
lookup key (e ∷ entries) = if text_eq key e.0 then some e.1 else lookup key entries

abbrev put : Entry → World (Request Server) → World (Request Server)
put e w =
    let server = w.services.server in
    record w {
      services = record w.services { server = record server { cache = e ∷ server.cache } };
    }

-- The locks are free, and kept elsewhere.
abbrev client : Redis (Request Server)
client = record {
  get_key = λ k w. (ok (lookup k w.services.server.cache), w);
  mget = λ ks w. (ok (map (λ k. lookup k w.services.server.cache) ks), w);
  set_key = λ k v ttl w. (ok tt, put (k, v) w);
  set_nx = λ k v ttl w. (ok true, w);
  delete_key = λ k w. (ok tt, w);
  incr_key = λ k w. (ok tt, w);
}

abbrev db : Database (Request Server)
db = record {
  insert = λ author title body w. (raise (other 0), w);
  select_where = λ p w. (ok (filter p w.services.server.table), w);
  select_page = λ p limit w. (raise (other 0), w);
  update_where = λ p f w. (raise (other 0), w);
  rollback = λ w. (ok tt, w);
  utcnow = λ w. w.now;
}

abbrev service : Service Server
service = record {
  runtime = runtime;
  policies = policies;
  db = db;
  client = client;
  cache_enabled = true;
  has_session = true;
  codec = record {
    encode_article = encode;
    decode_article = decode;
    encode_page = λ p. [];
    decode_page = λ s. none;
  };
  sha256_16 = λ s. s;
  article_ttl = 300;
  list_ttl = 60;
  jitter = pos 200000;
  lock_timeout = 50000;
  draw = λ w. 0;
  sleep = λ d w. record w { now = w.now + d };
  sleep_law = λ d w. omega arith;
}

abbrev IsOf : ℕ → ArticleOut → Type 0
IsOf i dto = dto.summary.id ≡ i

-- Every body is under the key of the article that it decodes to.
abbrev IsFiled : Entry → Type 0
IsFiled e = (dto : ArticleOut) → decode e.1 ≡ some dto → e.0 ≡ article_key dto.summary.id

abbrev Filed : Server → Type 0
Filed server = All IsFiled server.cache

article_key_inj : (i j : ℕ) → article_key i ≡ article_key j → i ≡ j
unfolding article_key
article_key_inj i j h = decimal_inj i j (cc h)

found :
    (i : ℕ) (entries : List Entry)
    → All IsFiled entries
    → Found Filed IsOf service i (lookup (article_key i) entries)
found i [] h = tt
found i (e ∷ entries) h = elim (Bool-cases (text_eq (article_key i) e.0)) [
  | inl same ↦ rw same (λ dto d.
      sym (article_key_inj i dto.summary.id (text_eq-eq (article_key i) e.0 same ∙ h.0 dto d)))
  | inr differs ↦ rw differs (found i entries h.1)
]

filed : (i : ℕ) (dto : ArticleOut) → IsOf i dto → IsFiled (article_key i, encode dto)
filed i dto q dto' d =
    let id : dto.summary.id ≡ dto'.summary.id = ground (arith, d) in ap article_key (sym q ∙ id)

selected :
    (i : ℕ) (rows : List Article)
    → All (λ r. IsOf i (article_out r)) (filter (is_live_article i) rows)
unfolding is_live_article
selected i [] = tt
selected i (r ∷ rows) = ground (arith, selected i rows)

coherence : Coherence Filed IsOf service
unfolding runtime
coherence = record {
  libraries = record { pause_kept = λ bound w j. j; interrupted_kept = λ A call deadline k w j. j };
  rollback_kept = λ w j. (j, tt);
  select_kept = λ i w j. (j, selected i w.services.server.table);
  get_kept = λ i w j. (j, found i w.services.server.cache j);
  set_kept = λ i dto ttl q w j. ((filed i dto q, j), tt);
  nx_kept = λ k v ttl w j. (j, tt);
  delete_kept = λ k w j. (j, tt);
  sleep_kept = λ d w j. j;
}

-- The row of article 5 has a new text, and the cache still holds the old one.
abbrev version : Text → Article
version body = record {
  id = 5;
  author_id = 7;
  title = codes "t";
  body = body;
  created_at = 30;
  updated_at = 30;
  deleted_at = none;
}

abbrev stale : ArticleOut
stale = article_out (version (codes "old"))

abbrev world : World (Request Server)
world = record {
  now = 1000;
  breakers = empty;
  counted = [];
  services = record {
    degraded = false;
    pending = [];
    server = record {
      cache = (article_key 5, encode stale) ∷ [];
      table = version (codes "new") ∷ [];
    };
  };
}

-- The hit: the old version is what the reader gets.
get-stale : (Service.get service 5 world).0 ≡ ok stale
unfolding Service.get get_article read command live allow new_breaker get_breaker count_read
    article_key text_eq decimal
get-stale = refl

get-Returns_example :
    Filed (Service.get service 5 world).1.services.server
    × Returns (IsOf 5) (Service.get service 5 world).0
get-Returns_example = get-Returns Filed IsOf service coherence 5 world (filed 5 stale refl, tt)
