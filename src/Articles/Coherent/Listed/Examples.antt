-- ===== src/Articles/Coherent/Listed/Examples.antt =====
-- A server with a cache of pages that is a list of entries, and a table, and `list_articles` on it,
-- at a hit.
use scalable_content_platfor.Base.{
  ℕ, zero, suc, ◌+◌, ◌≡◌, refl, ap, true, false, none, some, Option, List, [], ◌∷◌, ◌++◌, length,
  leb, take, drop, filter, map, All, arith, Bool-cases, inl, inr, if◌then◌else◌,
}
use mathlib.Core.Path.{subst}
use scalable_content_platfor.Base.Int.{pos}
use scalable_content_platfor.Text.{Text, codes, text_eq, decimal}
use scalable_content_platfor.Effects.{ok, raise, other, World}
use scalable_content_platfor.Request.{Request}
use scalable_content_platfor.Resilience.Concrete.{runtime}
use scalable_content_platfor.Resilience.Fixtures.{policies, empty}
use scalable_content_platfor.Resilience.Breaker.{allow, record_success}
use scalable_content_platfor.Resilience.Guard.{new_breaker, get_breaker, heard_success}
use scalable_content_platfor.Resilience.Guard.Kept.{Returns}
use scalable_content_platfor.Cache.Keys.{list_key, cursor_parts}
use scalable_content_platfor.Cache.Articles.{
  Redis, live, command, get_generations, get_list_page, read, count_read, as_int,
}
use scalable_content_platfor.Articles.{Article, ArticleSummaryOut, summary_of}
use scalable_content_platfor.Articles.Repository.{Database, list_matches}
use scalable_content_platfor.Articles.Service.{
  Service, Position, Page, page_of_rows, page_key, list_articles,
}
use scalable_content_platfor.Articles.Coherent.Listed.{PageCoherence, FoundPage}
use scalable_content_platfor.Articles.Coherent.Listed.Served.{list_articles-Returns}

abbrev Entry : Type 0
Entry = Text × Text

record Server : Type 0 where
  pub cache : List Entry
  pub table : List Article

-- A page as a text: the count of its items, each item, and the position if there is one.
abbrev encode_items : List ArticleSummaryOut → Text → Text
encode_items [] rest = rest
encode_items (r ∷ rs) rest =
    r.id ∷ r.author_id ∷ r.created_at ∷ r.updated_at ∷ length r.title ∷ r.title
    ++ encode_items rs rest

abbrev encode_position : Option Position → Text
encode_position none = []
encode_position (some (t, i)) = t ∷ i ∷ []

abbrev encode : Page → Text
encode (items, next) = length items ∷ encode_items items (encode_position next)

abbrev decode_item : Text → Option (ArticleSummaryOut × Text)
decode_item (id ∷ author_id ∷ created_at ∷ updated_at ∷ n ∷ s) = some (
  record {
    id = id;
    author_id = author_id;
    title = take n s;
    created_at = created_at;
    updated_at = updated_at;
  },
  drop n s,
)
decode_item _ = none

abbrev decode_items : ℕ → Text → Option (List ArticleSummaryOut × Text)
decode_items zero s = some ([], s)
decode_items (suc n) s = elim (decode_item s) [
  | none ↦ none
  | some (r, rest) ↦ elim (decode_items n rest) [
    | none ↦ none
    | some (rs, rest') ↦ some (r ∷ rs, rest')
  ]
]

abbrev decode_position : Text → Option Position
decode_position (t ∷ i ∷ _) = some (t, i)
decode_position _ = none

abbrev decode : Text → Option Page
decode [] = none
decode (n ∷ s) = elim (decode_items n s) [
  | none ↦ none
  | some (rs, rest) ↦ some (rs, decode_position rest)
]

take-append : (s t : Text) → take (length s) (s ++ t) ≡ s
take-append [] t = refl
take-append (c ∷ s) t = ap (λ r. c ∷ r) (take-append s t)

drop-append : (s t : Text) → drop (length s) (s ++ t) ≡ t
drop-append [] t = refl
drop-append (c ∷ s) t = drop-append s t

decode_items-encode :
    (rs : List ArticleSummaryOut) (rest : Text)
    → decode_items (length rs) (encode_items rs rest) ≡ some (rs, rest)
decode_items-encode [] rest = refl
decode_items-encode (r ∷ rs) rest =
    let back = encode_items rs rest in
    rw (drop-append r.title back, decode_items-encode rs rest, take-append r.title back) refl

decode-encode : (page : Page) → decode (encode page) ≡ some page
decode-encode (items, none) = rw (decode, decode_items-encode items []) refl
decode-encode (items, some (t, i)) = rw (decode, decode_items-encode items (t ∷ i ∷ [])) refl

abbrev lookup : Text → List Entry → Option Text
lookup key [] = none
lookup key (e ∷ entries) = if text_eq key e.0 then some e.1 else lookup key entries

abbrev put : Entry → World (Request Server) → World (Request Server)
put e w =
    let server = w.services.server in
    record w {
      services = record w.services { server = record server { cache = e ∷ server.cache } };
    }

-- The generations have never been bumped, and the locks are free and kept elsewhere.
abbrev client : Redis (Request Server)
client = record {
  get_key = λ k w. (ok (lookup k w.services.server.cache), w);
  mget = λ ks w. (ok (map (λ k. none) ks), w);
  set_key = λ k v ttl w. (ok tt, put (k, v) w);
  set_nx = λ k v ttl w. (ok true, w);
  delete_key = λ k w. (ok tt, w);
  incr_key = λ k w. (ok tt, w);
}

abbrev db : Database (Request Server)
db = record {
  insert = λ author title body w. (raise (other 0), w);
  select_where = λ p w. (ok (filter p w.services.server.table), w);
  select_page =
      λ p limit w. (ok (map summary_of (take limit (filter p w.services.server.table))), w);
  update_where = λ p f w. (raise (other 0), w);
  rollback = λ w. (ok tt, w);
  utcnow = λ w. w.now;
}

abbrev service : Service Server
service = record {
  runtime = runtime;
  policies = policies;
  db = db;
  client = client;
  cache_enabled = true;
  has_session = true;
  codec = record {
    encode_article = λ a. [];
    decode_article = λ s. none;
    encode_page = encode;
    decode_page = decode;
  };
  sha256_16 = λ s. s;
  article_ttl = 300;
  list_ttl = 60;
  jitter = pos 200000;
  lock_timeout = 50000;
  draw = λ w. 0;
  sleep = λ d w. record w { now = w.now + d };
  sleep_law = λ d w. omega arith;
}

-- A page of the author's articles.
abbrev IsBy : ℕ → ArticleSummaryOut → Type 0
IsBy author r = r.author_id ≡ author

abbrev IsPageBy : ℕ → Page → Type 0
IsPageBy author page = All (IsBy author) page.0

abbrev Filed : Server → Type 0
Filed server = All (λ e. (page : Page) → decode e.1 ≡ some page → IsPageBy 7 page) server.cache

found :
    (key : Text) (entries : List Entry)
    → All (λ e. (page : Page) → decode e.1 ≡ some page → IsPageBy 7 page) entries
    → FoundPage Filed service 2 none (some 7) (IsPageBy 7) (lookup key entries)
found key [] h = tt
found key (e ∷ entries) h = elim (Bool-cases (text_eq key e.0)) [
  | inl same ↦ rw same h.0
  | inr differs ↦ rw differs (found key entries h.1)
]

filed :
    (page : Page)
    → IsPageBy 7 page
    → (page' : Page) → decode (encode page) ≡ some page'
    → IsPageBy 7 page'
filed page q page' d =
    let same : page ≡ page' = ground (arith, decode-encode page, d) in subst (IsPageBy 7) same q

take-All : (n : ℕ) (rows : List ArticleSummaryOut) → All (IsBy 7) rows → All (IsBy 7) (take n rows)
take-All zero rows h = tt
take-All (suc n) [] h = tt
take-All (suc n) (r ∷ rows) h = (h.0, take-All n rows h.1)

selected :
    (n : ℕ) (rows : List Article)
    → All (IsBy 7) (map summary_of (take n (filter (list_matches none (some 7)) rows)))
unfolding list_matches
selected zero rows = tt
selected (suc n) [] = tt
selected (suc n) (r ∷ rows) = ground (arith, selected n rows, selected (suc n) rows)

page_by : (rows : List ArticleSummaryOut) → All (IsBy 7) rows → IsPageBy 7 (page_of_rows 2 rows)
unfolding page_of_rows
page_by rows h = elim (Bool-cases (leb (length rows) 2)) [
  | inl short ↦ rw short h
  | inr long ↦ rw long (take-All 2 rows h)
]

coherence : PageCoherence Filed service 2 none (some 7) (IsPageBy 7)
unfolding runtime
coherence = record {
  libraries = record { pause_kept = λ bound w j. j; interrupted_kept = λ A call deadline k w j. j };
  rollback_kept = λ w j. (j, tt);
  select_kept = λ w j. (
    j,
    page_by (map summary_of (take 3 (filter (list_matches none (some 7)) w.services.server.table)))
        (selected 3 w.services.server.table),
  );
  mget_kept = λ ks w j. (j, tt);
  get_kept = λ g w j. (j, found (page_key service g 2 none (some 7)) w.services.server.cache j);
  set_kept = λ g page ttl q w j. ((filed page q, j), tt);
  nx_kept = λ k v ttl w j. (j, tt);
  delete_kept = λ k w j. (j, tt);
  sleep_kept = λ d w j. j;
}

abbrev row : ℕ → Article
row id = record {
  id = id;
  author_id = 7;
  title = codes "t";
  body = codes "b";
  created_at = id;
  updated_at = id;
  deleted_at = none;
}

-- The cache still holds the page from before the second article.
abbrev stale : Page
stale = (summary_of (row 1) ∷ [], none)

abbrev world : World (Request Server)
world = record {
  now = 1000;
  breakers = empty;
  counted = [];
  services = record {
    degraded = false;
    pending = [];
    server = record {
      cache = (page_key service (0, 0) 2 none (some 7), encode stale) ∷ [];
      table = row 2 ∷ row 1 ∷ [];
    };
  };
}

list_articles-stale : (list_articles service 2 none (some 7) world).0 ≡ ok stale
unfolding list_articles get_generations get_list_page read command live allow new_breaker
    get_breaker count_read list_key cursor_parts text_eq decimal heard_success record_success as_int
list_articles-stale = refl

list_articles-Returns_example :
    Filed (list_articles service 2 none (some 7) world).1.services.server
    × Returns (IsPageBy 7) (list_articles service 2 none (some 7) world).0
list_articles-Returns_example =
    list_articles-Returns Filed service 2 none (some 7) (IsPageBy 7) coherence world
      (filed stale (refl, tt), tt)
