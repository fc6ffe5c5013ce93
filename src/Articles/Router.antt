-- ===== src/Articles/Router.antt =====
-- The article endpoints (app/api/routers/articles.py), behind the checks that FastAPI makes of the
-- query's parameters. `datetime.fromisoformat` is a parameter; `none` is a ValueError.
pub mod Served
pub mod Follow
pub mod IfMatch
use scalable_content_platfor.Base.{
  ℕ, ◌+◌, Bool, ◌&&◌, ◌||◌, List, [], ◌∷◌, Option, none, some, leb, ◌==◌, if◌then◌else◌,
}
use scalable_content_platfor.Base.Int.{pos}
use scalable_content_platfor.Text.{Text}
use scalable_content_platfor.Effects.{
  Exception, Outcome, ok, raise, domain, precondition_required, other, World, M, ◌>>=◌, ◌>>◌, pure,
  throw,
}
use scalable_content_platfor.Request.{Request}
use scalable_content_platfor.Cache.Keys.{Datetime}
use scalable_content_platfor.Api.Auth.{strip}
use scalable_content_platfor.Api.Cursor.{encode_cursor, decode_cursor}
use scalable_content_platfor.Articles.{User, ArticleSummaryOut, ArticleOut}
use scalable_content_platfor.Articles.Service
use scalable_content_platfor.Articles.Service.{Service, Position, Page}

-- FastAPI's RequestValidationError.
abbrev pub request_validation_error : Exception
request_validation_error = other 7

abbrev pub default_page_size : ℕ
default_page_size = 20

abbrev pub max_page_size : ℕ
max_page_size = 100

-- `Query(ge=1, le=MAX_PAGE_SIZE)`, with its default.
unfoldable pub limit_of : Option ℕ → Outcome ℕ
limit_of none = ok default_page_size
limit_of (some limit) =
    if leb 1 limit && leb limit max_page_size then ok limit else raise request_validation_error

-- `Query(ge=1)`
unfoldable pub author_of : Option ℕ → Outcome (Option ℕ)
author_of none = ok none
author_of (some author) = if leb 1 author then ok (some author) else raise request_validation_error

-- `decode_cursor(cursor) if cursor is not None else None`, and back.
unfoldable pub after_of : Option Text → Outcome (Option Position)
after_of none = ok none
after_of (some cursor) = elim (decode_cursor cursor) [ ok p ↦ ok (some p) | raise e ↦ raise e ]

unfoldable pub next_cursor_of : Option Position → Option Text
next_cursor_of none = none
next_cursor_of (some (created_at, article_id)) = some (encode_cursor (pos created_at) article_id)

abbrev pub of_outcome : {S A : Type 0} → Outcome A → M S A
of_outcome r w = (r, w)

-- `text.strip('"')`
abbrev pub is_quote : ℕ → Bool
is_quote c = c == 34

abbrev pub lstrip_quotes : Text → Text
lstrip_quotes [] = []
lstrip_quotes (c ∷ s) = if is_quote c then lstrip_quotes s else c ∷ s

abbrev pub keep_unless_quote : ℕ → Text → Text
keep_unless_quote c [] = if is_quote c then [] else c ∷ []
keep_unless_quote c (d ∷ s) = c ∷ d ∷ s

abbrev pub rstrip_quotes : Text → Text
rstrip_quotes [] = []
rstrip_quotes (c ∷ s) = keep_unless_quote c (rstrip_quotes s)

module _ (fromisoformat : Text → Option Datetime) where
  unfoldable pub parse_if_match : Option Text → Outcome Datetime
  parse_if_match none = raise (domain precondition_required)
  parse_if_match (some if_match) =
      elim (fromisoformat (rstrip_quotes (lstrip_quotes (strip if_match)))) [
        | none ↦ raise (domain precondition_required)
        | some expected ↦ ok expected
      ]

  module _ {S : Type 0} (service : Service S) where
    unfoldable pub create_article : User → Text → Text → M (Request S) ArticleOut
    create_article actor title body = Service.create service actor title body

    unfoldable pub list_articles :
        Option ℕ → Option Text → Option ℕ → M (Request S) (List ArticleSummaryOut × Option Text)
    unfolding limit_of author_of after_of next_cursor_of
    list_articles limit cursor author = do
      limit' ← of_outcome (limit_of limit)
      author' ← of_outcome (author_of author)
      after ← of_outcome (after_of cursor)
      page ← Service.list_articles service limit' after author'
      pure (page.0, next_cursor_of page.1)

    unfoldable pub get_article : ℕ → M (Request S) ArticleOut
    get_article article_id = Service.get service article_id

    unfoldable pub update_article : User → ℕ → Text → Text → Option Text → M (Request S) ArticleOut
    unfolding parse_if_match
    update_article actor article_id title body if_match = do
      expected ← of_outcome (parse_if_match if_match)
      Service.update service actor article_id title body expected

    unfoldable pub delete_article : User → ℕ → Option Text → M (Request S) (Unit {0})
    unfolding parse_if_match
    delete_article actor article_id if_match = do
      expected ← of_outcome (parse_if_match if_match)
      Service.delete service actor article_id expected
