-- ===== src/Articles/Router/Follow.antt =====
-- A client that follows the cursors of the list endpoint (app/api/routers/articles.py), as texts.
use scalable_content_platfor.Base.{
  ℕ, zero, suc, ◌+◌, ◌≤◌, ◌<◌, ◌^◌, ◌≡◌, refl, ap, ◌∙◌, Bool, List, [], ◌∷◌, ◌++◌, map, length,
  take, filter, All, Option, none, some, leb, Bool-cases, Option-cases, arith, inl, inr,
}
use mathlib.Core.Path.{subst}
use mathlib.Core.List.{append-nil}
use scalable_content_platfor.Base.Int.{pos}
use scalable_content_platfor.Text.{Text}
use scalable_content_platfor.Effects.{ok, World, M, ◌>>=◌, pure}
use scalable_content_platfor.Request.{Request}
use scalable_content_platfor.Cache.Keys.{Datetime}
use scalable_content_platfor.Api.Cursor.{max_datetime}
use scalable_content_platfor.Api.Cursor.RoundTrip.{decode_cursor-encode}
use scalable_content_platfor.Articles.{Article, ArticleSummaryOut, summary_of}
use scalable_content_platfor.Articles.Repository.{list_matches}
use scalable_content_platfor.Articles.Service.{Service, Position, Page, last_position, page_of_rows}
use scalable_content_platfor.Articles.Pages.{IsDescending, visible, query_rows, walk}
use scalable_content_platfor.Articles.Pages.Walk.{walk_lem}
use scalable_content_platfor.Articles.Router.{
  max_page_size, after_of, next_cursor_of, list_articles,
}
use scalable_content_platfor.Articles.Router.Served.{IsAuthor, Serves, Closed, list_articles_served}

module _ (fromisoformat : Text → Option Datetime) {S : Type 0} (service : Service S)
    (limit author : Option ℕ) where
  -- A client asks for a page, and goes on with the text of its cursor until there is none. It gives
  -- the items of the pages, or the first error.
  unfoldable pub follow : ℕ → Option Text → M (Request S) (List ArticleSummaryOut)
  follow zero cursor = pure []
  follow (suc fuel) cursor = do
    page ← list_articles fromisoformat service limit cursor author
    elim page.1 [
      | none ↦ pure page.0
      | some c ↦ do rest ← follow fuel (some c); pure (page.0 ++ rest)
    ]

-- A time from 1970 on that Python can represent, and a positive 64-bit id.
abbrev pub IsStored : ArticleSummaryOut → Type 0
IsStored r = (r.created_at ≤ max_datetime) × (1 ≤ r.id) × (r.id < 2 ^ 64)

abbrev Encodable : Option Position → Type 0
Encodable none = Unit
Encodable (some (created_at, id)) = (created_at ≤ max_datetime) × (1 ≤ id) × (id < 2 ^ 64)

filter-All :
    (p : Article → Bool) (rows : List Article)
    → All (λ r. IsStored (summary_of r)) rows
    → All (λ r. IsStored (summary_of r)) (filter p rows)
filter-All p [] h = tt
filter-All p (r ∷ rows) h = elim (Bool-cases (p r)) [
  | inl e ↦ rw e (h.0, filter-All p rows h.1)
  | inr e ↦ rw e (filter-All p rows h.1)
]

map-take-All :
    (n : ℕ) (rows : List Article)
    → All (λ r. IsStored (summary_of r)) rows
    → All IsStored (map summary_of (take n rows))
map-take-All zero rows h = tt
map-take-All (suc n) [] h = tt
map-take-All (suc n) (r ∷ rows) h = (h.0, map-take-All n rows h.1)

query_rows-All :
    (n : ℕ) (ordered : List Article) (after : Option Position) (author : Option ℕ)
    → All (λ r. IsStored (summary_of r)) ordered
    → All IsStored (query_rows ordered n after author)
unfolding query_rows
query_rows-All n ordered after author h =
    map-take-All n (filter (list_matches after author) ordered)
      (filter-All (list_matches after author) ordered h)

last_position-Encodable :
    (rows : List ArticleSummaryOut) → All IsStored rows → Encodable (last_position rows)
unfolding last_position
last_position-Encodable [] h = tt
last_position-Encodable (r ∷ []) h = h.0
last_position-Encodable (r ∷ s ∷ rows) h = last_position-Encodable (s ∷ rows) h.1

take-All : (n : ℕ) (rows : List ArticleSummaryOut) → All IsStored rows → All IsStored (take n rows)
take-All zero rows h = tt
take-All (suc n) [] h = tt
take-All (suc n) (r ∷ rows) h = (h.0, take-All n rows h.1)

page_of_rows-Encodable :
    (n : ℕ) (rows : List ArticleSummaryOut) → All IsStored rows → Encodable (page_of_rows n rows).1
unfolding page_of_rows
page_of_rows-Encodable n rows h = elim (Bool-cases (leb (length rows) n)) [
  | inl e ↦ rw e tt
  | inr e ↦ rw e (last_position-Encodable (take n rows) (take-All n rows h))
]

after_of-next_cursor_of : (p : Option Position) → Encodable p → after_of (next_cursor_of p) ≡ ok p
unfolding after_of next_cursor_of
after_of-next_cursor_of none h = refl
after_of-next_cursor_of (some (t, i)) h =
    rw (after_of, decode_cursor-encode (pos t) i (omega arith) h.1 h.2) refl

module _ (fromisoformat : Text → Option Datetime) {S : Type 0} (service : Service S)
    (ordered : List Article) (serves : Serves service ordered) (n : ℕ) (author : Option ℕ)
    (small : suc n ≤ max_page_size) (given : IsAuthor author)
    (stored : All (λ r. IsStored (summary_of r)) ordered) where
  abbrev page_at : Option Position → Page
  page_at after = page_of_rows (suc n) (query_rows ordered (suc n + 1) after author)

  follow-walk :
      (fuel : ℕ) (after : Option Position) (w : World (Request S))
      → Encodable after
      → Closed service w
      → (follow fromisoformat service (some (suc n)) author fuel (next_cursor_of after) w).0
        ≡ ok (walk fuel ordered (suc n) after author)
  unfolding follow walk next_cursor_of
  follow-walk zero after w h c = refl
  follow-walk (suc fuel) after w h c =
      let read = after_of-next_cursor_of after h in
      let (w', served, still) =
        list_articles_served service ordered serves fromisoformat n (next_cursor_of after) after
          author w small given read c in
      let next_ok =
        page_of_rows-Encodable (suc n) (query_rows ordered (suc n + 1) after author)
          (query_rows-All (suc n + 1) ordered after author stored) in
      elim (Option-cases (page_at after).1) [
        | inl last ↦ ground (arith, served, last, append-nil (page_at after).0)
        | inr (p, more) ↦
            let again = follow-walk fuel (some p) w' (subst Encodable more next_ok) still in
            ground (arith, served, more, again)
      ]

  -- For a service whose cache is off, whose MySQL breaker is closed, and whose database answers every
  -- query in time from one table in the order of the list query: a client that starts without a
  -- cursor, asks for pages of one to 100 articles, and sends back the text of each page's cursor
  -- until there is none, receives exactly the live articles under its filter, in that order, each
  -- once, and never an error; one request more than there are such articles is enough. That is for
  -- times from 1970 on that Python can represent, and ids that are positive 64-bit numbers.
  pub follow-visible :
      (fuel : ℕ) (w : World (Request S))
      → Closed service w
      → IsDescending ordered
      → length (visible author ordered) < fuel
      → (follow fromisoformat service (some (suc n)) author fuel none w).0
        ≡ ok (map summary_of (visible author ordered))
  unfolding next_cursor_of
  follow-visible fuel w c d enough =
      follow-walk fuel none w tt c ∙ ap ok (walk_lem fuel n ordered author d enough)
