-- ===== src/Articles/Pages.antt =====
-- Keyset pagination over `list` of app/repositories/article_repo.py and `_load_page` of
-- app/services/article_service.py. `ordered` is the table in the order of the list query.
pub mod Walk
use scalable_content_platfor.Base.{
  ℕ, zero, suc, ◌+◌, ◌-◌, ◌≤◌, ◌<◌, ◌≡◌, refl, ap, sym, ◌∙◌, Bool, true, false, ◌&&◌, ◌||◌, List,
  [], ◌∷◌, ◌++◌, map, length, take, filter, All, Option, none, some, ltb, leb, ◌==◌, Bool-cases,
  inl, inr, arith, if◌then◌else◌,
}
use mathlib.Core.List.{append_assoc, append-nil, map-append}
use scalable_content_platfor.Articles.{Article, ArticleSummaryOut, summary_of}
use scalable_content_platfor.Articles.Repository.{is_live, is_after, by_author, list_matches}
use scalable_content_platfor.Articles.Service.{Position, Page, last_position, page_of_rows}

abbrev pub position_of : Article → Option Position
position_of a = some (a.created_at, a.id)

-- Newest first, with the id as the tiebreaker: each row is after every row before it.
abbrev pub IsDescending : List Article → Type 0
IsDescending [] = Unit
IsDescending (x ∷ xs) = All (λ y. is_after (position_of x) y ≡ true) xs × IsDescending xs

-- The live articles under the filter.
unfoldable pub visible : Option ℕ → List Article → List Article
visible author = filter (λ r. is_live r && by_author author r)

-- The rows of the list query, on a table in the order of its ORDER BY.
unfoldable pub query_rows : List Article → ℕ → Option Position → Option ℕ → List ArticleSummaryOut
query_rows ordered limit after author =
    map summary_of (take limit (filter (list_matches after author) ordered))

-- A client that follows the positions until there is none, for at most so many pages.
unfoldable pub walk : ℕ → List Article → ℕ → Option Position → Option ℕ → List ArticleSummaryOut
walk zero ordered limit after author = []
walk (suc fuel) ordered limit after author =
    let (items, next) = page_of_rows limit (query_rows ordered (limit + 1) after author) in
    items ++ elim next [ none ↦ [] | some p ↦ walk fuel ordered limit (some p) author ]

pub filter-list_matches :
    (after : Option Position) (author : Option ℕ) (rows : List Article)
    → filter (list_matches after author) rows ≡ filter (is_after after) (visible author rows)
unfolding visible list_matches
filter-list_matches after author [] = refl
filter-list_matches after author (r ∷ rows) = ground (arith, filter-list_matches after author rows)

pub filter-none : (rows : List Article) → filter (is_after none) rows ≡ rows
unfolding is_after
filter-none [] = refl
filter-none (r ∷ rows) = ap (◌∷◌ r) (filter-none rows)

filter-All :
    (p : Article → Bool) (rows : List Article) → All (λ y. p y ≡ true) rows → filter p rows ≡ rows
filter-All p [] h = refl
filter-All p (r ∷ rows) h = rw (h.0, filter-All p rows h.1) refl

is_after_asym :
    (a b : Article) → is_after (position_of a) b ≡ true → is_after (position_of b) a ≡ false
unfolding is_after
is_after_asym a b h = ground arith

is_after_irrefl : (a : Article) → is_after (position_of a) a ≡ false
unfolding is_after
is_after_irrefl a = ground arith

All-middle :
    (p : Article → Bool) (xs : List Article) (x : Article) (ys : List Article)
    → All (λ y. p y ≡ true) (xs ++ x ∷ ys)
    → p x ≡ true
All-middle p [] x ys h = h.0
All-middle p (z ∷ xs) x ys h = All-middle p xs x ys h.1

-- What is after a row of a descending list is what follows it.
pub filter_after :
    (xs : List Article) (x : Article) (ys : List Article)
    → IsDescending (xs ++ x ∷ ys)
    → filter (is_after (position_of x)) (xs ++ x ∷ ys) ≡ ys
filter_after [] x ys h = rw (is_after_irrefl x) (filter-All (is_after (position_of x)) ys h.0)
filter_after (z ∷ xs) x ys h =
    rw (is_after_asym z x (All-middle (is_after (position_of z)) xs x ys h.0))
      (filter_after xs x ys h.1)

All-filter :
    (p q : Article → Bool) (rows : List Article)
    → All (λ y. q y ≡ true) rows
    → All (λ y. q y ≡ true) (filter p rows)
All-filter p q [] h = tt
All-filter p q (r ∷ rows) h = ground (arith, All-filter p q rows h.1)

pub filter-IsDescending :
    (p : Article → Bool) (rows : List Article) → IsDescending rows → IsDescending (filter p rows)
filter-IsDescending p [] h = tt
filter-IsDescending p (r ∷ rows) h =
    ground (arith, filter-IsDescending p rows h.1, All-filter p (is_after (position_of r)) rows h.0)

-- The first `suc n` of a longer list, its last row, and what is left.
pub record Cut (n : ℕ) (rows : List Article) : Type 0 where
  pub front : List Article
  pub row : Article
  pub back : List Article
  pub whole : rows ≡ front ++ row ∷ back
  pub first : take (suc n) rows ≡ front ++ row ∷ []
  pub last : last_position (map summary_of (take (suc n) rows)) ≡ position_of row
  pub shorter : length back < length rows

pub cut : (n : ℕ) (rows : List Article) → suc n ≤ length rows → Cut n rows
unfolding last_position
cut n [] h = elim h [ ]
cut zero (r ∷ rows) h = record {
  front = [];
  row = r;
  back = rows;
  whole = refl;
  first = refl;
  last = refl;
  shorter = omega arith;
}
cut (suc n) (r ∷ []) h = absurd (omega arith)
cut (suc n) (r ∷ s ∷ rows) h =
    let c = cut n (s ∷ rows) (omega arith) in
    record {
      front = r ∷ c.front;
      row = c.row;
      back = c.back;
      whole = ap (◌∷◌ r) c.whole;
      first = ap (◌∷◌ r) c.first;
      last = c.last;
      shorter = omega (arith, c.shorter);
    }
