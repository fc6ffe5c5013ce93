-- ===== src/Articles/Pages/Walk.antt =====
-- Following the pages to the end (app/services/article_service.py).
use scalable_content_platfor.Base.{
  ℕ, zero, suc, ◌+◌, ◌≤◌, ◌<◌, ◌≡◌, refl, ap, sym, ◌∙◌, ◌&&◌, false, List, [], ◌∷◌, ◌++◌, map,
  length, take, filter, Option, none, some, leb, Bool-cases, inl, inr, leb→le, arith, if◌then◌else◌,
}
use mathlib.Core.Path.{ap₂, subst}
use mathlib.Core.List.{append_assoc, append-nil, map-append}
use scalable_content_platfor.Articles.{Article, ArticleSummaryOut, summary_of}
use scalable_content_platfor.Articles.Repository.{is_live, by_author, is_after}
use scalable_content_platfor.Articles.Service.{Position, last_position, page_of_rows}
use scalable_content_platfor.Articles.Pages.{
  position_of, IsDescending, visible, query_rows, walk, filter-list_matches, filter-none,
  filter_after, filter-IsDescending, Cut, cut,
}

take-map-take :
    (n : ℕ) (rows : List Article)
    → take n (map summary_of (take (suc n) rows)) ≡ map summary_of (take n rows)
take-map-take zero rows = refl
take-map-take (suc n) [] = refl
take-map-take (suc n) (r ∷ rows) = ap (◌∷◌ (summary_of r)) (take-map-take n rows)

length-map-take :
    (n : ℕ) (rows : List Article) → n ≤ length rows → length (map summary_of (take n rows)) ≡ n
length-map-take zero rows h = refl
length-map-take (suc n) [] h = elim h [ ]
length-map-take (suc n) (r ∷ rows) h = ap suc (length-map-take n rows (omega arith))

take_short : (n : ℕ) (rows : List Article) → length rows ≤ n → take n rows ≡ rows
take_short zero [] h = refl
take_short zero (r ∷ rows) h = absurd (omega arith)
take_short (suc n) [] h = refl
take_short (suc n) (r ∷ rows) h = ap (◌∷◌ r) (take_short n rows (omega arith))

length-map : (rows : List Article) → length (map summary_of rows) ≡ length rows
length-map [] = refl
length-map (r ∷ rows) = ap suc (length-map rows)

-- The last page: all that is left, and no position.
page_last :
    (limit : ℕ) (rest : List Article)
    → length rest ≤ limit
    → page_of_rows limit (map summary_of (take (suc limit) rest)) ≡ (map summary_of rest, none)
unfolding page_of_rows
page_last limit rest h =
    rw (take_short (suc limit) rest (omega arith)) (ground (arith, length-map rest))

leb-false : (a b : ℕ) → b < a → leb a b ≡ false
leb-false a b h = ground arith

-- Any other: the first rows, and the position of the last of them.
page_more :
    (n : ℕ) (rest : List Article) (c : Cut n rest)
    → suc n < length rest
    → page_of_rows (suc n) (map summary_of (take (suc (suc n)) rest))
      ≡ (map summary_of (c.front ++ c.row ∷ []), position_of c.row)
unfolding page_of_rows
page_more n rest c h =
    let rows = map summary_of (take (suc (suc n)) rest) in
    let first = take-map-take (suc n) rest in
    let more =
      leb-false (length rows) (suc n) (omega (arith, length-map-take (suc (suc n)) rest h)) in
    ap (λ b. if b then (rows, none) else (take (suc n) rows, last_position (take (suc n) rows)))
      more
    ∙ ap₂ (λ items at. (items, at)) (first ∙ ap (map summary_of) c.first)
        (ap last_position first ∙ c.last)

walk_stop :
    (fuel limit : ℕ) (ordered : List Article) (after : Option Position) (author : Option ℕ)
    (items : List ArticleSummaryOut)
    → page_of_rows limit (query_rows ordered (limit + 1) after author) ≡ (items, none)
    → walk (suc fuel) ordered limit after author ≡ items
unfolding walk
walk_stop fuel limit ordered after author items page =
    ap (λ p. p.0 ++ elim p.1 [ none ↦ [] | some q ↦ walk fuel ordered limit (some q) author ]) page
    ∙ append-nil items

walk_on :
    (fuel limit : ℕ) (ordered : List Article) (after : Option Position) (author : Option ℕ)
    (items : List ArticleSummaryOut) (at : Position)
    → page_of_rows limit (query_rows ordered (limit + 1) after author) ≡ (items, some at)
    → walk (suc fuel) ordered limit after author ≡ items ++ walk fuel ordered limit (some at) author
unfolding walk
walk_on fuel limit ordered after author items at page =
    ap (λ p. p.0 ++ elim p.1 [ none ↦ [] | some q ↦ walk fuel ordered limit (some q) author ]) page

add_one : (n : ℕ) → n + 1 ≡ suc n
add_one n = omega arith

-- The page of a query, given the rows that are left.
page_of_left :
    (limit : ℕ) (ordered : List Article) (after : Option Position) (author : Option ℕ)
    (rest : List Article)
    → filter (is_after after) (visible author ordered) ≡ rest
    → page_of_rows limit (query_rows ordered (limit + 1) after author)
      ≡ page_of_rows limit (map summary_of (take (suc limit) rest))
unfolding query_rows
page_of_left limit ordered after author rest left =
    ap (λ r. page_of_rows limit (map summary_of r))
      (ap₂ take (add_one limit) (filter-list_matches after author ordered ∙ left))

walk_from :
    (fuel n : ℕ) (ordered : List Article) (after : Option Position) (author : Option ℕ)
    (before rest : List Article)
    → IsDescending (visible author ordered)
    → visible author ordered ≡ before ++ rest
    → filter (is_after after) (visible author ordered) ≡ rest
    → length rest < fuel
    → walk fuel ordered (suc n) after author ≡ map summary_of rest
walk_from zero n ordered after author before rest d whole left enough = absurd (omega arith)
walk_from (suc fuel) n ordered after author before rest d whole left enough =
    let page = page_of_left (suc n) ordered after author rest left in
    elim (Bool-cases (leb (length rest) (suc n))) [
      | inl short ↦
          walk_stop fuel (suc n) ordered after author (map summary_of rest)
            (page ∙ page_last (suc n) rest (leb→le (length rest) (suc n) short))
      | inr long ↦
          let more : suc n < length rest = ground (arith, long) in
          let c = cut n rest (omega (arith, more)) in
          let items = map summary_of (c.front ++ c.row ∷ []) in
          let whole' : visible author ordered ≡ (before ++ c.front) ++ c.row ∷ c.back =
            whole ∙ ap (◌++◌ before) c.whole ∙ sym (append_assoc before c.front (c.row ∷ c.back)) in
          let left' : filter (is_after (position_of c.row)) (visible author ordered) ≡ c.back =
            ap (filter (is_after (position_of c.row))) whole'
            ∙ filter_after (before ++ c.front) c.row c.back (subst IsDescending whole' d) in
          walk_on fuel (suc n) ordered after author items (c.row.created_at, c.row.id)
            (page ∙ page_more n rest c more)
          ∙ ap (◌++◌ items) (
              walk_from fuel n ordered (position_of c.row) author
                ((before ++ c.front) ++ c.row ∷ []) c.back d
                (whole' ∙ sym (append_assoc (before ++ c.front) (c.row ∷ []) c.back)) left'
                (omega (arith, enough, c.shorter)))
          ∙ sym (map-append summary_of (c.front ++ c.row ∷ []) c.back)
          ∙ ap (map summary_of) (append_assoc c.front (c.row ∷ []) c.back ∙ sym c.whole)
    ]

-- On a table in the order of the list query, a client that starts without a cursor, asks for pages
-- of at least one article, and follows each page's position until there is none, receives exactly
-- the live articles under its filter, in that order, each once; one request more than there are
-- such articles is enough.
pub walk_lem :
    (fuel n : ℕ) (ordered : List Article) (author : Option ℕ)
    → IsDescending ordered
    → length (visible author ordered) < fuel
    → walk fuel ordered (suc n) none author ≡ map summary_of (visible author ordered)
unfolding visible
walk_lem fuel n ordered author d enough =
    walk_from fuel n ordered none author [] (visible author ordered)
      (filter-IsDescending (λ r. is_live r && by_author author r) ordered d) refl
      (filter-none (visible author ordered)) enough
