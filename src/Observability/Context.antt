-- ===== src/Observability/Context.antt =====
-- The rules of request correlation (app/observability/context.py): what a valid request id is, and
-- which route a request is counted under. Starlette's routes are data: their paths, what their
-- `matches` says of the request, and the routes below them.
use scalable_content_platfor.Base.{
  ℕ, ◌≡◌, ◌⊎◌, inl, inr, refl, Bool, true, false, ◌&&◌, ◌||◌, List, [], ◌∷◌, ◌++◌, Option, none,
  some, leb, ◌==◌, length, Bool-cases, if◌then◌else◌,
}
use scalable_content_platfor.Text.{Text, codes, is_digit}
use scalable_content_platfor.Api.Routes.{Principal}

abbrev pub unmatched_route : Text
unmatched_route = codes "__unmatched__"

abbrev pub is_id_char : ℕ → Bool
is_id_char c =
    leb b'A' c && leb c b'Z'
    || leb b'a' c && leb c b'z'
    || is_digit c
    || c == b'.'
    || c == b'_'
    || c == b'-'

abbrev pub all_id_chars : Text → Bool
all_id_chars [] = true
all_id_chars (c ∷ s) = is_id_char c && all_id_chars s

-- `_REQUEST_ID_RE.fullmatch`
unfoldable pub is_request_id : Text → Bool
is_request_id s = leb 1 (length s) && leb (length s) 64 && all_id_chars s

-- With the id that would be minted.
unfoldable pub sanitize_request_id : Text → Option Text → Text
unfolding is_request_id
sanitize_request_id minted none = minted
sanitize_request_id minted (some value) = if is_request_id value then value else minted

-- The principal as the authentication middleware left it.
abbrev pub principal_user_id : Option Principal → Option Text
principal_user_id none = none
principal_user_id (some principal) = some principal.id

pub data Match : Type 0 where
  no_match partial full : Match

mutual
  -- A route's own path and match, and the routes it contains.
  pub data Route : Type 0 where
    route : Option Text → Match → Routes → Route

  pub data Routes : Type 0 where
    nil : Routes
    cons : Route → Routes → Routes

abbrev pub Leaf : Type 0
Leaf = Option Text × Match

-- `_leaf_routes`: a route without nested routes is itself a leaf.
unfoldable mutual
  pub leaves_of : Route → List Leaf
  leaves_of (route path match nil) = (path, match) ∷ []
  leaves_of (route path match (cons r rs)) = leaves_of r ++ leaf_routes rs

  pub leaf_routes : Routes → List Leaf
  leaf_routes nil = []
  leaf_routes (cons r rs) = leaves_of r ++ leaf_routes rs

-- What one leaf does to the loop: its path is returned, or kept as the partial one, or neither.
abbrev pub keep_partial : Option Text → Text → Option Text
keep_partial none path = some path
keep_partial (some kept) path = some kept

-- The loop of `_match_route_table`, with the partial match so far.
unfoldable pub match_leaves : Option Text → List Leaf → Text
match_leaves kept [] = elim kept [ none ↦ unmatched_route | some path ↦ path ]
match_leaves kept ((none, _) ∷ leaves) = match_leaves kept leaves
match_leaves kept ((some path, full) ∷ leaves) = path
match_leaves kept ((some path, partial) ∷ leaves) = match_leaves (keep_partial kept path) leaves
match_leaves kept ((some path, no_match) ∷ leaves) = match_leaves kept leaves

unfoldable pub match_route_table : Routes → Text
unfolding match_leaves leaf_routes
match_route_table routes = match_leaves none (leaf_routes routes)

-- The path of `scope["route"]`, and the routes of the app.
unfoldable pub route_template : Option Text → Routes → Text
unfolding match_route_table
route_template (some path) routes = path
route_template none routes = match_route_table routes

-- The paths of the leaves that match in a given way.
abbrev pub is_full : Match → Bool
is_full full = true
is_full _ = false

abbrev pub is_partial : Match → Bool
is_partial partial = true
is_partial _ = false

abbrev pub paths_where : (Match → Bool) → List Leaf → List Text
paths_where p [] = []
paths_where p ((none, m) ∷ leaves) = paths_where p leaves
paths_where p ((some path, m) ∷ leaves) =
    if p m then path ∷ paths_where p leaves else paths_where p leaves

abbrev pub first_or : List Text → Text → Text
first_or [] d = d
first_or (path ∷ paths) d = path

match_leaves_lem :
    (kept : Option Text) (leaves : List Leaf)
    → match_leaves kept leaves
      ≡ first_or (paths_where is_full leaves) (elim kept [
        | some path ↦ path
        | none ↦ first_or (paths_where is_partial leaves) unmatched_route
      ])
unfolding match_leaves
match_leaves_lem none [] = refl
match_leaves_lem (some path) [] = refl
match_leaves_lem kept ((none, m) ∷ leaves) = match_leaves_lem kept leaves
match_leaves_lem kept ((some path, full) ∷ leaves) = refl
match_leaves_lem kept ((some path, no_match) ∷ leaves) = match_leaves_lem kept leaves
match_leaves_lem none ((some path, partial) ∷ leaves) = match_leaves_lem (some path) leaves
match_leaves_lem (some p) ((some path, partial) ∷ leaves) = match_leaves_lem (some p) leaves

-- Where the router did not name the route, the label is the path of the first leaf of the routing
-- table that matches in full, if there is one, and otherwise of the first that matches in part
-- (the right path, but another method), wherever it stands; and if there is neither, the constant
-- for unmatched routes. What the caller sent is never the label.
pub route_template-unnamed :
    (routes : Routes)
    → route_template none routes
      ≡ first_or
          (paths_where is_full (leaf_routes routes))
          (first_or (paths_where is_partial (leaf_routes routes)) unmatched_route)
unfolding route_template match_route_table
route_template-unnamed routes = match_leaves_lem none (leaf_routes routes)

-- The id that a request goes by is one that can be written into a log line and a header, whatever
-- the caller sent: at least one and at most 64 characters, each a letter, a digit, or one of `._-`.
-- An id of the caller's is kept if it has that form, and the minted one takes its place if not.
-- That is if the minted id itself has that form.
pub sanitize_request_id_lem :
    (minted v : Text)
    → is_request_id minted ≡ true
    → (is_request_id (sanitize_request_id minted (some v)) ≡ true)
      × (sanitize_request_id minted none ≡ minted)
      × (((is_request_id v ≡ true) × (sanitize_request_id minted (some v) ≡ v))
          ⊎ ((is_request_id v ≡ false) × (sanitize_request_id minted (some v) ≡ minted)))
unfolding sanitize_request_id
sanitize_request_id_lem minted v h = elim (Bool-cases (is_request_id v)) [
  | inl good ↦ rw good (good, refl, inl (refl, refl))
  | inr bad ↦ rw bad (h, refl, inr (refl, refl))
]
