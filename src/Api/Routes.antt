-- ===== src/Api/Routes.antt =====
-- The access level that a route demands, and who meets it (`route_requirement` and `authorize` of
-- app/api/middleware.py).
use scalable_content_platfor.Base.{
  ℕ, ◌-◌, ◌≤◌, ◌≡◌, ◌↔◌, Bool, true, false, ◌&&◌, ◌||◌, List, [], ◌∷◌, ◌++◌, map, Option, none,
  some, leb, ◌==◌, arith, if◌then◌else◌,
}
use scalable_content_platfor.Text.{Text, codes, text_eq}

pub data Requirement : Type 0 where
  public authenticated admin : Requirement

pub record Principal : Type 0 where
  pub id : Text
  pub role : Text

-- `text.startswith(prefix)`
unfoldable pub starts_with : Text → Text → Bool
starts_with [] text = true
starts_with (a ∷ prefix) [] = false
starts_with (a ∷ prefix) (b ∷ text) = a == b && starts_with prefix text

-- `text.upper()` on ASCII, which is what a method is.
abbrev pub upper : Text → Text
upper s = map (λ c. if leb b'a' c && leb c b'z' then c - 32 else c) s

abbrev pub public_prefixes : List Text
public_prefixes =
    codes "/health"
    ∷ codes "/docs"
    ∷ codes "/redoc"
    ∷ codes "/openapi.json"
    ∷ codes "/v1/auth"
    ∷ codes "/metrics"
    ∷ []

-- `path == p or path.startswith(p + "/")`
unfoldable pub is_under : Text → Text → Bool
unfolding text_eq starts_with
is_under p path = text_eq path p || starts_with (p ++ codes "/") path

abbrev pub any_under : List Text → Text → Bool
any_under [] path = false
any_under (p ∷ ps) path = is_under p path || any_under ps path

unfoldable pub route_requirement : Text → Text → Requirement
unfolding is_under
route_requirement method path =
    if text_eq path (codes "/") || any_under public_prefixes path
    then public
    else if is_under (codes "/v1/admin") path
    then admin
    else if text_eq path (codes "/v1/articles") || starts_with (codes "/v1/articles") path
    then (if text_eq (upper method) (codes "GET") then public else authenticated)
    else authenticated

-- The denial: a status and a code.
unfoldable pub authorize : Requirement → Option Principal → Option (ℕ × Text)
unfolding text_eq
authorize public principal = none
authorize authenticated none = some (401, codes "UNAUTHENTICATED")
authorize authenticated (some p) = none
authorize admin none = some (401, codes "UNAUTHENTICATED")
authorize admin (some p) =
    if text_eq p.role (codes "admin") then none else some (403, codes "FORBIDDEN")

-- What a principal can do, and what a route asks for, on one scale.
abbrev pub level : Option Principal → ℕ
level none = 0
level (some p) = if text_eq p.role (codes "admin") then 2 else 1

abbrev pub demand : Requirement → ℕ
demand public = 0
demand authenticated = 1
demand admin = 2

-- A principal may proceed exactly if its level reaches what the route demands.
pub authorize_lem :
    (r : Requirement) (p : Option Principal) → ((authorize r p ≡ none) ↔ (demand r ≤ level p))
unfolding authorize
authorize_lem public p = ground arith
authorize_lem authenticated none = ground arith
authorize_lem authenticated (some p) = ground arith
authorize_lem admin none = ground arith
authorize_lem admin (some p) = ground arith
