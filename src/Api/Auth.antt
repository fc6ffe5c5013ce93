-- ===== src/Api/Auth.antt =====
-- Authentication of a request (`extract_bearer_token` and `AuthMiddleware` of
-- app/api/middleware.py, `decode_access_token` of app/core/security.py). The token library, PyJWT,
-- is a parameter.
use scalable_content_platfor.Base.{
  ℕ, ◌+◌, ◌≤◌, ◌≡◌, refl, Bool, ◌&&◌, ◌||◌, [], ◌∷◌, map, Option, none, some, leb, ◌==◌, arith,
  if◌then◌else◌,
}
use scalable_content_platfor.Text.{Text, codes, text_eq, partition}
use scalable_content_platfor.Effects.{Outcome, ok, raise, domain, unauthenticated, other, World, M}
use scalable_content_platfor.Api.{Response, error_response}
use scalable_content_platfor.Api.Routes.{
  Principal, route_requirement, authorize, authorize_lem, level, demand,
}

pub record HttpRequest : Type 0 where
  pub method : Text
  pub path : Text
  pub authorization : Option Text

-- Python's white space, as far as a header can hold it.
abbrev pub is_space : ℕ → Bool
is_space c = leb 9 c && leb c 13 || leb 28 c && leb c 32 || c == 133 || c == 160

-- `text.lstrip()`
abbrev pub lstrip : Text → Text
lstrip [] = []
lstrip (c ∷ s) = if is_space c then lstrip s else c ∷ s

-- `text.rstrip()`: a character stays if it is none, or if one that stays is behind it.
abbrev pub keep_before : ℕ → Text → Text
keep_before c [] = if is_space c then [] else c ∷ []
keep_before c (d ∷ s) = c ∷ d ∷ s

abbrev pub rstrip : Text → Text
rstrip [] = []
rstrip (c ∷ s) = keep_before c (rstrip s)

abbrev pub strip : Text → Text
strip s = rstrip (lstrip s)

-- `text.lower()` on ASCII.
abbrev pub lower : Text → Text
lower s = map (λ c. if leb b'A' c && leb c b'Z' then c + 32 else c) s

-- `if not token`
abbrev pub non_empty : Text → Option Text
non_empty [] = none
non_empty (c ∷ s) = some (c ∷ s)

-- The header, once it is there and has a space in it.
abbrev pub bearer_of : Text × Text → Option Text
bearer_of (scheme, token) =
    if text_eq (lower scheme) (codes "bearer") then non_empty (strip token) else none

unfoldable pub extract_bearer_token : Option Text → Option Text
unfolding text_eq partition
extract_bearer_token none = none
extract_bearer_token (some header) = elim (partition b' ' header) [
  | none ↦ none
  | some parts ↦ bearer_of parts
]

-- What `claims.get` gives of the two claims that the platform reads.
pub record Claims : Type 0 where
  pub sub : Option Text
  pub role : Option Text

-- `if not claims.get("sub") or not claims.get("role")`
abbrev pub require_claims : Option Text → Option Text → Outcome Principal
require_claims (some (c ∷ sub)) (some (d ∷ role)) = ok (record { id = c ∷ sub; role = d ∷ role })
require_claims _ _ = raise (domain unauthenticated)

-- `jwt` takes the key and the token; `none` is a PyJWTError. Without a key the settings raise a
-- RuntimeError.
module _ (jwt : Text → Text → Option Claims) (secret : Text) where
  abbrev pub require_signing_key : Outcome Text
  require_signing_key = elim (non_empty secret) [ none ↦ raise (other 1) | some key ↦ ok key ]

  -- The decoded token, as the principal that the middleware makes of its claims.
  unfoldable pub decode_access_token : Text → Outcome Principal
  decode_access_token token = elim require_signing_key [
    | raise e ↦ raise e
    | ok key ↦ elim (jwt key token) [
      | none ↦ raise (domain unauthenticated)
      | some claims ↦ require_claims claims.sub claims.role
    ]
  ]

  module _ {S : Type 0} (call_next : Option Principal → M S Response) where
    -- `if denial is not None: return error_response(request, *denial)`
    abbrev pub unless_denied : Option (ℕ × Text) → Option Principal → M S Response
    unless_denied none principal w = call_next principal w
    unless_denied (some (status, code)) principal w = (ok (error_response status code none), w)

    -- The policy, for the principal that was found.
    unfoldable pub enforce : HttpRequest → Option Principal → M S Response
    enforce request principal w =
        unless_denied (authorize (route_requirement request.method request.path) principal)
          principal w

    -- What the request's token gives.
    abbrev pub admit : HttpRequest → Outcome Principal → M S Response
    admit request (ok principal) w = enforce request (some principal) w
    admit request (raise (domain unauthenticated)) w =
        (ok (error_response 401 (codes "UNAUTHENTICATED") none), w)
    admit request (raise e) w = (raise e, w)

    abbrev pub dispatch_token : HttpRequest → Option Text → M S Response
    dispatch_token request none w = enforce request none w
    dispatch_token request (some token) w = admit request (decode_access_token token) w

    unfoldable pub dispatch : HttpRequest → M S Response
    dispatch request w = dispatch_token request (extract_bearer_token request.authorization) w

  -- The principals that a request can come with: none, if it has no token, and otherwise the one
  -- that its token was verified to name.
  abbrev pub IsGenuine : HttpRequest → Option Principal → Type 0
  IsGenuine request none = extract_bearer_token request.authorization ≡ none
  IsGenuine request (some p) =
      (token : Text) × (extract_bearer_token request.authorization ≡ some token)
      × (decode_access_token token ≡ ok p)

  module _ {S : Type 0} (handler handler' : Option Principal → M S Response) where
    unless_denied_agree :
        (d : Option (ℕ × Text)) (p : Option Principal) (w : World S)
        → (d ≡ none → handler p w ≡ handler' p w)
        → unless_denied handler d p w ≡ unless_denied handler' d p w
    unless_denied_agree none p w same = same refl
    unless_denied_agree (some d) p w same = refl

    enforce_agree :
        (request : HttpRequest) (p : Option Principal) (w : World S)
        → (demand (route_requirement request.method request.path) ≤ level p
            → handler p w ≡ handler' p w)
        → enforce handler request p w ≡ enforce handler' request p w
    unfolding enforce
    enforce_agree request p w same =
        let required = route_requirement request.method request.path in
        unless_denied_agree (authorize required p) p w (λ e. same ((authorize_lem required p).0 e))

    admit_agree :
        (request : HttpRequest) (r : Outcome Principal) (w : World S)
        → ((p : Principal)
            → r ≡ ok p
            → enforce handler request (some p) w ≡ enforce handler' request (some p) w)
        → admit handler request r w ≡ admit handler' request r w
    admit_agree request (ok p) w same = same p refl
    admit_agree request (raise e) w same = ground arith

    dispatch_token_agree :
        (request : HttpRequest) (token : Option Text) (w : World S)
        → extract_bearer_token request.authorization ≡ token
        → ((p : Option Principal)
            → IsGenuine request p
            → demand (route_requirement request.method request.path) ≤ level p
            → handler p w ≡ handler' p w)
        → dispatch_token handler request token w ≡ dispatch_token handler' request token w
    dispatch_token_agree request none w e same = enforce_agree request none w (same none e)
    dispatch_token_agree request (some token) w e same =
        admit_agree request (decode_access_token token) w
          (λ p d. enforce_agree request (some p) w (same (some p) (token, e, d)))

    -- Nothing runs for a principal that the request does not prove, or whose level is below what
    -- the route demands: two handlers that agree on the genuine principals of a sufficient level
    -- give the request the same response and the same effects.
    pub dispatch_agree :
        (request : HttpRequest) (w : World S)
        → ((p : Option Principal)
            → IsGenuine request p
            → demand (route_requirement request.method request.path) ≤ level p
            → handler p w ≡ handler' p w)
        → dispatch handler request w ≡ dispatch handler' request w
    unfolding dispatch
    dispatch_agree request w same =
        dispatch_token_agree request (extract_bearer_token request.authorization) w refl same
