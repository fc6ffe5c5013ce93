-- ===== src/Accounts/Login.antt =====
-- Registration and login (app/services/auth_service.py), the access token that a login gives and
-- the hashing behind it (app/core/security.py), and `get_current_user` of app/api/deps.py. The
-- libraries argon2 and PyJWT are parameters.
pub mod Token
use scalable_content_platfor.Base.{
  ℕ, ◌+◌, ◌*◌, ◌/◌, Bool, false, ◌&&◌, ◌||◌, Option, none, some, leb, ◌==◌, is_some, length,
  if◌then◌else◌,
}
use scalable_content_platfor.Text.{Text, codes, decimal, isdigit, parse}
use scalable_content_platfor.Effects.{
  Exception, Outcome, ok, raise, domain, unauthenticated, conflict, other, World, M, ◌>>=◌, ◌>>◌,
  pure, throw, gets, modify,
}
use scalable_content_platfor.Resilience.Policy.{DependencyPolicy}
use scalable_content_platfor.Resilience.Guard.{Runtime}
use scalable_content_platfor.Api.Cursor.{max_str_digits}
use scalable_content_platfor.Api.Routes.{Principal}
use scalable_content_platfor.Api.Auth.{Claims, non_empty}
use scalable_content_platfor.Accounts.Users.{Account, UserDatabase, get_by_id, get_by_email, create}

-- `_dummy_hash_cache` of the process, and the rest of the world.
pub record AuthState (S : Type 0) : Type 0 where
  pub dummy_hash_cache : Option Text
  pub server : S

-- argon2's Argon2Error and InvalidHashError.
abbrev pub argon2_error : Exception
argon2_error = other 4

abbrev pub invalid_hash_error : Exception
invalid_hash_error = other 5

-- The payload of a token; times are in seconds.
pub record Payload : Type 0 where
  pub sub : Text
  pub role : Text
  pub iat : ℕ
  pub exp : ℕ

-- What the service is constructed with, the settings, and the libraries: argon2's `hash`, which
-- draws a salt, its `verify` of a hash and a password, and PyJWT's `encode` of a key and a payload.
-- `utcnow` is in microseconds.
pub record Accounts (S : Type 0) : Type 1 where
  pub runtime : Runtime (AuthState S)
  pub policy : DependencyPolicy
  pub users : UserDatabase (AuthState S)
  pub hash : Text → M (AuthState S) Text
  pub verify : Text → Text → M (AuthState S) Bool
  pub jwt_encode : Text → Payload → Text
  pub jwt_secret : Text
  pub jwt_expire_seconds : ℕ
  pub utcnow : World (AuthState S) → ℕ

-- `except (Argon2Error, InvalidHashError): return False`
abbrev pub is_invalid : Exception → Bool
is_invalid (other n) = n == 4 || n == 5
is_invalid _ = false

abbrev pub unless_invalid : {S : Type 0} → Outcome Bool × World S → Outcome Bool × World S
unless_invalid (ok b, w) = (ok b, w)
unless_invalid (raise e, w) = if is_invalid e then (ok false, w) else (raise e, w)

module _ {S : Type 0} (accounts : Accounts S) where
  open accounts use {
    runtime, policy, users, hash, verify, jwt_encode, jwt_secret, jwt_expire_seconds, utcnow,
  }

  unfoldable pub verify_password : Text → Text → M (AuthState S) Bool
  verify_password password password_hash w = unless_invalid (verify password_hash password w)

  -- The clock is read before the key, and no key is a RuntimeError.
  abbrev pub payload_of : Text → Text → ℕ → Payload
  payload_of sub role now = record {
    sub = sub;
    role = role;
    iat = now / 1000000;
    exp = (now + jwt_expire_seconds * 1000000) / 1000000;
  }

  abbrev pub signing_key : M (AuthState S) Text
  signing_key = elim (non_empty jwt_secret) [ none ↦ throw (other 1) | some key ↦ pure key ]

  unfoldable pub create_access_token : Text → Text → M (AuthState S) Text
  create_access_token sub role = do
    now ← gets utcnow
    key ← signing_key
    pure (jwt_encode key (payload_of sub role now))

  abbrev pub keep_dummy_hash : Text → World (AuthState S) → World (AuthState S)
  keep_dummy_hash h w = record w { services = record w.services { dummy_hash_cache = some h } }

  -- `_dummy_hash`
  unfoldable pub dummy_hash : M (AuthState S) Text
  dummy_hash w = elim w.services.dummy_hash_cache [
    | some h ↦ (ok h, w)
    | none ↦
        (hash (codes "timing-equalizer-not-a-real-password") >>= λ h.
        modify (keep_dummy_hash h) >> pure h)
          w
  ]

  unfoldable pub register : Text → Text → M (AuthState S) Account
  register email password = do
    found ← get_by_email runtime policy users email
    if is_some found
        then throw (domain conflict)
        else hash password >>= λ password_hash.
            create runtime policy users email password_hash (codes "user")

  -- The password of the account, or of nobody.
  unfoldable pub login_as : Text → Option Account → M (AuthState S) Text
  unfolding verify_password dummy_hash create_access_token
  login_as password none = do
    h ← dummy_hash
    _ ← verify_password password h
    throw (domain unauthenticated)
  login_as password (some account) = do
    matches ← verify_password password account.password_hash
    if matches
        then create_access_token (decimal account.user.id) account.user.role_name
        else throw (domain unauthenticated)

  unfoldable pub login : Text → Text → M (AuthState S) Text
  unfolding login_as
  login email password = get_by_email runtime policy users email >>= login_as password

  -- `int(text)`; what it does with anything but a text of at most 4300 digits is a parameter.
  module _ (int_of_other : Text → Outcome ℕ) where
    unfoldable pub int_of : Text → Outcome ℕ
    int_of text =
        if isdigit text && leb (length text) max_str_digits
        then ok (parse text)
        else int_of_other text

    -- The account of an id, which must be there.
    unfoldable pub current_account : ℕ → M (AuthState S) Account
    current_account user_id = do
      found ← get_by_id runtime policy users user_id
      elim found [ none ↦ throw (domain unauthenticated) | some account ↦ pure account ]

    unfoldable pub get_current_user : Option Principal → M (AuthState S) Account
    unfolding current_account int_of
    get_current_user none w = (raise (domain unauthenticated), w)
    get_current_user (some principal) w = elim (int_of principal.id) [
      | raise e ↦ (raise e, w)
      | ok user_id ↦ current_account user_id w
    ]
