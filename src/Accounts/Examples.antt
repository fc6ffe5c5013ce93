-- ===== src/Accounts/Examples.antt =====
-- Accounts, and a hasher and a token library that are simple functions, and the theorems on
-- accounts at concrete inputs.
use scalable_content_platfor.Base.{
  ℕ, ◌*◌, ◌≤◌, ◌≡◌, ◌≢◌, Bool-cases, inl, inr, ◌↔◌, ◌⊎◌, refl, ap, true, ◌&&◌, [], ◌∷◌, ◌++◌, List,
  Option, none, some, leb, ltb, arith, length, take, drop, filter, if◌then◌else◌,
}
use scalable_content_platfor.Text.{Text, codes, decimal, text_eq}
use scalable_content_platfor.Effects.{ok, raise, domain, unauthenticated, other, Outcome, World}
use scalable_content_platfor.Resilience.Concrete.{runtime}
use scalable_content_platfor.Resilience.Fixtures.{policies, empty}
use scalable_content_platfor.Resilience.Breaker.{allow}
use scalable_content_platfor.Resilience.Retry.{with_retry, attempt}
use scalable_content_platfor.Resilience.Guard.{guarded_read, new_breaker}
use scalable_content_platfor.Api.Auth.{Claims, lower, decode_access_token}
use scalable_content_platfor.Accounts.Users.{Account, get_by_email}
use scalable_content_platfor.Accounts.Passwords.{
  PolicyError, breached, policy_error, screen_password, is_breached, bundled_blocklist,
  min_password_length, max_password_length, screen_password-bundled,
}
use scalable_content_platfor.Accounts.Login.{
  AuthState, Payload, Accounts, login, get_current_user, current_account,
}
use scalable_content_platfor.Accounts.Login.Token.{
  IsJwt, principal_of, login-token, Judged, Mismatched, login_refused,
}

abbrev blocklist : Text
blocklist = codes "# common" ++ 10 ∷ codes " Password1234" ++ 10 ∷ codes "qwertyuiop12"

screen_password-bundled_example :
    (e : PolicyError) × (screen_password
        (is_breached lower (bundled_blocklist lower blocklist))
        (codes "PASSWORD1234")
      ≡ policy_error e)
    × (min_password_length ≤ length (codes "PASSWORD1234")
          × length (codes "PASSWORD1234") ≤ max_password_length
        ↔ (e ≡ breached))
screen_password-bundled_example =
    screen_password-bundled lower (codes "# common" ∷ []) (codes "qwertyuiop12" ∷ [])
      (codes " Password1234") blocklist (codes "PASSWORD1234") refl refl refl

abbrev encode : Text → Payload → Text
encode key p = p.iat ∷ p.exp ∷ length p.sub ∷ p.sub ++ p.role

abbrev claims_of : Text → ℕ → Claims
claims_of s n = record { sub = some (take n s); role = some (drop n s) }

abbrev decode_at : ℕ → Text → Text → Option Claims
decode_at time key (iat ∷ exp ∷ n ∷ s) =
    if leb (iat * 1000000) time && ltb time (exp * 1000000) then some (claims_of s n) else none
decode_at time key _ = none

take-append : (s t : Text) → take (length s) (s ++ t) ≡ s
take-append [] t = refl
take-append (c ∷ s) t = ap (λ r. c ∷ r) (take-append s t)

drop-append : (s t : Text) → drop (length s) (s ++ t) ≡ t
drop-append [] t = refl
drop-append (c ∷ s) t = drop-append s t

is_jwt : IsJwt encode decode_at
is_jwt time key p = rw (take-append p.sub p.role, drop-append p.sub p.role) refl

abbrev alice : Account
alice = record {
  user = record { id = 7; role_name = codes "user" };
  email = codes "a@b.c";
  password_hash = codes "!secret";
}

-- A hash is the password with a mark in front; another password is an Argon2Error.
abbrev accounts : Accounts (List Account)
accounts = record {
  runtime = runtime;
  policy = policies.database;
  users = record {
    session_get = λ i w. (ok none, w);
    select_users = λ p w. (ok (filter p w.services.server), w);
    select_roles = λ r w. (ok (1 ∷ []), w);
    insert_user = λ email h role w. (raise (other 0), w);
    rollback = λ w. (ok tt, w);
  };
  hash = λ s w. (ok (b'!' ∷ s), w);
  verify = λ h s w. (if text_eq h (b'!' ∷ s) then ok true else raise (other 4), w);
  jwt_encode = encode;
  jwt_secret = codes "k";
  jwt_expire_seconds = 900;
  utcnow = λ w. w.now;
}

abbrev world : World (AuthState (List Account))
world = record {
  now = 5500000;
  breakers = empty;
  counted = [];
  services = record { dummy_hash_cache = none; server = alice ∷ [] };
}

abbrev looked_up : World (AuthState (List Account))
looked_up = (get_by_email runtime policies.database accounts.users (codes "a@b.c") world).1

abbrev token : Text
token = encode (codes "k") (record { sub = codes "7"; role = codes "user"; iat = 5; exp = 905 })

found-alice :
    get_by_email runtime policies.database accounts.users (codes "a@b.c") world
    ≡ (ok (some alice), looked_up)
unfolding get_by_email guarded_read allow new_breaker with_retry runtime attempt
found-alice = refl

login-alice : login accounts (codes "a@b.c") (codes "secret") world ≡ (ok token, looked_up)
unfolding login get_by_email guarded_read allow new_breaker with_retry runtime attempt decimal
login-alice = refl

abbrev no_int : Text → Outcome ℕ
no_int s = raise (other 6)

role-alice : alice.user.role_name ≢ []
role-alice = ground arith

issued : accounts.utcnow looked_up ≤ 6500000
unfolding get_by_email guarded_read allow new_breaker with_retry runtime attempt
issued = omega arith

login-token_example :
    (accounts.verify alice.password_hash (codes "secret") looked_up ≡ (ok true, looked_up))
    × (decode_access_token (decode_at 6500000) (codes "k") token ≡ ok (principal_of alice))
    × (get_current_user accounts no_int (some (principal_of alice)) world
        ≡ current_account accounts no_int 7 world)
unfolding get_by_email guarded_read allow new_breaker with_retry runtime attempt
login-token_example =
    login-token accounts decode_at is_jwt no_int (codes "a@b.c") (codes "secret") token alice
      6500000 world looked_up looked_up world found-alice login-alice role-alice (omega arith)
      issued

judged :
    (password h : Text) (u : World (AuthState (List Account)))
    → Judged accounts (accounts.verify h password u).0
judged password h u = elim (Bool-cases (text_eq h (b'!' ∷ password))) [
  | inl e ↦ rw e (inl refl)
  | inr e ↦ rw e (inr (inr (inl refl)))
]

login_refused_example :
    ((login accounts (codes "a@b.c") (codes "wrong") world).0 ≡ raise (domain unauthenticated)) ↔ (
      (some alice ≡ none)
      ⊎ ((account : Account) × (some alice ≡ some account)
          × Mismatched accounts
              (accounts.verify account.password_hash (codes "wrong") looked_up).0))
login_refused_example =
    login_refused accounts (codes "a@b.c") (codes "wrong") (some alice) world looked_up found-alice
      (judged (codes "wrong")) (λ s u. (b'!' ∷ s, refl))
