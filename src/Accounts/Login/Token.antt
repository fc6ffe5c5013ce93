-- ===== src/Accounts/Login/Token.antt =====
-- The token of a login, read back by `decode_access_token` and `get_current_user`, and when a login
-- is refused.
use scalable_content_platfor.Base.{
  ℕ, ◌+◌, ◌*◌, ◌/◌, ◌^◌, ◌≤◌, ◌<◌, ◌≡◌, ◌≢◌, ◌↔◌, ◌⊎◌, inl, inr, refl, Bool, true, false, ◌&&◌, [],
  ◌∷◌, Option, none, some, leb, ltb, arith, Option-cases, length, if◌then◌else◌,
}
use mathlib.Core.Path.{subst}
use scalable_content_platfor.Text.{Text, codes, decimal, isdigit}
use scalable_content_platfor.Text.Decimal.{parse-decimal, isdigit-decimal, length-decimal}
use scalable_content_platfor.Effects.{Outcome, ok, raise, domain, unauthenticated, World}
use scalable_content_platfor.Api.Cursor.{max_str_digits}
use scalable_content_platfor.Api.Routes.{Principal}
use scalable_content_platfor.Api.Auth.{Claims, non_empty, require_claims, decode_access_token}
use scalable_content_platfor.Accounts.Users.{Account, get_by_email}
use scalable_content_platfor.Accounts.Login.{
  AuthState, Payload, Accounts, verify_password, payload_of, create_access_token, keep_dummy_hash,
  argon2_error, invalid_hash_error, dummy_hash, login_as, login, int_of, current_account,
  get_current_user,
}

-- The principal of an account.
abbrev pub principal_of : Account → Principal
principal_of account = record { id = decimal account.user.id; role = account.user.role_name }

-- PyJWT at a time: a token that `encode` made is read back with its claims from the start of its
-- second of issue on, and until it expires.
abbrev pub IsJwt : (Text → Payload → Text) → (ℕ → Text → Text → Option Claims) → Type 0
IsJwt encode decode_at =
    (time : ℕ) (key : Text) (payload : Payload)
    → decode_at time key (encode key payload) ≡ (
        if leb (payload.iat * 1000000) time && ltb time (payload.exp * 1000000)
        then some (record { sub = some payload.sub; role = some payload.role })
        else none)

-- Two claims that are there and not empty make a principal.
require_claims-cons :
    (sub role : Text)
    → isdigit sub ≡ true
    → role ≢ []
    → require_claims (some sub) (some role) ≡ ok (record { id = sub; role = role })
unfolding isdigit
require_claims-cons [] role digits there = ground arith
require_claims-cons (c ∷ sub) [] digits there = elim (there refl) [ ]
require_claims-cons (c ∷ sub) (d ∷ role) digits there = refl

module _ {S : Type 0} (accounts : Accounts S) where
  open accounts use {
    runtime, policy, users, verify, jwt_encode, jwt_secret, jwt_expire_seconds, utcnow,
  }

  module _ (jwt_at : ℕ → Text → Text → Option Claims) (is_jwt : IsJwt jwt_encode jwt_at)
      (int_of_other : Text → Outcome ℕ) where
    decode-encode :
        (account : Account) (now time : ℕ) (key : Text)
        → non_empty jwt_secret ≡ some key
        → account.user.role_name ≢ []
        → now ≤ time
        → decode_access_token (jwt_at time) jwt_secret (
            jwt_encode key
              (payload_of accounts (decimal account.user.id) account.user.role_name now))
          ≡ (if ltb time ((now / 1000000 + jwt_expire_seconds) * 1000000)
              then ok (principal_of account)
              else raise (domain unauthenticated))
    unfolding decode_access_token
    decode-encode account now time key k role later =
        let payload = payload_of accounts (decimal account.user.id) account.user.role_name now in
        let made : leb (payload.iat * 1000000) time ≡ true = ground arith in
        let ends : payload.exp ≡ now / 1000000 + jwt_expire_seconds = omega arith in
        let whole =
          require_claims-cons (decimal account.user.id) account.user.role_name
            (isdigit-decimal account.user.id) role in
        ground (arith, k, is_jwt time key payload, made, ends, whole)

    int_of-decimal : (n : ℕ) → n < 2 ^ 63 → int_of accounts int_of_other (decimal n) ≡ ok n
    unfolding int_of
    int_of-decimal n h =
        let short : leb (length (decimal n)) max_str_digits ≡ true =
          ground (arith, length-decimal 19 n (omega (arith, h))) in
        rw (isdigit-decimal n, short, parse-decimal n) refl

    -- A login that gives a token has verified the password against the account's hash, once; and
    -- the token is good for the account, and for no longer than the settings say: while it has not
    -- expired it decodes to the principal of the account, and from then on it is refused; and the
    -- router looks the principal up under the account's id. That is for an account whose role has a
    -- name and whose id is a signed 64-bit one, given PyJWT's behaviour.
    pub login-token :
        (email password token : Text) (account : Account) (time : ℕ)
        (w v w' u : World (AuthState S))
        → get_by_email runtime policy users email w ≡ (ok (some account), v)
        → login accounts email password w ≡ (ok token, w')
        → account.user.role_name ≢ []
        → account.user.id < 2 ^ 63
        → utcnow w' ≤ time
        → (verify account.password_hash password v ≡ (ok true, w'))
          × (decode_access_token (jwt_at time) jwt_secret token ≡ (
              if ltb time ((utcnow w' / 1000000 + jwt_expire_seconds) * 1000000)
              then ok (principal_of account)
              else raise (domain unauthenticated)))
          × (get_current_user accounts int_of_other (some (principal_of account)) u
              ≡ current_account accounts int_of_other account.user.id u)
    unfolding login login_as verify_password create_access_token get_current_user
    login-token email password token account time w v w' u found h role small later =
        let named = int_of-decimal account.user.id small in
        (
          ground (arith, found, h),
          elim (Option-cases (non_empty jwt_secret)) [
            | inl missing ↦ ground (arith, found, h, missing)
            | inr (key, k) ↦
                ground (arith, found, h, k, decode-encode account (utcnow w') time key k role later)
          ],
          ground (arith, named),
        )

  -- The library's verdict on a password: it is refused by a result or by one of the two exceptions
  -- that say so, and accepted by the other result.
  abbrev pub Mismatched : Outcome Bool → Type 0
  Mismatched r = (r ≡ ok false) ⊎ (r ≡ raise argon2_error) ⊎ (r ≡ raise invalid_hash_error)

  abbrev pub Judged : Outcome Bool → Type 0
  Judged r = (r ≡ ok true) ⊎ Mismatched r

  verify_password_lem :
      (password password_hash : Text) (u : World (AuthState S))
      → Judged (verify password_hash password u).0
      → ((verify password_hash password u).0 ≡ ok true)
          × ((verify_password accounts password password_hash u).0 ≡ ok true)
        ⊎ (Mismatched (verify password_hash password u).0
            × ((verify_password accounts password password_hash u).0 ≡ ok false))
  unfolding verify_password
  verify_password_lem password password_hash u (inl matches) =
      inl (matches, ground (arith, matches))
  verify_password_lem password password_hash u (inr differs) = inr (
    differs,
    elim differs [
      | inl e ↦ ground (arith, e)
      | inr (inl e) ↦ ground (arith, e)
      | inr (inr e) ↦ ground (arith, e)
    ],
  )

  login_as-none :
      (password : Text) (v : World (AuthState S))
      → ((password_hash : Text) (u : World (AuthState S))
          → Judged (verify password_hash password u).0)
      → ((text : Text) (u : World (AuthState S)) → (h : Text) × ((accounts.hash text u).0 ≡ ok h))
      → (login_as accounts password none v).0 ≡ raise (domain unauthenticated)
  unfolding login_as dummy_hash
  login_as-none password v judges hashes =
      let (h, made) = hashes (codes "timing-equalizer-not-a-real-password") v in
      let hashed = (accounts.hash (codes "timing-equalizer-not-a-real-password") v).1 in
      elim (Option-cases v.services.dummy_hash_cache) [
        | inl e ↦
            let u = keep_dummy_hash accounts h hashed in
            ground (arith, e, made, verify_password_lem password h u (judges h u))
        | inr (kept, e) ↦ ground (arith, e, verify_password_lem password kept v (judges kept v))
      ]

  login_as-some :
      (password : Text) (account : Account) (v : World (AuthState S))
      → Judged (verify account.password_hash password v).0
      → ((login_as accounts password (some account) v).0 ≡ raise (domain unauthenticated))
        ↔ Mismatched (verify account.password_hash password v).0
  unfolding login_as create_access_token
  login_as-some password account v judged =
      elim (verify_password_lem password account.password_hash v judged) [
        | inl (matches, e) ↦
            (λ h. ground (arith, e, h), λ differs. ground (arith, matches, differs))
        | inr (differs, e) ↦ (λ h. differs, λ h. ground (arith, e))
      ]

  -- A login is refused exactly if there is no such account or argon2 says that the password does
  -- not match the account's hash (by its result, or by an Argon2Error or an InvalidHashError),
  -- and with the same exception in both cases. That is where the lookup gives a result, argon2's
  -- verification raises no other exception, and its hashing raises none.
  pub login_refused :
      (email password : Text) (found : Option Account) (w v : World (AuthState S))
      → get_by_email runtime policy users email w ≡ (ok found, v)
      → ((password_hash : Text) (u : World (AuthState S))
          → Judged (verify password_hash password u).0)
      → ((text : Text) (u : World (AuthState S)) → (h : Text) × ((accounts.hash text u).0 ≡ ok h))
      → ((login accounts email password w).0 ≡ raise (domain unauthenticated)) ↔ (
          (found ≡ none)
          ⊎ ((account : Account) × (found ≡ some account)
              × Mismatched (verify account.password_hash password v).0))
  unfolding login
  login_refused email password none w v e judges hashes =
      (λ h. inl refl, λ h. ground (arith, e, login_as-none password v judges hashes))
  login_refused email password (some account) w v e judges hashes =
      let case = login_as-some password account v (judges account.password_hash v) in
      (
        λ h. inr (account, refl, case.0 (ground (arith, e, h))),
        λ h. elim h [
          | inl absent ↦ ground arith
          | inr (account', same, wrong) ↦
              let hash : account'.password_hash ≡ account.password_hash = ground (arith, same) in
              let here = subst (λ k. Mismatched (verify k password v).0) hash wrong in
              ground (arith, e, case.1 here)
        ],
      )
