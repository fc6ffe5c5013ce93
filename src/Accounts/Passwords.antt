-- ===== src/Accounts/Passwords.antt =====
-- The password policy (app/security/password_policy.py). `str.lower` is a parameter, since
-- passwords are any Unicode text; so is the text of the bundled blocklist.
use scalable_content_platfor.Base.{
  ℕ, ◌≤◌, ◌≡◌, ◌↔◌, refl, Bool, true, false, not, ◌&&◌, List, [], ◌∷◌, ◌++◌, map, filter, length,
  ltb, leb, ◌==◌, arith, Bool-cases, inl, inr, if◌then◌else◌,
}
use scalable_content_platfor.Text.{Text}
use scalable_content_platfor.Text.Words.{contains, put_char}
use scalable_content_platfor.Text.Equality.{text_eq_refl}
use scalable_content_platfor.Api.Auth.{strip}

abbrev pub min_password_length : ℕ
min_password_length = 12

abbrev pub max_password_length : ℕ
max_password_length = 128

pub data PolicyError : Type 0 where
  too_short too_long breached : PolicyError

pub data Screened : Type 0 where
  ok : Text → Screened
  policy_error : PolicyError → Screened

-- `text.splitlines()`, for lines that end in a line feed.
abbrev pub splitlines : Text → List Text
splitlines [] = []
splitlines (c ∷ s) = if c == 10 then [] ∷ splitlines s else put_char c (splitlines s)

-- `line.strip() and not line.startswith("#")`
abbrev pub is_comment : Text → Bool
is_comment [] = false
is_comment (c ∷ s) = c == b'#'

abbrev pub is_entry : Text → Bool
is_entry line = leb 1 (length (strip line)) && not (is_comment line)

-- With the default checker, or another one.
unfoldable pub screen_password : (Text → Bool) → Text → Screened
screen_password breached_by password =
    if ltb (length password) min_password_length
    then policy_error too_short
    else if ltb max_password_length (length password)
    then policy_error too_long
    else if breached_by password
    then policy_error breached
    else ok password

-- What is accepted is the password itself, of an allowed length, and not in the list; and every
-- such password is accepted.
pub screen_password_ok :
    (breached_by : Text → Bool) (password accepted : Text)
    → (screen_password breached_by password ≡ ok accepted) ↔ (
        (accepted ≡ password)
        × (min_password_length ≤ length password)
        × (length password ≤ max_password_length)
        × (breached_by password ≡ false))
unfolding screen_password
screen_password_ok breached_by password accepted = ground arith

module _ (lower : Text → Text) where
  unfoldable pub bundled_blocklist : Text → List Text
  bundled_blocklist file = map (λ line. lower (strip line)) (filter is_entry (splitlines file))

  -- `LocalBlocklistChecker.is_breached`
  unfoldable pub is_breached : List Text → Text → Bool
  unfolding contains
  is_breached blocklist password = contains blocklist (lower password)

  contains-entry :
      (before after : List Text) (line password : Text)
      → is_entry line ≡ true
      → lower (strip line) ≡ lower password
      → contains
          (map (λ l. lower (strip l)) (filter is_entry (before ++ line ∷ after)))
          (lower password)
        ≡ true
  unfolding contains
  contains-entry [] after line password h e =
      rw (h, e) (ground (arith, text_eq_refl (lower password)))
  contains-entry (l ∷ before) after line password h e =
      ground (arith, contains-entry before after line password h e)

  -- A line of the bundled list that is neither blank nor a comment is refused as a password, in
  -- whatever case the two are written: `screen_password` raises its error, whether or not the
  -- length is one that it allows.
  pub screen_password-bundled :
      (before after : List Text) (line file password : Text)
      → splitlines file ≡ before ++ line ∷ after
      → is_entry line ≡ true
      → lower (strip line) ≡ lower password
      → (e : PolicyError) × (screen_password (is_breached (bundled_blocklist file)) password
          ≡ policy_error e)
        × (min_password_length ≤ length password × length password ≤ max_password_length
            ↔ (e ≡ breached))
  unfolding screen_password is_breached bundled_blocklist
  screen_password-bundled before after line file password split entry same =
      let listed = contains-entry before after line password entry same in
      rw (split, listed) refused
    where
      refused :
          (e : PolicyError) × ((if ltb (length password) min_password_length
              then policy_error too_short
              else if ltb max_password_length (length password)
              then policy_error too_long
              else if true
              then policy_error breached
              else ok password)
            ≡ policy_error e)
          × (min_password_length ≤ length password × length password ≤ max_password_length
              ↔ (e ≡ breached))
      refused = elim (Bool-cases (ltb (length password) min_password_length)) [
        | inl short ↦ rw short (too_short, refl, ground arith)
        | inr enough ↦ elim (Bool-cases (ltb max_password_length (length password))) [
          | inl long ↦ rw (enough, long) (too_long, refl, ground arith)
          | inr fits ↦ rw (enough, fits) (breached, refl, ground arith)
        ]
      ]
