-- ===== src/Observability/Redact/Censored.antt =====
-- What `redact_secrets` (app/observability/logging.py) hides, and what it leaves.
use scalable_content_platfor.Base.{
  ◌≡◌, ◌⊎◌, inl, inr, refl, ap, sym, ◌∙◌, Bool, true, false, ◌||◌, List, [], ◌∷◌, Option, some,
  Bool-cases, arith,
}
use mathlib.Core.Path.{subst}
use scalable_content_platfor.Text.{Text, text_eq}
use scalable_content_platfor.Text.Equality.{text_eq-eq, text_eq_refl}
use scalable_content_platfor.Observability.Redact.{
  redacted, Value, null, leaf, dict, array, Items, nil, item, Values, is_sensitive, redact_secrets,
  redact_items, redact_value, at_path, at_items,
}

-- Nothing, or the placeholder.
abbrev pub IsHidden : Value → Type 0
IsHidden value = (value ≡ null) ⊎ (value ≡ leaf redacted)

module _ (lower : Text → Text) where
  abbrev pub any_key : List Text → Bool
  any_key [] = false
  any_key (k ∷ path) = is_sensitive lower k || any_key path

  IsHidden-at_path :
      (value found : Value) (path : List Text)
      → at_path path (redact_value lower true value) ≡ some found
      → IsHidden found
  unfolding redact_secrets at_path
  IsHidden-at_path null found [] h = inl (ground arith)
  IsHidden-at_path null found (k ∷ path) h = ground arith
  IsHidden-at_path (leaf t) found [] h = inr (ground arith)
  IsHidden-at_path (leaf t) found (k ∷ path) h = ground arith
  IsHidden-at_path (dict t) found [] h = inr (ground arith)
  IsHidden-at_path (dict t) found (k ∷ path) h = ground arith
  IsHidden-at_path (array t) found [] h = inr (ground arith)
  IsHidden-at_path (array t) found (k ∷ path) h = ground arith

  not_sensitive : (value : Value) → redact_value lower false value ≡ redact_secrets lower value
  unfolding redact_secrets
  not_sensitive null = refl
  not_sensitive (leaf t) = refl
  not_sensitive (dict items) = refl
  not_sensitive (array values) = refl

  -- A key that is not sensitive leaves the rest of the path to be.
  later :
      (k key : Text) (path : List Text)
      → k ≡ key
      → is_sensitive lower key ≡ false
      → (is_sensitive lower k || any_key path) ≡ true
      → any_key path ≡ true
  later k key path e plain s =
      let plain' : is_sensitive lower k ≡ false = ap (is_sensitive lower) e ∙ plain in
      ground (arith, plain', s)

  -- The case distinction of `at_items`.
  chosen : List Text → Value → Items → Text → Bool → Option Value
  chosen path value items k b = elim b [ true ↦ at_path path value | false ↦ at_items k path items ]

  mutual
    unfolding redact_secrets at_path chosen

    redacted-at_path :
        (event found : Value) (path : List Text)
        → any_key path ≡ true
        → at_path path (redact_secrets lower event) ≡ some found
        → IsHidden found
    redacted-at_path event found [] s h = ground arith
    redacted-at_path null found (k ∷ path) s h = ground arith
    redacted-at_path (leaf t) found (k ∷ path) s h = ground arith
    redacted-at_path (array t) found (k ∷ path) s h = ground arith
    redacted-at_path (dict items) found (k ∷ path) s h = redacted-at_items items found k path s h

    redacted-at_items :
        (items : Items) (found : Value) (k : Text) (path : List Text)
        → (is_sensitive lower k || any_key path) ≡ true
        → at_items k path (redact_items lower items) ≡ some found
        → IsHidden found
    redacted-at_items nil found k path s h = ground arith
    redacted-at_items (item key value items) found k path s h = elim (Bool-cases (text_eq k key)) [
      | inl same ↦
          let here : at_path path (redact_value lower (is_sensitive lower key) value) ≡ some found =
            ap
              (chosen path (redact_value lower (is_sensitive lower key) value)
                (redact_items lower items) k)
              (sym same)
            ∙ h in
          elim (Bool-cases (is_sensitive lower key)) [
            | inl sensitive ↦
                IsHidden-at_path value found path (
                  subst (λ b. at_path path (redact_value lower b value) ≡ some found) sensitive
                    here)
            | inr plain ↦
                redacted-at_path value found path (later k key path (text_eq-eq k key same) plain s)
                  (subst (λ v. at_path path v ≡ some found) (not_sensitive value)
                    (subst (λ b. at_path path (redact_value lower b value) ≡ some found) plain
                      here))
          ]
      | inr differ ↦ redacted-at_items items found k path s (
          ap
            (chosen path (redact_value lower (is_sensitive lower key) value)
              (redact_items lower items) k)
            (sym differ)
          ∙ h)
    ]

  -- No value stands in a censored event at a path of keys one of which is sensitive, at whatever
  -- depth of dictionaries, but the placeholder and None.
  pub redact_secrets-IsHidden :
      (event found : Value) (path : List Text)
      → any_key path ≡ true
      → at_path path (redact_secrets lower event) ≡ some found
      → IsHidden found
  redact_secrets-IsHidden event found path s h = redacted-at_path event found path s h

  -- A list is let through as it is, whatever dictionaries and sensitive keys it holds.
  pub redact_secrets-array :
      (key : Text) (values : Values)
      → is_sensitive lower key ≡ false
      → at_path (key ∷ []) (redact_secrets lower (dict (item key (array values) nil)))
        ≡ some (array values)
  unfolding redact_secrets at_path
  redact_secrets-array key values h = ground (arith, h, text_eq_refl key)
