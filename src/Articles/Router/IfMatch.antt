-- ===== src/Articles/Router/IfMatch.antt =====
-- The If-Match precondition (`_parse_if_match` of app/api/routers/articles.py).
use scalable_content_platfor.Base.{
  ℕ, ◌≡◌, refl, ap, ◌∙◌, true, false, [], ◌∷◌, ◌++◌, All, Option, some, arith,
}
use scalable_content_platfor.Text.{Text}
use scalable_content_platfor.Effects.{ok}
use scalable_content_platfor.Cache.Keys.{Datetime}
use scalable_content_platfor.Api.Auth.{is_space, lstrip, rstrip, strip}
use scalable_content_platfor.Articles.Router.{
  is_quote, lstrip_quotes, rstrip_quotes, parse_if_match,
}

abbrev pub AllSpace : Text → Type 0
AllSpace s = All (λ c. is_space c ≡ true) s

-- No white space, and no quote.
abbrev pub IsPlain : Text → Type 0
IsPlain s = All (λ c. (is_space c ≡ false) × (is_quote c ≡ false)) s

lstrip-spaces : (before s : Text) → AllSpace before → lstrip (before ++ s) ≡ lstrip s
lstrip-spaces [] s h = refl
lstrip-spaces (c ∷ before) s h = rw h.0 (lstrip-spaces before s h.1)

rstrip-spaces : (after : Text) → AllSpace after → rstrip after ≡ []
rstrip-spaces [] h = refl
rstrip-spaces (c ∷ after) h = ground (arith, h.0, rstrip-spaces after h.1)

-- What ends in a character that is none keeps all that stands before it.
rstrip-end :
    (s : Text) (c : ℕ) (after : Text)
    → is_space c ≡ false
    → AllSpace after
    → rstrip (s ++ c ∷ after) ≡ s ++ c ∷ []
rstrip-end [] c after h spaces = rw (rstrip-spaces after spaces) (ground (arith, h))
rstrip-end (d ∷ []) c after h spaces = rw (rstrip-end [] c after h spaces) refl
rstrip-end (d ∷ e ∷ s) c after h spaces = rw (rstrip-end (e ∷ s) c after h spaces) refl

rstrip_quotes-plain : (s : Text) → IsPlain s → rstrip_quotes (s ++ 34 ∷ []) ≡ s
rstrip_quotes-plain [] h = refl
rstrip_quotes-plain (c ∷ []) h = ground (arith, h.0)
rstrip_quotes-plain (c ∷ d ∷ s) h = rw (rstrip_quotes-plain (d ∷ s) h.1) refl

quotes-plain : (s : Text) → IsPlain s → rstrip_quotes (lstrip_quotes (34 ∷ (s ++ (34 ∷ [])))) ≡ s
quotes-plain [] h = refl
quotes-plain (c ∷ s) h = rw h.0.1 (rstrip_quotes-plain (c ∷ s) h)

module _ (fromisoformat : Text → Option Datetime) (isoformat : Datetime → Text) where
  -- The text of a datetime reads back as that datetime, and has neither spaces nor quotes.
  abbrev pub IsIso : Type 0
  IsIso = (t : Datetime) → (fromisoformat (isoformat t) ≡ some t) × IsPlain (isoformat t)

  -- An If-Match header that quotes the text of a datetime, with any white space around the quotes,
  -- is read as that datetime, given what `fromisoformat` does with such a text.
  pub parse_if_match-quoted :
      (t : Datetime) (before after : Text)
      → IsIso
      → AllSpace before
      → AllSpace after
      → parse_if_match fromisoformat (some (before ++ (34 ∷ (isoformat t ++ (34 ∷ after))))) ≡ ok t
  unfolding parse_if_match
  parse_if_match-quoted t before after iso spaces spaces' =
      let stripped : strip (before ++ (34 ∷ (isoformat t ++ (34 ∷ after))))
          ≡ 34 ∷ (isoformat t ++ (34 ∷ [])) =
        ap rstrip (lstrip-spaces before (34 ∷ (isoformat t ++ (34 ∷ after))) spaces)
        ∙ rstrip-end (34 ∷ isoformat t) 34 after refl spaces' in
      rw (parse_if_match, stripped, quotes-plain (isoformat t) (iso t).1, (iso t).0) refl
