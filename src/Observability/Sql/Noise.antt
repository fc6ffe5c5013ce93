-- ===== src/Observability/Sql/Noise.antt =====
-- What stands before a statement's verb (app/observability/metrics.py).
use scalable_content_platfor.Base.{
  ℕ, ◌≡◌, refl, ap, sym, ◌∙◌, Bool, true, false, ◌&&◌, ◌||◌, [], ◌∷◌, ◌++◌, Bool-cases, inl, inr,
  ◌==◌, ==_iff, arith,
}
use mathlib.Core.Path.{subst}
use mathlib.Core.List.{append_assoc}
use scalable_content_platfor.Text.{Text, codes, text_eq}
use scalable_content_platfor.Text.Words.{contains}
use scalable_content_platfor.Api.Auth.{is_space, lower}
use scalable_content_platfor.Observability.Sql.{
  code, line_comment, block_comment, star, scan, strip_noise, first_word, sql_operations, alias,
  bucket_verb, sql_operation,
}

-- `*/` does not occur, and neither does a line feed.
abbrev pub closes : Text → Bool
closes [] = false
closes (c ∷ []) = false
closes (c ∷ d ∷ s) = c == b'*' && d == b'/' || closes (d ∷ s)

abbrev pub has_newline : Text → Bool
has_newline [] = false
has_newline (c ∷ s) = c == 10 || has_newline s

-- White space, opening brackets, and comments of the two kinds.
pub data Noise : Text → Type 0 where
  none : Noise []
  space : (c : ℕ) (s : Text) → is_space c ≡ true → Noise s → Noise (c ∷ s)
  bracket : (s : Text) → Noise s → Noise (b'(' ∷ s)
  line :
      (body s : Text) → has_newline body ≡ false → Noise s → Noise (b'-' ∷ b'-' ∷ (body ++ 10 ∷ s))
  block :
      (body s : Text)
      → closes body ≡ false
      → Noise s
      → Noise (b'/' ∷ b'*' ∷ (body ++ b'*' ∷ b'/' ∷ s))

scan_line :
    (body s : Text) → has_newline body ≡ false → scan line_comment (body ++ 10 ∷ s) ≡ scan code s
unfolding scan
scan_line [] s h = refl
scan_line (c ∷ body) s h = ground (arith, scan_line body s)

closes-cons : (c : ℕ) (body : Text) → closes (c ∷ body) ≡ false → closes body ≡ false
closes-cons c [] h = refl
closes-cons c (d ∷ body) h = ground arith

-- In the comment, and after a star in it.
scan_in_block :
    (kept body s : Text)
    → (closes body ≡ false → scan (block_comment kept) (body ++ b'*' ∷ b'/' ∷ s) ≡ scan code s)
      × (closes (b'*' ∷ body) ≡ false → scan (star kept) (body ++ b'*' ∷ b'/' ∷ s) ≡ scan code s)
unfolding scan
scan_in_block kept [] s = (λ h. refl, λ h. refl)
scan_in_block kept (c ∷ body) s =
    let (in_comment, after_star) = scan_in_block kept body s in
    let opened = closes-cons c body in
    elim (Bool-cases (c == b'*')) [
      | inl starred ↦
          subst
            (λ d.
              (closes (d ∷ body) ≡ false
                → scan (block_comment kept) (d ∷ (body ++ b'*' ∷ b'/' ∷ s)) ≡ scan code s)
              × (closes (b'*' ∷ d ∷ body) ≡ false
                  → scan (star kept) (d ∷ (body ++ b'*' ∷ b'/' ∷ s)) ≡ scan code s))
            (sym ((==_iff c b'*').0 starred)) (after_star, after_star)
      | inr plain ↦ ground (arith, plain, in_comment, after_star, opened)
    ]

scan-Noise : (n s : Text) → Noise n → scan code (n ++ s) ≡ scan code s
unfolding scan
scan-Noise n s none = refl
scan-Noise n s (space c m h k) = ground (arith, h, scan-Noise m s k)
scan-Noise n s (bracket m k) = scan-Noise m s k
scan-Noise n s (line body m h k) =
    ap (scan line_comment) (append_assoc body (10 ∷ m) s)
    ∙ scan_line body (m ++ s) h
    ∙ scan-Noise m s k
scan-Noise n s (block body m h k) =
    ap (λ t. scan code (b'/' ∷ b'*' ∷ t)) (append_assoc body (b'*' ∷ b'/' ∷ m) s)
    ∙ (scan_in_block (b'/' ∷ b'*' ∷ (body ++ b'*' ∷ b'/' ∷ (m ++ s))) body (m ++ s)).0 h
    ∙ scan-Noise m s k

-- The verb of a statement does not depend on the white space, the brackets and the comments before
-- it, however many there are and in whatever order: the statement is counted as it would be without
-- them.
pub sql_operation-Noise : (n s : Text) → Noise n → sql_operation (n ++ s) ≡ sql_operation s
unfolding sql_operation strip_noise
sql_operation-Noise n s k =
    ap (λ t. elim (first_word t) [ [] ↦ codes "other" | c ∷ word ↦ bucket_verb (lower (c ∷ word)) ])
      (scan-Noise n s k)

bucket_verb-contains : (verb : Text) → contains sql_operations (bucket_verb verb) ≡ true
unfolding bucket_verb contains text_eq
bucket_verb-contains verb = elim (Bool-cases (contains sql_operations (alias verb))) [
  | inl e ↦ rw (e, e) refl
  | inr e ↦ rw e refl
]

by_word :
    (w : Text)
    → contains sql_operations
        (elim w [ [] ↦ codes "other" | c ∷ word ↦ bucket_verb (lower (c ∷ word)) ])
      ≡ true
unfolding contains text_eq
by_word [] = refl
by_word (c ∷ word) = bucket_verb-contains (lower (c ∷ word))

-- A statement, whatever it is, is counted under one of five verbs.
pub sql_operation-contains : (s : Text) → contains sql_operations (sql_operation s) ≡ true
unfolding sql_operation
sql_operation-contains s = by_word (first_word (strip_noise s))
