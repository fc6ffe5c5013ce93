-- ===== src/Text/Base64/RoundTrip.antt =====
-- Bytes that were encoded, stripped of their padding, padded again and decoded.
use scalable_content_platfor.Base.{
  ℕ, ◌+◌, ◌*◌, ◌/◌, ◌%◌, ◌<◌, ◌≡◌, refl, ap, ◌∙◌, false, List, [], ◌∷◌, ◌++◌, some, All, arith,
  ◌==◌,
}
use scalable_content_platfor.Text.{Text}
use scalable_content_platfor.Text.Base64.{
  letter, letter_value, urlsafe_b64encode, read_char, a2b_base64, put_byte, rstrip_pads,
  keep_unless_pad, pads_of, repad,
}

letter_value-letter : (v : ℕ) → v < 64 → letter_value (letter v) ≡ some v
unfolding letter letter_value
letter_value-letter v h = ground arith

letter_no_pad : (v : ℕ) → (letter v == b'=') ≡ false
unfolding letter
letter_no_pad v = ground arith

-- One letter of an encoding, at each place of a group.
module _ (p l v : ℕ) (s : Text) (small : v < 64) where
  first_letter : a2b_base64 0 p l (letter v ∷ s) ≡ a2b_base64 1 0 v s
  unfolding a2b_base64 read_char
  first_letter = ground (arith, letter_value-letter v small, letter_no_pad v)

  second_letter :
      a2b_base64 1 p l (letter v ∷ s) ≡ put_byte (some (l * 4 + v / 16)) (a2b_base64 2 0 (v % 16) s)
  unfolding a2b_base64 read_char
  second_letter = ground (arith, letter_value-letter v small, letter_no_pad v)

  third_letter :
      a2b_base64 2 p l (letter v ∷ s) ≡ put_byte (some (l * 16 + v / 4)) (a2b_base64 3 0 (v % 4) s)
  unfolding a2b_base64 read_char
  third_letter = ground (arith, letter_value-letter v small, letter_no_pad v)

  fourth_letter :
      a2b_base64 3 p l (letter v ∷ s) ≡ put_byte (some (l * 64 + v)) (a2b_base64 0 0 0 s)
  unfolding a2b_base64 read_char
  fourth_letter = ground (arith, letter_value-letter v small, letter_no_pad v)

two_pads : (l : ℕ) (s : Text) → a2b_base64 2 0 l (b'=' ∷ b'=' ∷ s) ≡ some []
unfolding a2b_base64 read_char
two_pads l s = refl

one_pad : (l : ℕ) (s : Text) → a2b_base64 3 0 l (b'=' ∷ s) ≡ some []
unfolding a2b_base64 read_char
one_pad l s = refl

abbrev pub IsByte : ℕ → Type 0
IsByte b = b < 256

pub urlsafe_b64decode-encode :
    (bytes : List ℕ) → All IsByte bytes → a2b_base64 0 0 0 (urlsafe_b64encode bytes) ≡ some bytes
unfolding urlsafe_b64encode
urlsafe_b64decode-encode [] h = unfold a2b_base64 in refl
urlsafe_b64decode-encode (a ∷ []) h = ground (
  arith,
  first_letter 0 0 (a / 4) (letter (a % 4 * 16) ∷ b'=' ∷ b'=' ∷ []),
  second_letter 0 (a / 4) (a % 4 * 16) (b'=' ∷ b'=' ∷ []),
  two_pads (a % 4 * 16 % 16) [],
)
urlsafe_b64decode-encode (a ∷ b ∷ []) h =
    let s = letter (b % 16 * 4) ∷ b'=' ∷ [] in
    ground (
      arith,
      first_letter 0 0 (a / 4) (letter (a % 4 * 16 + b / 16) ∷ s),
      second_letter 0 (a / 4) (a % 4 * 16 + b / 16) s,
      third_letter 0 ((a % 4 * 16 + b / 16) % 16) (b % 16 * 4) (b'=' ∷ []),
      one_pad (b % 16 * 4 % 4) [],
    )
urlsafe_b64decode-encode (a ∷ b ∷ c ∷ rest) h =
    let s = urlsafe_b64encode rest in
    let v₂ = a % 4 * 16 + b / 16 in
    let v₃ = b % 16 * 4 + c / 64 in
    let v₄ = c % 64 in
    ground (
      arith,
      first_letter 0 0 (a / 4) (letter v₂ ∷ letter v₃ ∷ letter v₄ ∷ s),
      second_letter 0 (a / 4) v₂ (letter v₃ ∷ letter v₄ ∷ s),
      third_letter 0 (v₂ % 16) v₃ (letter v₄ ∷ s),
      fourth_letter 0 (v₃ % 4) v₄ s,
      urlsafe_b64decode-encode rest h.1.1.1,
    )

keep_letter : (d : ℕ) (t : Text) → (d == b'=') ≡ false → keep_unless_pad d t ≡ d ∷ t
keep_letter d [] h = rw h refl
keep_letter d (x ∷ t) h = refl

module _ (a b c d : ℕ) (s : Text) where
  rstrip_pads-group :
      (d == b'=') ≡ false → rstrip_pads (a ∷ b ∷ c ∷ d ∷ s) ≡ a ∷ b ∷ c ∷ d ∷ rstrip_pads s
  unfolding rstrip_pads
  rstrip_pads-group h =
      ap (λ t. keep_unless_pad a (keep_unless_pad b (keep_unless_pad c t)))
        (keep_letter d (rstrip_pads s) h)

  repad-group : repad (a ∷ b ∷ c ∷ d ∷ s) ≡ a ∷ b ∷ c ∷ d ∷ repad s
  unfolding repad
  repad-group = ap (λ n. a ∷ b ∷ c ∷ d ∷ s ++ pads_of n) (omega arith)

-- Without the padding, an encoding ends in a letter; padded again, it is the encoding.
pub repad-rstrip_pads :
    (bytes : List ℕ) → repad (rstrip_pads (urlsafe_b64encode bytes)) ≡ urlsafe_b64encode bytes
unfolding urlsafe_b64encode
repad-rstrip_pads [] = unfold repad rstrip_pads in refl
repad-rstrip_pads (a ∷ []) = unfold repad rstrip_pads in ground (arith, letter_no_pad (a % 4 * 16))
repad-rstrip_pads (a ∷ b ∷ []) =
    unfold repad rstrip_pads in ground (arith, letter_no_pad (b % 16 * 4))
repad-rstrip_pads (a ∷ b ∷ c ∷ rest) =
    let v₁ = letter (a / 4) in
    let v₂ = letter (a % 4 * 16 + b / 16) in
    let v₃ = letter (b % 16 * 4 + c / 64) in
    let v₄ = letter (c % 64) in
    let s = urlsafe_b64encode rest in
    ap repad (rstrip_pads-group v₁ v₂ v₃ v₄ s (letter_no_pad (c % 64)))
    ∙ repad-group v₁ v₂ v₃ v₄ (rstrip_pads s)
    ∙ ap (λ t. v₁ ∷ v₂ ∷ v₃ ∷ v₄ ∷ t) (repad-rstrip_pads rest)
