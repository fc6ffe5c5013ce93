-- ===== src/Text/Base64.antt =====
-- Python's `base64.urlsafe_b64encode` and `base64.urlsafe_b64decode`, as `encode_cursor` and
-- `decode_cursor` of app/api/pagination.py use them. A byte is a number below 256.
pub mod RoundTrip
use scalable_content_platfor.Base.{
  ℕ, zero, suc, length, ◌+◌, ◌-◌, ◌*◌, ◌/◌, ◌%◌, Bool, not, ◌&&◌, List, [], ◌∷◌, ◌++◌, Option, none,
  some, ltb, leb, ◌==◌, if◌then◌else◌,
}
use scalable_content_platfor.Text.{Text}

-- The alphabet, with `-` and `_` in place of `+` and `/`.
unfoldable pub letter : ℕ → ℕ
letter v =
    if ltb v 26
    then b'A' + v
    else if ltb v 52
    then b'a' + (v - 26)
    else if ltb v 62
    then b'0' + (v - 52)
    else if v == 62
    then b'-'
    else b'_'

-- The table of the decoder, behind the translation of `-` and `_`, which leaves `+` and `/` valid.
unfoldable pub letter_value : ℕ → Option ℕ
letter_value c =
    if leb b'A' c && leb c b'Z'
    then some (c - b'A')
    else if leb b'a' c && leb c b'z'
    then some (c - b'a' + 26)
    else if leb b'0' c && leb c b'9'
    then some (c - b'0' + 52)
    else if c == b'+'
    then some 62
    else if c == b'-'
    then some 62
    else if c == b'/'
    then some 63
    else if c == b'_'
    then some 63
    else none

-- Three bytes are four letters; the last group is padded.
unfoldable pub urlsafe_b64encode : List ℕ → Text
unfolding letter
urlsafe_b64encode [] = []
urlsafe_b64encode (a ∷ []) = letter (a / 4) ∷ letter (a % 4 * 16) ∷ b'=' ∷ b'=' ∷ []
urlsafe_b64encode (a ∷ b ∷ []) =
    letter (a / 4) ∷ letter (a % 4 * 16 + b / 16) ∷ letter (b % 16 * 4) ∷ b'=' ∷ []
urlsafe_b64encode (a ∷ b ∷ c ∷ rest) =
    letter (a / 4)
    ∷ letter (a % 4 * 16 + b / 16)
    ∷ letter (b % 16 * 4 + c / 64)
    ∷ letter (c % 64)
    ∷ urlsafe_b64encode rest

-- What one character does: the loop ends, or goes on from a state, with a byte or without one. The
-- state is the place in the group, the number of pads behind the last letter, and the bits that
-- are left of it.
pub data Round : Type 0 where
  done : Round
  next : ℕ → ℕ → ℕ → Option ℕ → Round

abbrev pub read_letter : ℕ → ℕ → ℕ → Round
read_letter quad_pos leftchar v =
    if quad_pos == 0
    then next 1 0 v none
    else if quad_pos == 1
    then next 2 0 (v % 16) (some (leftchar * 4 + v / 16))
    else if quad_pos == 2
    then next 3 0 (v % 4) (some (leftchar * 16 + v / 4))
    else next 0 0 0 (some (leftchar * 64 + v))

abbrev pub read_pad : ℕ → ℕ → ℕ → Round
read_pad quad_pos pads leftchar =
    if not (leb 2 quad_pos)
    then next quad_pos pads leftchar none
    else if leb 4 (quad_pos + (pads + 1))
    then done
    else next quad_pos (pads + 1) leftchar none

unfoldable pub read_char : ℕ → ℕ → ℕ → ℕ → Round
unfolding letter_value
read_char quad_pos pads leftchar c =
    if c == b'=' then read_pad quad_pos pads leftchar else elim (letter_value c) [
      | none ↦ next quad_pos pads leftchar none
      | some v ↦ read_letter quad_pos leftchar v
    ]

abbrev pub put_byte : Option ℕ → Option (List ℕ) → Option (List ℕ)
put_byte none bytes = bytes
put_byte (some byte) none = none
put_byte (some byte) (some bytes) = some (byte ∷ bytes)

-- `binascii.a2b_base64`, which is not strict: it skips what is not in the alphabet, and stops at a
-- padding that completes a group. `none` is `binascii.Error`.
unfoldable pub a2b_base64 : ℕ → ℕ → ℕ → Text → Option (List ℕ)
unfolding read_char
a2b_base64 quad_pos pads leftchar [] = if quad_pos == 0 then some [] else none
a2b_base64 quad_pos pads leftchar (c ∷ s) = elim (read_char quad_pos pads leftchar c) [
  | done ↦ some []
  | next q p l byte ↦ put_byte byte (a2b_base64 q p l s)
]

unfoldable pub urlsafe_b64decode : Text → Option (List ℕ)
unfolding a2b_base64
urlsafe_b64decode s = a2b_base64 0 0 0 s

-- `text.rstrip("=")`
abbrev pub keep_unless_pad : ℕ → Text → Text
keep_unless_pad c [] = if c == b'=' then [] else c ∷ []
keep_unless_pad c (d ∷ s) = c ∷ d ∷ s

unfoldable pub rstrip_pads : Text → Text
rstrip_pads [] = []
rstrip_pads (c ∷ s) = keep_unless_pad c (rstrip_pads s)

-- `b"=" * count`
abbrev pub pads_of : ℕ → Text
pads_of zero = []
pads_of (suc n) = b'=' ∷ pads_of n

-- `text + b"=" * (-len(text) % 4)`
unfoldable pub repad : Text → Text
repad s = s ++ pads_of ((4 - length s % 4) % 4)
