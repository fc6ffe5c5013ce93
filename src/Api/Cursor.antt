-- ===== src/Api/Cursor.antt =====
-- The opaque cursor of article lists (app/api/pagination.py). A text is its code points, and bytes
-- are numbers below 256. A cursor is made of a datetime of either side of 1970; what is read from one
-- is a count of microseconds after it.
pub mod RoundTrip
pub mod Malformed
use scalable_content_platfor.Base.{
  ℕ, suc, ◌+◌, Bool, true, false, not, ◌&&◌, ◌||◌, List, [], ◌∷◌, ◌++◌, Option, none, some, ltb,
  leb, ◌==◌, length, if◌then◌else◌,
}
use scalable_content_platfor.Base.Int.{ℤ, pos, negsuc}
use scalable_content_platfor.Text.{Text, decimal, isdigit, parse, partition}
use scalable_content_platfor.Text.Base64.{urlsafe_b64encode, urlsafe_b64decode, rstrip_pads, repad}
use scalable_content_platfor.Effects.{Exception, domain, invalid_cursor, other, Outcome, ok, raise}
use scalable_content_platfor.Cache.Keys.{Datetime, epoch_micros}

-- Python's OverflowError, which is no ValueError.
abbrev pub overflow_error : Exception
overflow_error = other 2

-- `datetime.max`, from 1970 on.
abbrev pub max_datetime : Datetime
max_datetime = 253402300799999999

-- `text.encode("ascii")` and `bytes.decode("ascii")` do not raise.
abbrev pub is_ascii : Text → Bool
is_ascii [] = true
is_ascii (c ∷ s) = ltb c 128 && is_ascii s

-- `f"{micros}"`
unfoldable pub decimal_ℤ : ℤ → Text
decimal_ℤ (pos n) = decimal n
decimal_ℤ (negsuc n) = b'-' ∷ decimal (suc n)

unfoldable pub cursor_text : ℤ → ℕ → Text
unfolding epoch_micros decimal_ℤ
cursor_text created_at article_id = decimal_ℤ (epoch_micros created_at) ++ b':' ∷ decimal article_id

-- The datetime is its distance from 1970 in microseconds, of either sign.
unfoldable pub encode_cursor : ℤ → ℕ → Text
unfolding cursor_text
encode_cursor created_at article_id =
    rstrip_pads (urlsafe_b64encode (cursor_text created_at article_id))

abbrev invalid {ℓ} : {A : Type ℓ} → Outcome A
invalid = raise (domain invalid_cursor)

-- `int` refuses a text of more digits than `sys.int_info.default_max_str_digits`.
abbrev pub max_str_digits : ℕ
max_str_digits = 4300

-- `_EPOCH + timedelta(microseconds=micros)`
abbrev pub datetime_of : ℕ → ℕ → Outcome (Datetime × ℕ)
datetime_of micros article_id =
    if leb micros max_datetime then ok (micros, article_id) else raise overflow_error

-- What stands between the separator's two sides and the result.
unfoldable pub decode_parts : Text → Text → Outcome (Datetime × ℕ)
decode_parts micros_part id_part =
    if not (isdigit micros_part && isdigit id_part)
    then invalid
    else if ltb max_str_digits (length micros_part) || ltb max_str_digits (length id_part)
    then invalid
    else if parse id_part == 0
    then invalid
    else datetime_of (parse micros_part) (parse id_part)

-- The decoded bytes.
unfoldable pub decode_bytes : Text → Outcome (Datetime × ℕ)
unfolding decode_parts
decode_bytes raw =
    if is_ascii raw
    then elim (partition b':' raw) [
      | none ↦ invalid
      | some (micros_part, id_part) ↦ decode_parts micros_part id_part
    ]
    else invalid

unfoldable pub decode_cursor : Text → Outcome (Datetime × ℕ)
unfolding decode_bytes
decode_cursor cursor =
    if is_ascii cursor
    then elim (urlsafe_b64decode (repad cursor)) [ none ↦ invalid | some raw ↦ decode_bytes raw ]
    else invalid
