-- ===== src/Api/Cursor/Malformed.antt =====
-- What `decode_cursor` of app/api/pagination.py answers to any text.
use scalable_content_platfor.Base.{
  ℕ, ◌^◌, ◌≤◌, ◌<◌, ◌≡◌, ◌⊎◌, inl, inr, refl, ◌∙◌, none, arith, length, Option-cases,
}
use scalable_content_platfor.Base.Int.{pos}
use scalable_content_platfor.Text.{Text, codes, decimal, partition}
use scalable_content_platfor.Text.Decimal.{parse-decimal, isdigit-decimal, length-decimal}
use scalable_content_platfor.Text.Base64.{urlsafe_b64decode, repad}
use scalable_content_platfor.Effects.{Outcome, ok, raise, domain, invalid_cursor}
use scalable_content_platfor.Cache.Keys.{Datetime}
use scalable_content_platfor.Api.{error_response}
use scalable_content_platfor.Api.Errors.{handle}
use scalable_content_platfor.Api.Cursor.{
  max_datetime, max_str_digits, decimal_ℤ, encode_cursor, decode_parts, decode_bytes, decode_cursor,
  overflow_error,
}
use scalable_content_platfor.Api.Cursor.RoundTrip.{decode_cursor-encode_lem}

-- A position that a datetime and an id can hold, the refusal that the API documents, or an overflow.
abbrev pub IsDecoded : Outcome (Datetime × ℕ) → Type 0
IsDecoded (ok (created_at, article_id)) = (created_at ≤ max_datetime) × (1 ≤ article_id)
IsDecoded (raise e) = (e ≡ domain invalid_cursor) ⊎ (e ≡ overflow_error)

IsDecoded-decode_parts : (m i : Text) → IsDecoded (decode_parts m i)
unfolding decode_parts
IsDecoded-decode_parts m i = ground arith

IsDecoded-decode_bytes : (raw : Text) → IsDecoded (decode_bytes raw)
unfolding decode_bytes
IsDecoded-decode_bytes raw = elim (Option-cases (partition b':' raw)) [
  | inl e ↦ ground arith
  | inr ((m, i), e) ↦ ground (arith, IsDecoded-decode_parts m i)
]

-- Whatever text a client sends as a cursor, the decoder gives a position with a datetime that Python
-- can represent and a positive id, or refuses it as an invalid cursor, or overflows.
pub decode_cursor-IsDecoded : (cursor : Text) → IsDecoded (decode_cursor cursor)
unfolding decode_cursor
decode_cursor-IsDecoded cursor = elim (Option-cases (urlsafe_b64decode (repad cursor))) [
  | inl e ↦ ground arith
  | inr (raw, e) ↦ ground (arith, IsDecoded-decode_bytes raw)
]

-- A well-formed cursor whose count of microseconds is behind the last datetime, in no more digits
-- than `int` reads, is not refused as invalid: it raises an OverflowError, which becomes the response
-- 500 of an internal error.
pub decode_cursor_overflow :
    (micros article_id : ℕ)
    → max_datetime < micros
    → length (decimal micros) ≤ max_str_digits
    → 1 ≤ article_id
    → article_id < 2 ^ 64
    → (decode_cursor (encode_cursor (pos micros) article_id) ≡ raise overflow_error)
      × (handle overflow_error ≡ ok (error_response 500 (codes "INTERNAL_ERROR") none))
unfolding decode_parts decimal_ℤ handle
decode_cursor_overflow micros i late short positive small = (
  decode_cursor-encode_lem (pos micros) i
      ∙ ground (
        arith,
        isdigit-decimal micros,
        isdigit-decimal i,
        parse-decimal micros,
        parse-decimal i,
        length-decimal 19 i (omega (arith, small)),
      ),
  refl,
)
