-- ===== src/Api/Cursor/RoundTrip.antt =====
-- A cursor that `encode_cursor` of app/api/pagination.py made, read by `decode_cursor`.
use scalable_content_platfor.Base.{
  ℕ, suc, ◌+◌, ◌*◌, ◌/◌, ◌%◌, ◌^◌, ◌≤◌, ◌<◌, ◌≡◌, refl, ap, ◌∙◌, true, List, [], ◌∷◌, ◌++◌, some,
  All, ltb, arith,
}
use mathlib.Core.Path.{subst}
use mathlib.Core.List.{append-nil}
use scalable_content_platfor.Base.Int.{ℤ, pos, negsuc, ◌≤ℤ◌}
use scalable_content_platfor.Text.{isdigit, Text, all_digits, decimal, partition}
use scalable_content_platfor.Text.Decimal.{
  parse-decimal, all_digits-decimal, isdigit-decimal, length-decimal,
}
use scalable_content_platfor.Text.Partition.{partition-decimal}
use scalable_content_platfor.Text.Base64.{
  letter, urlsafe_b64encode, urlsafe_b64decode, rstrip_pads, repad, keep_unless_pad,
}
use scalable_content_platfor.Text.Base64.RoundTrip.{
  IsByte, urlsafe_b64decode-encode, repad-rstrip_pads,
}
use scalable_content_platfor.Effects.{Outcome, ok, raise, domain, invalid_cursor}
use scalable_content_platfor.Cache.Keys.{Datetime, epoch_micros}
use scalable_content_platfor.Cache.Keys.Windows.{epoch_micros_lem}
use scalable_content_platfor.Api.Cursor.{
  is_ascii, max_datetime, decimal_ℤ, cursor_text, encode_cursor, decode_parts, decode_bytes,
  decode_cursor,
}

is_ascii-digits :
    (s rest : Text) → all_digits s ≡ true → is_ascii rest ≡ true → is_ascii (s ++ rest) ≡ true
is_ascii-digits [] rest d h = h
is_ascii-digits (c ∷ s) rest d h = ground (arith, is_ascii-digits s rest)

is_ascii-decimal :
    (n : ℕ) (rest : Text) → is_ascii rest ≡ true → is_ascii (decimal n ++ rest) ≡ true
is_ascii-decimal n rest h = is_ascii-digits (decimal n) rest (all_digits-decimal n) h

IsByte-is_ascii : (s : Text) → is_ascii s ≡ true → All IsByte s
IsByte-is_ascii [] h = tt
IsByte-is_ascii (c ∷ s) h = ground (arith, IsByte-is_ascii s)

is_ascii-letter : (v : ℕ) → v < 64 → ltb (letter v) 128 ≡ true
unfolding letter
is_ascii-letter v h = ground arith

is_ascii-encode : (bytes : List ℕ) → All IsByte bytes → is_ascii (urlsafe_b64encode bytes) ≡ true
unfolding urlsafe_b64encode
is_ascii-encode [] h = refl
is_ascii-encode (a ∷ []) h = ground (arith, is_ascii-letter (a / 4), is_ascii-letter (a % 4 * 16))
is_ascii-encode (a ∷ b ∷ []) h = ground (
  arith,
  is_ascii-letter (a / 4),
  is_ascii-letter (a % 4 * 16 + b / 16),
  is_ascii-letter (b % 16 * 4),
)
is_ascii-encode (a ∷ b ∷ c ∷ rest) h = ground (
  arith,
  is_ascii-letter (a / 4),
  is_ascii-letter (a % 4 * 16 + b / 16),
  is_ascii-letter (b % 16 * 4 + c / 64),
  is_ascii-letter (c % 64),
  is_ascii-encode rest,
)

is_ascii-keep :
    (c : ℕ) (s : Text)
    → ltb c 128 ≡ true
    → is_ascii s ≡ true
    → is_ascii (keep_unless_pad c s) ≡ true
is_ascii-keep c [] h k = ground arith
is_ascii-keep c (d ∷ s) h k = ground arith

is_ascii-rstrip_pads : (s : Text) → is_ascii s ≡ true → is_ascii (rstrip_pads s) ≡ true
unfolding rstrip_pads
is_ascii-rstrip_pads [] h = refl
is_ascii-rstrip_pads (c ∷ s) h =
    ground (arith, is_ascii-keep c (rstrip_pads s), is_ascii-rstrip_pads s)

is_ascii-decimal_ℤ :
    (t : ℤ) (rest : Text) → is_ascii rest ≡ true → is_ascii (decimal_ℤ t ++ rest) ≡ true
unfolding decimal_ℤ
is_ascii-decimal_ℤ (pos t) rest h = is_ascii-decimal t rest h
is_ascii-decimal_ℤ (negsuc t) rest h = is_ascii-decimal (suc t) rest h

is_ascii-cursor_text : (t : ℤ) (i : ℕ) → is_ascii (cursor_text t i) ≡ true
unfolding cursor_text
is_ascii-cursor_text t i =
    let id_ascii = is_ascii-digits (decimal i) [] (all_digits-decimal i) refl in
    is_ascii-decimal_ℤ (epoch_micros t) (b':' ∷ decimal i)
      (subst (λ s. is_ascii s ≡ true) (append-nil (decimal i)) id_ascii)

partition-decimal_ℤ :
    (t : ℤ) (rest : Text) → partition b':' (decimal_ℤ t ++ b':' ∷ rest) ≡ some (decimal_ℤ t, rest)
unfolding decimal_ℤ partition
partition-decimal_ℤ (pos t) rest = partition-decimal b':' t rest refl
partition-decimal_ℤ (negsuc t) rest = rw (partition-decimal b':' (suc t) rest refl) refl

-- What the decoder makes of the bytes of a cursor.
pub decode_cursor-encode_lem :
    (t : ℤ) (i : ℕ) → decode_cursor (encode_cursor t i) ≡ decode_parts (decimal_ℤ t) (decimal i)
unfolding decode_cursor encode_cursor decode_bytes
decode_cursor-encode_lem t i =
    let bytes = cursor_text t i in
    let ascii = is_ascii-cursor_text t i in
    let cursor_ascii =
      is_ascii-rstrip_pads (urlsafe_b64encode bytes)
        (is_ascii-encode bytes (IsByte-is_ascii bytes ascii)) in
    let decoded : urlsafe_b64decode (repad (rstrip_pads (urlsafe_b64encode bytes))) ≡ some bytes =
      ap urlsafe_b64decode (repad-rstrip_pads bytes)
      ∙ unfold urlsafe_b64decode in urlsafe_b64decode-encode bytes (IsByte-is_ascii bytes ascii) in
    let parted : partition b':' bytes ≡ some (decimal_ℤ t, decimal i) =
      unfold cursor_text in
      (ap (λ n. partition b':' (decimal_ℤ n ++ b':' ∷ decimal i)) (epoch_micros_lem t)
        ∙ partition-decimal_ℤ t (decimal i)) in
    rw (cursor_ascii, decoded, ascii, parted) refl

-- What a cursor made of a datetime and an id reads back as: the position itself from 1970 on, and
-- before 1970 no position, but the refusal of an invalid cursor.
abbrev pub read_back : ℤ → ℕ → Outcome (Datetime × ℕ)
read_back (pos micros) article_id = ok (micros, article_id)
read_back (negsuc n) article_id = raise (domain invalid_cursor)

-- For every datetime that Python can represent and every id of the table, which is a positive 64-bit
-- number, a cursor reads back as the position that it was made from if the datetime is of 1970 or
-- later. If it is earlier, the cursor has a minus sign, and its own decoder refuses it as invalid.
pub decode_cursor-encode :
    (created_at : ℤ) (article_id : ℕ)
    → created_at ≤ℤ pos max_datetime
    → 1 ≤ article_id
    → article_id < 2 ^ 64
    → decode_cursor (encode_cursor created_at article_id) ≡ read_back created_at article_id
unfolding decode_parts decimal_ℤ isdigit
decode_cursor-encode (pos t) i h positive small =
    decode_cursor-encode_lem (pos t) i
    ∙ ground (
      arith,
      isdigit-decimal t,
      isdigit-decimal i,
      parse-decimal t,
      parse-decimal i,
      length-decimal 17 t (omega (arith, h)),
      length-decimal 19 i (omega (arith, small)),
    )
decode_cursor-encode (negsuc t) i h positive small = decode_cursor-encode_lem (negsuc t) i ∙ refl
