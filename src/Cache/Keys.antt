-- ===== src/Cache/Keys.antt =====
-- Cache key builders and the jitter of the times to live (app/cache/keys.py). The digest of
-- `filter_hash` is hashlib's, and a parameter. A time of a row, or of a decoded cursor, is a
-- count of microseconds after 1970; `epoch_micros` takes a datetime of either side of it.
pub mod Windows
pub mod Ttl
mod Examples
use scalable_content_platfor.Base.{
  ℕ, suc, ◌+◌, ◌-◌, ◌*◌, ◌/◌, ◌%◌, ◌≡◌, Bool, ◌&&◌, List, [], ◌∷◌, ◌++◌, Option, none, some, max,
  ltb, leb, ◌==◌, if◌then◌else◌,
}
use scalable_content_platfor.Base.Int.{ℤ, pos, negsuc, pos_part, neg_part, sub_ℕ, leb_ℤ}
use scalable_content_platfor.Text.{Text, codes, decimal}

abbrev pub Datetime : Type 0
Datetime = ℕ

unfoldable pub article_key : ℕ → Text
article_key article_id = codes "article:" ++ decimal article_id

unfoldable pub generation_key : Text
generation_key = codes "articles:list:gen"

unfoldable pub author_generation_key : ℕ → Text
author_generation_key author_id = codes "articles:list:gen:author:" ++ decimal author_id

unfoldable pub lock_key : Text → Text
lock_key key = codes "lock:" ++ key

-- What the digest of a page window is taken of.
unfoldable pub filter_material : ℕ → Option (ℕ × ℕ) → Text
filter_material limit none = codes "l" ++ decimal limit ++ codes ":none"
filter_material limit (some (micros, article_id)) =
    codes "l" ++ (decimal limit ++ b':' ∷ (decimal micros ++ b':' ∷ decimal article_id))

-- `sha256(material).hexdigest()[:16]` is the argument `sha256_16`.
unfoldable pub list_key : (Text → Text) → ℕ → Option ℕ → ℕ → Option (ℕ × ℕ) → Text
unfolding filter_material
list_key sha256_16 generation none limit after =
    codes "articles:list:g"
    ++ (decimal generation ++ (codes ":all:" ++ sha256_16 (filter_material limit after)))
list_key sha256_16 generation (some author_id) limit after =
    codes "articles:list:a"
    ++ (decimal author_id
        ++ (codes ":g" ++ (decimal generation ++ b':' ∷ sha256_16 (filter_material limit after))))

-- The three parts of `created_at - epoch`: Python's timedelta has a negative count of days before
-- 1970, and its seconds and microseconds are never negative.
abbrev pub day : ℕ
day = 86400000000

abbrev pub days : ℤ → ℤ
days (pos t) = pos (t / day)
days (negsuc t) = negsuc (t / day)

abbrev pub within_day : ℤ → ℕ
within_day (pos t) = t % day
within_day (negsuc t) = day - 1 - t % day

abbrev pub seconds : ℤ → ℕ
seconds t = within_day t / 1000000

abbrev pub microseconds : ℤ → ℕ
microseconds t = within_day t % 1000000

-- `(delta.days * 86_400 + delta.seconds) * 1_000_000 + delta.microseconds`, with what is negative of
-- it taken off at the end.
unfoldable pub epoch_micros : ℤ → ℤ
epoch_micros t =
    sub_ℕ ((pos_part (days t) * 86400 + seconds t) * 1000000 + microseconds t)
      (neg_part (days t) * 86400 * 1000000)

-- The position comes from a decoded cursor, so its time is not before 1970.
unfoldable pub cursor_parts : Option (Datetime × ℕ) → Option (ℕ × ℕ)
unfolding epoch_micros
cursor_parts none = none
cursor_parts (some (created_at, article_id)) =
    some (pos_part (epoch_micros (pos created_at)), article_id)

-- Python's `round` of a count of microseconds to whole seconds: to the nearest, a tie to the even.
unfoldable pub round_micros : ℕ → ℕ
round_micros t =
    let whole = t / 1000000 in
    let part = t % 1000000 in
    if ltb part 500000
    then whole
    else if ltb 500000 part
    then whole + 1
    else if whole % 2 == 0
    then whole
    else whole + 1

-- `random.uniform(low, high)`: the draw is an argument, and stands for a point of the interval.
abbrev pub uniform : ℕ → ℕ → ℕ → ℕ
uniform low high draw = low + draw % (suc (high - low))

-- The jitter is a count of millionths; above one million the interval would reach below zero, where
-- the floor of one second decides, as it does at zero.
unfoldable pub jittered_ttl : ℕ → ℤ → ℕ → ℕ
unfolding round_micros
jittered_ttl base_seconds jitter draw =
    if leb_ℤ jitter (pos 0)
    then base_seconds
    else let spread = base_seconds * pos_part jitter in
      let base = base_seconds * 1000000 in
      max 1 (round_micros (uniform (base - spread) (base + spread) draw))
