-- ===== src/Text.antt =====
-- Texts as lists of code points, with the formatting and the parsing of whole numbers that the
-- cache keys and the pagination cursor use: f-strings, `int`, `str.isdigit` and `str.partition` on
-- ASCII text.
pub mod Decimal
pub mod Partition
pub mod Base64
pub mod Equality
pub mod Words
use Prim.Native.Char.{code}
use Prim.Native.String.{String}
use scalable_content_platfor.Base.{
  ℕ, zero, suc, ◌+◌, ◌-◌, ◌*◌, ◌/◌, ◌%◌, Bool, true, false, ◌&&◌, List, [], ◌∷◌, Option, none, some,
  ltb, leb, ◌==◌, if◌then◌else◌,
}

abbrev pub Text : Type 0
Text = List ℕ

-- The text of a literal.
abbrev pub codes : String → Text
codes String.[] = []
codes (String.◌∷◌ c s) = code c ∷ codes s

abbrev pub is_digit : ℕ → Bool
is_digit c = leb b'0' c && leb c b'9'

-- The digits of `n` in front of `out`; `n + 1` rounds are enough.
decimal_from : ℕ → ℕ → Text → Text
decimal_from zero n out = out
decimal_from (suc fuel) n out =
    let rest = decimal_from fuel (n / 10) ((b'0' + n % 10) ∷ out) in
    if ltb n 10 then (b'0' + n) ∷ out else rest

-- `str(n)`, for a number that is not negative.
unfoldable pub decimal : ℕ → Text
unfolding decimal_from
decimal n = decimal_from (suc n) n []

-- `text.isdigit()` on ASCII: not empty, and digits only.
abbrev pub all_digits : Text → Bool
all_digits [] = true
all_digits (c ∷ s) = is_digit c && all_digits s

unfoldable pub isdigit : Text → Bool
isdigit [] = false
isdigit (c ∷ s) = all_digits (c ∷ s)

unfoldable pub parse_from : ℕ → Text → ℕ
parse_from v [] = v
parse_from v (c ∷ s) = parse_from (v * 10 + (c - b'0')) s

-- `int(text)`, for a text of digits.
unfoldable pub parse : Text → ℕ
unfolding parse_from
parse s = parse_from 0 s

-- `text.partition(separator)`: what stands before its first occurrence and after it, or `none`.
unfoldable pub partition : ℕ → Text → Option (Text × Text)
partition separator [] = none
partition separator (c ∷ s) =
    if c == separator
    then some ([], s)
    else elim (partition separator s) [ none ↦ none | some (a, b) ↦ some (c ∷ a, b) ]

-- `a == b`
unfoldable pub text_eq : Text → Text → Bool
text_eq [] [] = true
text_eq (a ∷ s) (b ∷ t) = a == b && text_eq s t
text_eq _ _ = false
