-- ===== src/Text/Decimal.antt =====
-- Decimal texts and `int`.
use scalable_content_platfor.Base.{
  ℕ, zero, suc, ◌+◌, ◌-◌, ◌*◌, ◌/◌, ◌%◌, ◌^◌, ◌≤◌, ◌<◌, ◌≡◌, refl, ap, sym, ◌∙◌, true, [], ◌∷◌, ltb,
  length, Bool-cases, inl, inr, arith,
}
use scalable_content_platfor.Text.{
  Text, decimal_from, decimal, all_digits, isdigit, parse_from, parse,
}

parse_from-decimal_from :
    (fuel n : ℕ) (out : Text) → n < fuel → parse_from 0 (decimal_from fuel n out) ≡ parse_from n out
unfolding decimal_from parse_from
parse_from-decimal_from zero n out h = elim h [ ]
parse_from-decimal_from (suc fuel) n out h = elim (Bool-cases (ltb n 10)) [
  | inl small ↦ rw small (ap (λ v. parse_from v out) (omega arith))
  | inr large ↦
      let ih = parse_from-decimal_from fuel (n / 10) ((b'0' + n % 10) ∷ out) (ground arith) in
      let value : n / 10 * 10 + (b'0' + n % 10 - b'0') ≡ n = omega arith in
      rw large (ih ∙ ap (λ v. parse_from v out) value)
]

-- `int(str(n)) == n`.
pub parse-decimal : (n : ℕ) → parse (decimal n) ≡ n
unfolding parse decimal parse_from
parse-decimal n = parse_from-decimal_from (suc n) n [] (omega arith)

pub decimal_inj : (m n : ℕ) → decimal m ≡ decimal n → m ≡ n
decimal_inj m n e = sym (parse-decimal m) ∙ ap parse e ∙ parse-decimal n

decimal_from-digits :
    (fuel n : ℕ) (out : Text) → all_digits out ≡ true → all_digits (decimal_from fuel n out) ≡ true
unfolding decimal_from
decimal_from-digits zero n out h = h
decimal_from-digits (suc fuel) n out h =
    ground (arith, decimal_from-digits fuel (n / 10) ((b'0' + n % 10) ∷ out))

pub all_digits-decimal : (n : ℕ) → all_digits (decimal n) ≡ true
unfolding decimal
all_digits-decimal n = decimal_from-digits (suc n) n [] refl

decimal_from-isdigit :
    (fuel n c : ℕ) (out : Text)
    → all_digits (c ∷ out) ≡ true
    → isdigit (decimal_from fuel n (c ∷ out)) ≡ true
unfolding decimal_from isdigit
decimal_from-isdigit zero n c out h = h
decimal_from-isdigit (suc fuel) n c out h =
    ground (arith, decimal_from-isdigit fuel (n / 10) (b'0' + n % 10) (c ∷ out))

-- The text of a number is not empty, and holds digits only.
pub isdigit-decimal : (n : ℕ) → isdigit (decimal n) ≡ true
unfolding decimal decimal_from isdigit
isdigit-decimal n = ground (arith, decimal_from-isdigit n (n / 10) (b'0' + n % 10) [])

ten_power : (k : ℕ) → 10 ^ suc (suc k) ≡ 10 * 10 ^ suc k
ten_power k = omega arith

length-decimal_from :
    (fuel k n : ℕ) (out : Text)
    → n < 10 ^ suc k
    → length (decimal_from fuel n out) ≤ suc k + length out
unfolding decimal_from
length-decimal_from zero k n out h = omega arith
length-decimal_from (suc fuel) zero n out h = ground arith
length-decimal_from (suc fuel) (suc k) n out h =
    let shorter : n / 10 < 10 ^ suc k = omega (arith, h, ten_power k) in
    ground (arith, length-decimal_from fuel k (n / 10) ((b'0' + n % 10) ∷ out) shorter)

-- A number below a power of ten has at most that many digits.
pub length-decimal : (k n : ℕ) → n < 10 ^ suc k → length (decimal n) ≤ suc k
unfolding decimal
length-decimal k n h = omega (arith, length-decimal_from (suc n) k n [] h)
