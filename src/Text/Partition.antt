-- ===== src/Text/Partition.antt =====
-- `str.partition` on a number, a separator and a rest.
use scalable_content_platfor.Base.{ℕ, ◌≡◌, ap, sym, ◌∙◌, true, false, [], ◌∷◌, ◌++◌, some, arith}
use scalable_content_platfor.Text.{Text, is_digit, all_digits, decimal, partition}
use scalable_content_platfor.Text.Decimal.{all_digits-decimal, decimal_inj}

partition-digits :
    (separator : ℕ) (s rest : Text)
    → is_digit separator ≡ false
    → all_digits s ≡ true
    → partition separator (s ++ separator ∷ rest) ≡ some (s, rest)
unfolding partition
partition-digits separator [] rest h d = ground arith
partition-digits separator (c ∷ s) rest h d = ground (arith, partition-digits separator s rest h)

pub partition-decimal :
    (separator n : ℕ) (rest : Text)
    → is_digit separator ≡ false
    → partition separator (decimal n ++ separator ∷ rest) ≡ some (decimal n, rest)
partition-decimal separator n rest h =
    partition-digits separator (decimal n) rest h (all_digits-decimal n)

-- Two texts that begin with a number and a separator are equal only if the numbers and the rests
-- are.
pub decimal_prefix_inj :
    (separator m n : ℕ) (r s : Text)
    → is_digit separator ≡ false
    → decimal m ++ separator ∷ r ≡ decimal n ++ separator ∷ s
    → (m ≡ n) × (r ≡ s)
decimal_prefix_inj separator m n r s h e =
    let both =
      sym (partition-decimal separator m r h)
      ∙ ap (partition separator) e
      ∙ partition-decimal separator n s h in
    (decimal_inj m n (cc both), cc both)
