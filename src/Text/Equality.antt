-- ===== src/Text/Equality.antt =====
-- `==` on texts.
use scalable_content_platfor.Base.{◌≡◌, refl, true, [], ◌∷◌, arith}
use scalable_content_platfor.Text.{Text, text_eq}

pub text_eq_refl : (s : Text) → text_eq s s ≡ true
unfolding text_eq
text_eq_refl [] = refl
text_eq_refl (a ∷ s) = ground (arith, text_eq_refl s)

pub text_eq-eq : (s t : Text) → text_eq s t ≡ true → s ≡ t
unfolding text_eq
text_eq-eq [] [] h = refl
text_eq-eq [] (b ∷ t) h = ground arith
text_eq-eq (a ∷ s) [] h = ground arith
text_eq-eq (a ∷ s) (b ∷ t) h = ground (arith, text_eq-eq s t)
