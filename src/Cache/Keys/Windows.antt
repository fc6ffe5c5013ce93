-- ===== src/Cache/Keys/Windows.antt =====
-- Page windows, their materials and their keys (`filter_hash`, `list_key` and `cursor_parts` of
-- app/cache/keys.py).
use scalable_content_platfor.Base.{
  ℕ, ◌≡◌, refl, ap, sym, ◌∙◌, ◌∷◌, ◌++◌, get_or, Option, none, some, arith,
}
use scalable_content_platfor.Base.Int.{ℤ, pos, negsuc}
use scalable_content_platfor.Text.{Text, codes, decimal, partition}
use scalable_content_platfor.Text.Decimal.{decimal_inj}
use scalable_content_platfor.Text.Partition.{decimal_prefix_inj, partition-decimal}
use scalable_content_platfor.Cache.Keys.{
  Datetime, filter_material, list_key, epoch_micros, cursor_parts,
}

-- The integer arithmetic of the keys and the cursors loses nothing.
pub epoch_micros_lem : (t : ℤ) → epoch_micros t ≡ t
unfolding epoch_micros
epoch_micros_lem (pos t) = ground arith
epoch_micros_lem (negsuc t) = ground arith

pub cursor_parts_inj : (a b : Option (Datetime × ℕ)) → cursor_parts a ≡ cursor_parts b → a ≡ b
unfolding cursor_parts
cursor_parts_inj none none h = refl
cursor_parts_inj none (some b) h = cc
cursor_parts_inj (some a) none h = cc
cursor_parts_inj (some (t, i)) (some (u, j)) h =
    ground (arith, epoch_micros_lem (pos t), epoch_micros_lem (pos u))

partition-none : partition b':' (codes "none") ≡ none
unfolding partition
partition-none = refl

not-decimal_none : (n i : ℕ) → ¬ (decimal n ++ b':' ∷ decimal i ≡ codes "none")
not-decimal_none n i e =
    cc (sym (partition-decimal b':' n (decimal i) refl) ∙ ap (partition b':') e ∙ partition-none)

-- Windows that differ in the limit or in the position have different materials.
pub filter_material_inj :
    (limit limit' : ℕ) (after after' : Option (ℕ × ℕ))
    → filter_material limit after ≡ filter_material limit' after'
    → (limit ≡ limit') × (after ≡ after')
unfolding filter_material
filter_material_inj limit limit' none none h =
    let parts = decimal_prefix_inj b':' limit limit' (codes "none") (codes "none") refl (cc h) in
    (parts.0, refl)
filter_material_inj limit limit' none (some (m, i)) h =
    let parts =
      decimal_prefix_inj b':' limit limit' (codes "none") (decimal m ++ b':' ∷ decimal i) refl
        (cc h) in
    absurd (not-decimal_none m i (sym parts.1))
filter_material_inj limit limit' (some (m, i)) none h =
    let parts =
      decimal_prefix_inj b':' limit limit' (decimal m ++ b':' ∷ decimal i) (codes "none") refl
        (cc h) in
    absurd (not-decimal_none m i parts.1)
filter_material_inj limit limit' (some (m, i)) (some (n, j)) h =
    let parts =
      decimal_prefix_inj b':' limit limit' (decimal m ++ b':' ∷ decimal i)
        (decimal n ++ b':' ∷ decimal j) refl (cc h) in
    let inner = decimal_prefix_inj b':' m n (decimal i) (decimal j) refl parts.1 in
    let last = decimal_inj i j inner.1 in (parts.0, cc (inner.0, last))

-- Two list pages have the same key only if they are the same page: generation, author, limit and
-- position; provided that the digest tells their two materials apart if they differ.
pub list_key_inj :
    (sha256_16 : Text → Text) (g g' : ℕ) (author author' : Option ℕ) (limit limit' : ℕ)
    (after after' : Option (ℕ × ℕ))
    → (sha256_16 (filter_material limit after) ≡ sha256_16 (filter_material limit' after')
        → filter_material limit after ≡ filter_material limit' after')
    → list_key sha256_16 g author limit after ≡ list_key sha256_16 g' author' limit' after'
    → (g ≡ g') × (author ≡ author') × (limit ≡ limit') × (after ≡ after')
unfolding list_key
list_key_inj sha g g' none none limit limit' after after' collide h =
    let d = sha (filter_material limit after) in
    let d' = sha (filter_material limit' after') in
    let parts = decimal_prefix_inj b':' g g' (codes "all:" ++ d) (codes "all:" ++ d') refl (cc h) in
    let digest : d ≡ d' = cc parts.1 in
    let window = filter_material_inj limit limit' after after' (collide digest) in
    (parts.0, refl, window.0, window.1)
list_key_inj sha g g' none (some a') limit limit' after after' collide h =
    let e : ◌≡◌ {A = ℕ} b'g' b'a' = ap (λ t. get_or t 14 0) h in absurd (omega arith)
list_key_inj sha g g' (some a) none limit limit' after after' collide h =
    let e : ◌≡◌ {A = ℕ} b'a' b'g' = ap (λ t. get_or t 14 0) h in absurd (omega arith)
list_key_inj sha g g' (some a) (some a') limit limit' after after' collide h =
    let d = sha (filter_material limit after) in
    let d' = sha (filter_material limit' after') in
    let parts =
      decimal_prefix_inj b':' a a' (codes "g" ++ (decimal g ++ b':' ∷ d))
        (codes "g" ++ (decimal g' ++ b':' ∷ d')) refl (cc h) in
    let inner = decimal_prefix_inj b':' g g' d d' refl (cc parts.1) in
    let window = filter_material_inj limit limit' after after' (collide inner.1) in
    (inner.0, ap some parts.0, window.0, window.1)
