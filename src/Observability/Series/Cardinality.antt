-- ===== src/Observability/Series/Cardinality.antt =====
-- How many time series the collectors can come to hold (app/observability/metrics.py).
use scalable_content_platfor.Base.{
  ℕ, suc, ◌*◌, ◌≤◌, ◌≡◌, refl, ap, sym, ◌∙◌, Bool, true, false, not, ◌&&◌, ◌||◌, List, [], ◌∷◌,
  ◌++◌, map, length, All, Bool-cases, inl, inr, arith, length-append, if◌then◌else◌,
}
use mathlib.Core.Path.{subst}
use scalable_content_platfor.Text.{Text, text_eq}
use scalable_content_platfor.Text.Equality.{text_eq_refl, text_eq-eq}
use scalable_content_platfor.Text.Words.{contains}
use scalable_content_platfor.Observability.Series.{Key, Series, key_eq, update}

key_eq_refl : (k : Key) → key_eq k k ≡ true
unfolding key_eq
key_eq_refl [] = refl
key_eq_refl (a ∷ k) = ground (arith, text_eq_refl a, key_eq_refl k)

key_eq-eq : (k l : Key) → key_eq k l ≡ true → k ≡ l
unfolding key_eq
key_eq-eq [] [] h = refl
key_eq-eq [] (b ∷ l) h = ground arith
key_eq-eq (a ∷ k) [] h = ground arith
key_eq-eq (a ∷ k) (b ∷ l) h = ground (arith, text_eq-eq a b, key_eq-eq k l)

-- A key among others, and all keys of a collector.
abbrev pub has : List Key → Key → Bool
has [] k = false
has (l ∷ ls) k = key_eq k l || has ls k

abbrev pub keys : Series → List Key
keys series = map (λ s. s.0) series

-- The combinations of label values.
abbrev pub with_each : List Text → List Key → List Key
with_each [] ks = []
with_each (a ∷ set) ks = map (λ k. a ∷ k) ks ++ with_each set ks

abbrev pub combinations : List (List Text) → List Key
combinations [] = [] ∷ []
combinations (set ∷ sets) = with_each set (combinations sets)

abbrev pub product : List (List Text) → ℕ
product [] = 1
product (set ∷ sets) = length set * product sets

-- Each label value is one of its set.
abbrev pub labelled : List (List Text) → Key → Bool
labelled [] [] = true
labelled [] (a ∷ k) = false
labelled (set ∷ sets) [] = false
labelled (set ∷ sets) (a ∷ k) = contains set a && labelled sets k

abbrev pub distinct : List Key → Bool
distinct [] = true
distinct (k ∷ ks) = not (has ks k) && distinct ks

-- What holds of a collector: no key stands for two series, and every label value is one of its set.
abbrev pub IsBounded : List (List Text) → Series → Type 0
IsBounded sets series =
    (distinct (keys series) ≡ true) × All (λ k. labelled sets k ≡ true) (keys series)

has-append : (ks ls : List Key) (k : Key) → has (ks ++ ls) k ≡ (has ks k || has ls k)
has-append [] ls k = refl
has-append (l ∷ ks) ls k = ground (arith, has-append ks ls k)

has-map : (a : Text) (ks : List Key) (k : Key) → has (map (λ l. a ∷ l) ks) (a ∷ k) ≡ has ks k
unfolding key_eq
has-map a [] k = refl
has-map a (l ∷ ks) k = ground (arith, has-map a ks k, text_eq_refl a)

has-with_each :
    (set : List Text) (ks : List Key) (a : Text) (k : Key)
    → contains set a ≡ true
    → has ks k ≡ true
    → has (with_each set ks) (a ∷ k) ≡ true
unfolding contains
has-with_each [] ks a k h g = ground arith
has-with_each (b ∷ set) ks a k h g = elim (Bool-cases (text_eq b a)) [
  | inl e ↦
      let same =
        subst (λ c. has (map (λ l. c ∷ l) ks) (a ∷ k) ≡ has ks k) (sym (text_eq-eq b a e))
          (has-map a ks k) in
      rw (has-append (map (λ l. b ∷ l) ks) (with_each set ks) (a ∷ k)) (ground (arith, same, g))
  | inr e ↦
      rw (has-append (map (λ l. b ∷ l) ks) (with_each set ks) (a ∷ k))
        (ground (arith, e, h, has-with_each set ks a k))
]

has-combinations :
    (sets : List (List Text)) (k : Key) → labelled sets k ≡ true → has (combinations sets) k ≡ true
unfolding key_eq
has-combinations [] [] h = refl
has-combinations [] (a ∷ k) h = ground arith
has-combinations (set ∷ sets) [] h = ground arith
has-combinations (set ∷ sets) (a ∷ k) h =
    ground (arith, has-with_each set (combinations sets) a k, has-combinations sets k)

length-map : (a : Text) (ks : List Key) → length (map (λ k. a ∷ k) ks) ≡ length ks
length-map a [] = refl
length-map a (k ∷ ks) = ap suc (length-map a ks)

length-with_each :
    (set : List Text) (ks : List Key) → length (with_each set ks) ≡ length set * length ks
length-with_each [] ks = omega arith
length-with_each (a ∷ set) ks =
    rw
      (
        length-append (map (λ k. a ∷ k) ks) (with_each set ks),
        length-map a ks,
        length-with_each set ks,
      )
      (grind arith)

length-combinations : (sets : List (List Text)) → length (combinations sets) ≡ product sets
length-combinations [] = refl
length-combinations (set ∷ sets) =
    length-with_each set (combinations sets) ∙ ap (λ n. length set * n) (length-combinations sets)

-- The keys without the first that is `k`.
abbrev without : Key → List Key → List Key
without k [] = []
without k (l ∷ ls) = if key_eq k l then ls else l ∷ without k ls

length-without :
    (k : Key) (ls : List Key) → has ls k ≡ true → suc (length (without k ls)) ≡ length ls
length-without k [] h = ground arith
length-without k (l ∷ ls) h = ground (arith, length-without k ls)

pub key_eq_sym : (k l : Key) → key_eq k l ≡ key_eq l k
key_eq_sym k l = elim (Bool-cases (key_eq k l)) [
  | inl e ↦ ground (arith, e, subst (λ m. key_eq m k ≡ true) (key_eq-eq k l e) (key_eq_refl k))
  | inr e ↦ elim (Bool-cases (key_eq l k)) [
    | inl e' ↦ ground (arith, subst (λ m. key_eq m l ≡ true) (key_eq-eq l k e') (key_eq_refl l))
    | inr e' ↦ ground (arith, e, e')
  ]
]

has-without :
    (k m : Key) (ls : List Key) → key_eq m k ≡ false → has ls m ≡ true → has (without k ls) m ≡ true
has-without k m [] e h = ground arith
has-without k m (l ∷ ls) e h = elim (Bool-cases (key_eq k l)) [
  | inl same ↦
      let other = subst (λ x. key_eq m x ≡ false) (key_eq-eq k l same) e in
      ground (arith, same, other, h)
  | inr differ ↦ ground (arith, differ, h, has-without k m ls e)
]

All-without :
    (k : Key) (ks ls : List Key)
    → has ks k ≡ false
    → All (λ m. has ls m ≡ true) ks
    → All (λ m. has (without k ls) m ≡ true) ks
All-without k [] ls h all = tt
All-without k (m ∷ ks) ls h all =
    let e : key_eq m k ≡ false = key_eq_sym m k ∙ ground (arith, h) in
    (has-without k m ls e all.0, All-without k ks ls (ground (arith, h)) all.1)

-- Distinct keys that are all among others are no more than these.
pigeonhole :
    (ks ls : List Key) → distinct ks ≡ true → All (λ k. has ls k ≡ true) ks → length ks ≤ length ls
pigeonhole [] ls d h = omega arith
pigeonhole (k ∷ ks) ls d h =
    let new : has ks k ≡ false = ground (arith, d) in
    let rest : distinct ks ≡ true = ground (arith, d) in
    omega (
      arith,
      length-without k ls h.0,
      pigeonhole ks (without k ls) rest (All-without k ks ls new h.1),
    )

bounded :
    (sets : List (List Text)) (series : Series)
    → IsBounded sets series
    → length (keys series) ≤ product sets
bounded sets series (d, h) =
    subst (λ n. length (keys series) ≤ n) (length-combinations sets)
      (pigeonhole (keys series) (combinations sets) d (All-combinations (keys series) h))
  where
    All-combinations :
        (ks : List Key)
        → All (λ k. labelled sets k ≡ true) ks
        → All (λ k. has (combinations sets) k ≡ true) ks
    All-combinations [] g = tt
    All-combinations (k ∷ ks) g = (has-combinations sets k g.0, All-combinations ks g.1)

pub has-update :
    (k l : Key) (f : ℕ → ℕ) (series : Series)
    → has (keys series) l ≡ false
    → key_eq l k ≡ false
    → has (keys (update k f series)) l ≡ false
unfolding update
has-update k l f [] h e = ground (arith, e)
has-update k l f ((m, n) ∷ series) h e = elim (Bool-cases (key_eq k m)) [
  | inl same ↦ rw (update, same) h
  | inr differ ↦ rw (update, differ) (ground (arith, h, has-update k l f series))
]

-- A labelled change keeps a collector bounded.
pub update-IsBounded :
    (sets : List (List Text)) (k : Key) (f : ℕ → ℕ) (series : Series)
    → labelled sets k ≡ true
    → IsBounded sets series
    → IsBounded sets (update k f series)
unfolding update
update-IsBounded sets k f [] g b = (refl, (g, tt))
update-IsBounded sets k f ((l, n) ∷ series) g (d, all) = elim (Bool-cases (key_eq k l)) [
  | inl same ↦ rw (update, same) (d, all)
  | inr differ ↦
      let rest = update-IsBounded sets k f series g (ground (arith, d), all.1) in
      let new = has-update k l f series (ground (arith, d)) (key_eq_sym l k ∙ differ) in
      rw (update, differ) (ground (arith, new, rest.0), (all.0, rest.1))
]

length-keys : (series : Series) → length (keys series) ≡ length series
length-keys [] = refl
length-keys (s ∷ series) = ap suc (length-keys series)

pub bounded-length :
    (sets : List (List Text)) (series : Series)
    → IsBounded sets series
    → length series ≤ product sets
bounded-length sets series b = omega (arith, bounded sets series b, length-keys series)

-- A new key is a new series.
pub length-update :
    (k : Key) (f : ℕ → ℕ) (series : Series)
    → has (keys series) k ≡ false
    → length (update k f series) ≡ suc (length series)
unfolding update
length-update k f [] h = refl
length-update k f ((l, n) ∷ series) h = ground (arith, h, length-update k f series, key_eq_sym k l)
