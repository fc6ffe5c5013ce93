-- ===== src/Scripts/Seed/Batches.antt =====
-- What scripts/seed_load_dataset.py inserts.
use scalable_content_platfor.Base.{
  ℕ, zero, suc, ◌+◌, ◌-◌, ◌*◌, ◌/◌, ◌%◌, ◌≤◌, ◌<◌, ◌≡◌, refl, ap, sym, ◌∙◌, List, [], ◌∷◌, ◌++◌,
  All, ◌==◌, ==_iff, length, drop, Bool-cases, inl, inr, arith,
}
use mathlib.Core.Path.{subst, ap₂}
use scalable_content_platfor.Effects.{ok}
use scalable_content_platfor.Scripts.Seed.{
  SeedPlan, validate, repeat, plan_batches, Rng, draw_slot, slots_from, author_slots, Row,
  get_elem?, row_at, batch_rows, insert_batches, seed_batches,
}

abbrev pub sum : List ℕ → ℕ
sum [] = 0
sum (n ∷ ns) = n + sum ns

abbrev pub concat : List (List Row) → List Row
concat [] = []
concat (r ∷ rs) = r ++ concat rs

sum-append : (xs ys : List ℕ) → sum (xs ++ ys) ≡ sum xs + sum ys
sum-append [] ys = omega arith
sum-append (x ∷ xs) ys = omega (arith, sum-append xs ys)

sum-repeat : (n v : ℕ) → sum (repeat n v) ≡ n * v
sum-repeat zero v = omega arith
sum-repeat (suc n) v = grind (arith, sum-repeat n v)

-- Neither empty nor larger than `v`.
abbrev pub IsBatch : ℕ → ℕ → Type 0
IsBatch v b = (1 ≤ b) × (b ≤ v)

All-append :
    (v : ℕ) (xs ys : List ℕ) → All (IsBatch v) xs → All (IsBatch v) ys → All (IsBatch v) (xs ++ ys)
All-append v [] ys h g = g
All-append v (x ∷ xs) ys h g = (h.0, All-append v xs ys h.1 g)

All-repeat : (n v : ℕ) → 1 ≤ v → All (IsBatch v) (repeat n v)
All-repeat zero v h = tt
All-repeat (suc n) v h = ((h, omega arith), All-repeat n v h)

-- The batches add up to what is missing, and none of them is empty or larger than allowed, for a
-- batch size of at least one.
pub plan_batches_lem :
    (missing batch_size : ℕ)
    → 1 ≤ batch_size
    → (batches : List ℕ) × (plan_batches missing batch_size ≡ ok batches)
      × (sum batches ≡ missing)
      × All (IsBatch batch_size) batches
unfolding plan_batches
plan_batches_lem missing size h = elim (Bool-cases (missing % size == 0)) [
  | inl even ↦
      let none_left : missing % size ≡ 0 = (==_iff (missing % size) 0).0 even in
      (
        repeat (missing / size) size ++ [],
        rw even (ground arith),
        sum-append (repeat (missing / size) size) []
            ∙ ap (λ n. n + 0) (sum-repeat (missing / size) size)
            ∙ grind (arith, none_left),
        All-append size (repeat (missing / size) size) [] (All-repeat (missing / size) size h) tt,
      )
  | inr odd ↦ (
    repeat (missing / size) size ++ missing % size ∷ [],
    rw odd (ground arith),
    sum-append (repeat (missing / size) size) (missing % size ∷ [])
        ∙ ap (λ n. n + (missing % size + 0)) (sum-repeat (missing / size) size)
        ∙ grind arith,
    All-append size (repeat (missing / size) size) (missing % size ∷ [])
        (All-repeat (missing / size) size h) ((ground (arith, odd), omega arith), tt),
  )
]

-- The slots of a valid plan are authors of its.
draw_slot-bounded :
    {G : Type 0} (rng : Rng G) (plan : SeedPlan) (g : G)
    → plan.hot_count < plan.authors
    → (draw_slot rng plan g).0 < plan.authors
unfolding draw_slot
draw_slot-bounded rng plan g h = elim (Bool-cases (plan.hot_count == 0)) [
  | inl flat ↦ rw (draw_slot, flat) (rng.randrange_law plan.hot_count plan.authors g h).1
  | inr skewed ↦ elim (Bool-cases (rng.is_hot g).0) [
    | inl hot ↦
        let within = rng.randrange_law 0 plan.hot_count (rng.is_hot g).1 (ground (arith, skewed)) in
        rw (draw_slot, skewed, hot) (omega (arith, within.1, h))
    | inr cold ↦
        rw (draw_slot, skewed, cold)
          (rng.randrange_law plan.hot_count plan.authors (rng.is_hot g).1 h).1
  ]
]

slots_from-bounded :
    {G : Type 0} (rng : Rng G) (plan : SeedPlan) (n : ℕ) (g : G)
    → plan.hot_count < plan.authors
    → All (λ slot. slot < plan.authors) (slots_from rng plan n g)
unfolding slots_from
slots_from-bounded rng plan zero g h = tt
slots_from-bounded rng plan (suc n) g h =
    (draw_slot-bounded rng plan g h, slots_from-bounded rng plan n (draw_slot rng plan g).1 h)

length-slots_from :
    {G : Type 0} (rng : Rng G) (plan : SeedPlan) (n : ℕ) (g : G)
    → length (slots_from rng plan n g) ≡ n
unfolding slots_from
length-slots_from rng plan zero g = refl
length-slots_from rng plan (suc n) g =
    ap suc (length-slots_from rng plan n (draw_slot rng plan g).1)

drop-All : (P : ℕ → Type 0) (n : ℕ) (xs : List ℕ) → All P xs → All P (drop n xs)
drop-All P zero xs h = h
drop-All P (suc n) [] h = tt
drop-All P (suc n) (x ∷ xs) h = drop-All P n xs h.1

length-drop : (n : ℕ) (xs : List ℕ) → length (drop n xs) ≡ length xs - n
length-drop zero xs = omega arith
length-drop (suc n) [] = omega arith
length-drop (suc n) (x ∷ xs) = omega (arith, length-drop n xs)

get_elem?_ok : (xs : List ℕ) (i : ℕ) → i < length xs → (x : ℕ) × (get_elem? xs i ≡ ok x)
get_elem?_ok [] i h = absurd (omega arith)
get_elem?_ok (x ∷ xs) zero h = (x, refl)
get_elem?_ok (x ∷ xs) (suc i) h = get_elem?_ok xs i (omega arith)

get_elem?-All : (P : ℕ → Type 0) (xs : List ℕ) (i x : ℕ) → All P xs → get_elem? xs i ≡ ok x → P x
get_elem?-All P [] i x h e = ground arith
get_elem?-All P (y ∷ xs) zero x h e = subst P (ground arith) h.0
get_elem?-All P (y ∷ xs) (suc i) x h e = get_elem?-All P xs i x h.1 e

-- The numbers from `start` on.
abbrev pub range : ℕ → ℕ → List ℕ
range start zero = []
range start (suc n) = start ∷ range (suc start) n

abbrev pub numbers : List Row → List ℕ
numbers [] = []
numbers (r ∷ rows) = r.number ∷ numbers rows

abbrev pub lengths : List (List Row) → List ℕ
lengths [] = []
lengths (b ∷ bs) = length b ∷ lengths bs

numbers-append : (rs ss : List Row) → numbers (rs ++ ss) ≡ numbers rs ++ numbers ss
numbers-append [] ss = refl
numbers-append (r ∷ rs) ss = ap (λ ns. r.number ∷ ns) (numbers-append rs ss)

range-add : (start m n : ℕ) → range start (m + n) ≡ range start m ++ range (start + m) n
range-add start zero n = ap₂ range (omega arith) (omega arith)
range-add start (suc m) n =
    let e : suc m + n ≡ suc (m + n) = omega arith in
    let e' : suc start + m ≡ start + suc m = omega arith in
    ap (range start) e
    ∙ ap (λ ns. start ∷ ns)
        (range-add (suc start) m n ∙ ap (λ k. range (suc start) m ++ range k n) e')

module _ (author_ids slots : List ℕ) (existing : ℕ)
    (known : All (λ slot. slot < length author_ids) slots) where
  row_at_ok :
      (i : ℕ)
      → i < length slots
      → (row : Row) × (row_at author_ids slots existing i ≡ ok row)
        × (row.number ≡ existing + i + 1)
  row_at_ok i h =
      let (slot, e) = get_elem?_ok slots i h in
      let (author, e') =
        get_elem?_ok author_ids slot
          (get_elem?-All (λ s. s < length author_ids) slots i slot known e) in
      (record { author_id = author; number = existing + i + 1 }, ground (arith, e, e'), refl)

  batch_rows_ok :
      (size created : ℕ)
      → created + size ≤ length slots
      → (rows : List Row) × (batch_rows author_ids slots existing created size ≡ ok rows)
        × (numbers rows ≡ range (existing + created + 1) size)
        × (length rows ≡ size)
  unfolding batch_rows
  batch_rows_ok zero created h = ([], refl, refl, refl)
  batch_rows_ok (suc size) created h =
      let (row, e, numbered) = row_at_ok created (omega arith) in
      let (rows, e', rest, counted) = batch_rows_ok size (created + 1) (omega arith) in
      let next : existing + (created + 1) + 1 ≡ suc (existing + created + 1) = omega arith in
      (
        row ∷ rows,
        ground (arith, e, e'),
        ap₂ (λ n ns. n ∷ ns) numbered (rest ∙ ap (λ n. range n size) next),
        ap suc counted,
      )

  insert_batches_ok :
      (sizes : List ℕ) (created : ℕ)
      → created + sum sizes ≤ length slots
      → (batches : List (List Row)) × (insert_batches author_ids slots existing created sizes
          ≡ ok batches)
        × (numbers (concat batches) ≡ range (existing + created + 1) (sum sizes))
        × (lengths batches ≡ sizes)
  unfolding insert_batches
  insert_batches_ok [] created h = ([], refl, refl, refl)
  insert_batches_ok (size ∷ sizes) created h =
      let (rows, e, first, counted) = batch_rows_ok size created (omega (arith, h)) in
      let (batches, e', rest, sized) =
        insert_batches_ok sizes (created + size) (omega (arith, h)) in
      let next : existing + (created + size) + 1 ≡ existing + created + 1 + size = omega arith in
      (
        rows ∷ batches,
        ground (arith, e, e'),
        numbers-append rows (concat batches)
            ∙ ap₂ (λ ms ns. ms ++ ns) first (rest ∙ ap (λ n. range n (sum sizes)) next)
            ∙ sym (range-add (existing + created + 1) size (sum sizes)),
        ap₂ (λ n ns. n ∷ ns) counted sized,
      )

-- One call of the seeder inserts exactly the articles that are missing: their numbers are those
-- after the count of the articles that are there, up to the plan's, each once and in order; no
-- statement is empty or larger than the batch size; and no author or slot is looked up that is not
-- there. That is for a valid plan and as many author ids as it has authors. So a second call, once
-- the articles are there, inserts nothing.
pub seed_batches_lem :
    {G : Type 0} (rng : Rng G) (seeded : G) (plan : SeedPlan) (author_ids : List ℕ) (existing : ℕ)
    → validate plan ≡ ok plan
    → length author_ids ≡ plan.authors
    → (batches : List (List Row)) × (seed_batches rng seeded plan author_ids existing ≡ ok batches)
      × (numbers (concat batches) ≡ range (existing + 1) (plan.articles - existing))
      × All (IsBatch plan.batch_size) (lengths batches)
unfolding seed_batches author_slots validate
seed_batches_lem rng seeded plan author_ids existing valid counted =
    let slots = slots_from rng plan plan.articles seeded in
    let hot : plan.hot_count < plan.authors = ground (arith, valid) in
    let size : 1 ≤ plan.batch_size = ground (arith, valid) in
    let (sizes, planned, total, sized) =
      plan_batches_lem (plan.articles - existing) plan.batch_size size in
    let bounded =
      drop-All (λ slot. slot < length author_ids) existing slots
        (subst (λ n. All (λ slot. slot < n) slots) (sym counted)
          (slots_from-bounded rng plan plan.articles seeded hot)) in
    let enough : 0 + sum sizes ≤ length (drop existing slots) =
      omega (
        arith,
        length-drop existing slots,
        length-slots_from rng plan plan.articles seeded,
        total,
      ) in
    let (batches, inserted, numbered, lengths_ok) =
      insert_batches_ok author_ids (drop existing slots) existing bounded sizes 0 enough in
    (
      batches,
      ground (arith, planned, inserted),
      numbered ∙ ap₂ range (omega arith) total,
      subst (All (IsBatch plan.batch_size)) (sym lengths_ok) sized,
    )
