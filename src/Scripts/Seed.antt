-- ===== src/Scripts/Seed.antt =====
-- Seeding the dataset of the load test (scripts/seed_load_dataset.py). Python's `random.Random` is
-- a parameter, and so is `int(plan.authors * plan.hot_share)`, which is computed in floats.
pub mod Batches
use scalable_content_platfor.Base.{
  ℕ, zero, suc, ◌+◌, ◌-◌, ◌*◌, ◌/◌, ◌%◌, ◌≤◌, ◌<◌, ◌≡◌, Bool, true, false, ◌&&◌, ◌||◌, List, [],
  ◌∷◌, ◌++◌, Option, none, some, leb, ltb, ◌==◌, length, take, drop, arith, if◌then◌else◌,
}
use scalable_content_platfor.Text.{Text, codes, decimal}
use scalable_content_platfor.Effects.{Exception, Outcome, ok, raise, other}

abbrev pub value_error : Exception
value_error = other 8

abbrev pub index_error : Exception
index_error = other 9

pub record SeedPlan : Type 0 where
  pub articles : ℕ
  pub authors : ℕ
  pub hot_count : ℕ
  pub min_body_bytes : ℕ
  pub max_body_bytes : ℕ
  pub batch_size : ℕ

-- `__post_init__`; a hot share below 1 makes fewer hot authors than there are authors.
unfoldable pub validate : SeedPlan → Outcome SeedPlan
validate plan =
    if ltb plan.authors 1
    then raise value_error
    else if leb plan.authors plan.hot_count
    then raise value_error
    else if ltb plan.min_body_bytes 1 || ltb plan.max_body_bytes plan.min_body_bytes
    then raise value_error
    else if ltb plan.batch_size 1
    then raise value_error
    else ok plan

-- `[value] * count`
abbrev pub repeat : ℕ → ℕ → List ℕ
repeat zero value = []
repeat (suc count) value = value ∷ repeat count value

-- No count is negative here, as `seed` calls it.
unfoldable pub plan_batches : ℕ → ℕ → Outcome (List ℕ)
plan_batches missing batch_size =
    if ltb batch_size 1
    then raise value_error
    else ok (
        repeat (missing / batch_size) batch_size
        ++ (if missing % batch_size == 0 then [] else missing % batch_size ∷ []))

-- The generator: `random() < hot_traffic`, and `randrange`.
pub record Rng (G : Type 0) : Type 0 where
  pub is_hot : G → Bool × G
  pub randrange : ℕ → ℕ → G → ℕ × G
  pub randrange_law :
      (low high : ℕ) (g : G)
      → low < high
      → (low ≤ (randrange low high g).0) × ((randrange low high g).0 < high)

module _ {G : Type 0} (rng : Rng G) where
  open rng use {is_hot, randrange}

  -- One article's author, and the generator after the draws. There is no draw of the share if no
  -- author is hot.
  unfoldable pub draw_slot : SeedPlan → G → ℕ × G
  draw_slot plan g =
      if plan.hot_count == 0
      then randrange plan.hot_count plan.authors g
      else let (hot, g') = is_hot g in
        if hot then randrange 0 plan.hot_count g' else randrange plan.hot_count plan.authors g'

  unfoldable pub slots_from : SeedPlan → ℕ → G → List ℕ
  unfolding draw_slot
  slots_from plan zero g = []
  slots_from plan (suc n) g = let (slot, g') = draw_slot plan g in slot ∷ slots_from plan n g'

  -- From `random.Random(plan.seed)`.
  unfoldable pub author_slots : SeedPlan → G → List ℕ
  unfolding slots_from
  author_slots plan seeded = slots_from plan plan.articles seeded

-- A row of an INSERT, by its author and the number in its title.
pub record Row : Type 0 where
  pub author_id : ℕ
  pub number : ℕ

-- `items[i]`
abbrev pub get_elem? : List ℕ → ℕ → Outcome ℕ
get_elem? [] i = raise index_error
get_elem? (x ∷ xs) zero = ok x
get_elem? (x ∷ xs) (suc i) = get_elem? xs i

abbrev pub row_at : List ℕ → List ℕ → ℕ → ℕ → Outcome Row
row_at author_ids slots existing i = elim (get_elem? slots i) [
  | raise e ↦ raise e
  | ok slot ↦ elim (get_elem? author_ids slot) [
    | raise e ↦ raise e
    | ok author ↦ ok (record { author_id = author; number = existing + i + 1 })
  ]
]

abbrev pub cons_row : Outcome Row → Outcome (List Row) → Outcome (List Row)
cons_row (raise e) rows = raise e
cons_row (ok row) (raise e) = raise e
cons_row (ok row) (ok rows) = ok (row ∷ rows)

-- The rows of one statement, from the one at `created` on.
unfoldable pub batch_rows : List ℕ → List ℕ → ℕ → ℕ → ℕ → Outcome (List Row)
batch_rows author_ids slots existing created zero = ok []
batch_rows author_ids slots existing created (suc size) =
    cons_row (row_at author_ids slots existing created)
      (batch_rows author_ids slots existing (created + 1) size)

abbrev pub cons_batch : Outcome (List Row) → Outcome (List (List Row)) → Outcome (List (List Row))
cons_batch (raise e) batches = raise e
cons_batch (ok rows) (raise e) = raise e
cons_batch (ok rows) (ok batches) = ok (rows ∷ batches)

-- The statements of the loop of `seed`.
unfoldable pub insert_batches : List ℕ → List ℕ → ℕ → ℕ → List ℕ → Outcome (List (List Row))
unfolding batch_rows
insert_batches author_ids slots existing created [] = ok []
insert_batches author_ids slots existing created (size ∷ sizes) =
    cons_batch (batch_rows author_ids slots existing created size)
      (insert_batches author_ids slots existing (created + size) sizes)

-- What `seed` inserts, given the authors and the count of their articles.
unfoldable pub seed_batches :
    {G : Type 0} → Rng G → G → SeedPlan → List ℕ → ℕ → Outcome (List (List Row))
unfolding plan_batches author_slots insert_batches
seed_batches rng seeded plan author_ids existing =
    elim (plan_batches (plan.articles - existing) plan.batch_size) [
      | raise e ↦ raise e
      | ok batches ↦
          insert_batches author_ids (drop existing (author_slots rng plan seeded)) existing 0
            batches
    ]

pub record SeedResult : Type 0 where
  pub articles_before : ℕ
  pub articles_created : ℕ
  pub id_min : Option ℕ
  pub id_max : Option ℕ

pub record RangePayload : Type 0 where
  pub id_min : Option ℕ
  pub id_max : Option ℕ
  pub articles : ℕ

abbrev pub articles_after : SeedResult → ℕ
articles_after result = result.articles_before + result.articles_created

abbrev pub range_of : Option ℕ → Option ℕ → ℕ → Outcome RangePayload
range_of (some low) (some high) articles =
    if ltb high low
    then raise value_error
    else ok (record { id_min = some low; id_max = some high; articles = articles })
range_of _ _ articles = raise value_error

unfoldable pub range_payload : SeedResult → Outcome RangePayload
range_payload result =
    if articles_after result == 0
    then ok (record { id_min = none; id_max = none; articles = 0 })
    else range_of result.id_min result.id_max (articles_after result)
