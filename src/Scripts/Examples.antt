-- ===== src/Scripts/Examples.antt =====
-- The theorems on the scripts at concrete inputs.
use scalable_content_platfor.Base.{
  ℕ, ◌+◌, ◌≡◌, ◌≢◌, refl, true, List, [], ◌∷◌, ◌++◌, some, All, Bool-cases, inl, inr, arith,
  if◌then◌else◌,
}
use scalable_content_platfor.Base.Int.{pos}
use scalable_content_platfor.Text.{Text, codes, text_eq}
use scalable_content_platfor.Text.Equality.{text_eq_refl, text_eq-eq}
use scalable_content_platfor.Effects.{ok, World}
use scalable_content_platfor.Resilience.Fixtures.{empty}
use scalable_content_platfor.Scripts.Seed.{SeedPlan, validate, Rng, Row, seed_batches}
use scalable_content_platfor.Scripts.Seed.Batches.{
  concat, numbers, range, lengths, IsBatch, seed_batches_lem,
}
use scalable_content_platfor.Scripts.Faults.{Toxic, Transport, Fault, toxic_for, without_name}

-- A generator that is always hot, and draws the lowest number.
abbrev rng : Rng ℕ
rng = record {
  is_hot = λ g. (true, g + 1);
  randrange = λ low high g. (low, g + 1);
  randrange_law = λ low high g h. (omega arith, h);
}

abbrev plan : SeedPlan
plan = record {
  articles = 7;
  authors = 3;
  hot_count = 1;
  min_body_bytes = 10;
  max_body_bytes = 20;
  batch_size = 2;
}

plan-valid : validate plan ≡ ok plan
unfolding validate
plan-valid = refl

seed_batches_lem_example :
    (batches : List (List Row)) × (seed_batches rng 0 plan (11 ∷ 12 ∷ 13 ∷ []) 2 ≡ ok batches)
    × (numbers (concat batches) ≡ range 3 5)
    × All (IsBatch 2) (lengths batches)
seed_batches_lem_example = seed_batches_lem rng 0 plan (11 ∷ 12 ∷ 13 ∷ []) 2 plan-valid refl

-- A proxy server that holds a list of toxics for each proxy, in a function.
abbrev Held : Type 0
Held = Text → List Toxic

abbrev put : Text → List Toxic → World Held → World Held
put target toxics w = record w { services = λ t. if text_eq t target then toxics else w.services t }

put-same :
    (target : Text) (toxics : List Toxic) (w : World Held)
    → (put target toxics w).services target ≡ toxics
put-same target toxics w = ground (arith, text_eq_refl target)

put-other :
    (target elsewhere : Text) (toxics : List Toxic) (w : World Held)
    → elsewhere ≢ target
    → (put target toxics w).services elsewhere ≡ w.services elsewhere
put-other target elsewhere toxics w other = elim (Bool-cases (text_eq elsewhere target)) [
  | inl e ↦ absurd (other (text_eq-eq elsewhere target e))
  | inr e ↦ rw e refl
]

abbrev transport : Transport Held
transport = record {
  held = λ w target. w.services target;
  get_toxics = λ target w. (ok (w.services target), w);
  delete_toxic = λ target name w. (ok tt, put target (without_name name (w.services target)) w);
  post_toxic = λ target toxic w. (ok tt, put target (w.services target ++ toxic ∷ []) w);
  get_law = λ target w. refl;
  delete_law =
      λ target name w there. (refl, put-same target (without_name name (w.services target)) w);
  post_law = λ target toxic w absent. (refl, put-same target (w.services target ++ toxic ∷ []) w);
  delete_elsewhere = λ target name elsewhere w other.
      put-other target elsewhere (without_name name (w.services target)) w other;
  post_elsewhere = λ target elsewhere toxic w other.
      put-other target elsewhere (w.services target ++ toxic ∷ []) w other;
}

abbrev slow : Toxic
slow = record {
  name = codes "latency";
  kind = codes "latency";
  attributes = (codes "latency", pos 800) ∷ (codes "jitter", pos 0) ∷ [];
}

toxic_for-latency : toxic_for Fault.latency (some (pos 800)) (pos 0) ≡ ok slow
unfolding toxic_for
toxic_for-latency = refl

-- MySQL is already slow, by another number.
abbrev faulty : World Held
faulty = record {
  now = 0;
  breakers = empty;
  counted = [];
  services = λ t. record slow { attributes = [] } ∷ [];
}
