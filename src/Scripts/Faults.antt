-- ===== src/Scripts/Faults.antt =====
-- Injecting network faults (scripts/inject_fault.py). Toxiproxy, behind its HTTP API, is a
-- parameter.
pub mod Applied
use scalable_content_platfor.Base.{
  ℕ, ◌≡◌, ◌≢◌, Bool, true, false, not, ◌||◌, List, [], ◌∷◌, ◌++◌, Option, none, some, filter, map,
  if◌then◌else◌,
}
use scalable_content_platfor.Text.{Text, codes, text_eq}
use scalable_content_platfor.Text.Words.{contains}
use scalable_content_platfor.Base.Int.{ℤ, pos, negsuc}
use scalable_content_platfor.Effects.{
  Exception, Outcome, ok, raise, other, World, M, ◌>>=◌, ◌>>◌, pure,
}

-- The faults, as `argparse` admits no other; `FaultError` is a ValueError.
pub data Fault : Type 0 where
  latency timeout blackhole reset_peer : Fault

abbrev pub fault_error : Exception
fault_error = other 8

abbrev pub name_of : Fault → Text
name_of latency = codes "latency"
name_of timeout = codes "timeout"
name_of blackhole = codes "blackhole"
name_of reset_peer = codes "reset_peer"

-- Its attributes are the names with their values. Every one is downstream and of toxicity 1.
pub record Toxic : Type 0 where
  pub name : Text
  pub kind : Text
  pub attributes : List (Text × ℤ)

abbrev pub is_timed : Fault → Bool
is_timed latency = true
is_timed timeout = true
is_timed _ = false

-- `ms is None or ms < 0`
abbrev pub is_missing : Option ℤ → Bool
is_missing none = true
is_missing (some (pos n)) = false
is_missing (some (negsuc n)) = true

-- `int(ms or 0)`
abbrev pub ms_or_zero : Option ℤ → ℤ
ms_or_zero none = pos 0
ms_or_zero (some ms) = ms

abbrev pub attributes_of : Fault → Option ℤ → ℤ → List (Text × ℤ)
attributes_of latency ms jitter = (codes "latency", ms_or_zero ms) ∷ (codes "jitter", jitter) ∷ []
attributes_of timeout ms jitter = (codes "timeout", ms_or_zero ms) ∷ []
attributes_of blackhole ms jitter = (codes "timeout", pos 0) ∷ []
attributes_of reset_peer ms jitter = (codes "timeout", pos 0) ∷ []

abbrev pub kind_of : Fault → Text
kind_of blackhole = codes "timeout"
kind_of fault = name_of fault

unfoldable pub toxic_for : Fault → Option ℤ → ℤ → Outcome Toxic
toxic_for fault ms jitter =
    if elim (is_timed fault) [ true ↦ is_missing ms | false ↦ false ]
    then raise fault_error
    else ok (record {
      name = name_of fault;
      kind = kind_of fault;
      attributes = attributes_of fault ms jitter;
    })

abbrev pub has_name : Text → List Toxic → Bool
has_name name [] = false
has_name name (t ∷ toxics) = text_eq t.name name || has_name name toxics

abbrev pub without_name : Text → List Toxic → List Toxic
without_name name toxics = filter (λ t. not (text_eq t.name name)) toxics

-- The API: what it holds for a proxy, and the three requests. A request names its proxy, and leaves
-- the others alone; deleting a name that is there removes what has it, and a toxic whose name is
-- not there is added.
pub record Transport (S : Type 0) : Type 1 where
  pub held : World S → Text → List Toxic
  pub get_toxics : Text → M S (List Toxic)
  pub delete_toxic : Text → Text → M S (Unit {0})
  pub post_toxic : Text → Toxic → M S (Unit {0})
  pub get_law : (target : Text) (w : World S) → get_toxics target w ≡ (ok (held w target), w)
  pub delete_law :
      (target name : Text) (w : World S)
      → has_name name (held w target) ≡ true
      → ((delete_toxic target name w).0 ≡ ok tt)
        × (held (delete_toxic target name w).1 target ≡ without_name name (held w target))
  pub post_law :
      (target : Text) (toxic : Toxic) (w : World S)
      → has_name toxic.name (held w target) ≡ false
      → ((post_toxic target toxic w).0 ≡ ok tt)
        × (held (post_toxic target toxic w).1 target ≡ held w target ++ toxic ∷ [])
  pub delete_elsewhere :
      (target name elsewhere : Text) (w : World S)
      → elsewhere ≢ target
      → held (delete_toxic target name w).1 elsewhere ≡ held w elsewhere
  pub post_elsewhere :
      (target elsewhere : Text) (toxic : Toxic) (w : World S)
      → elsewhere ≢ target
      → held (post_toxic target toxic w).1 elsewhere ≡ held w elsewhere

module _ {S : Type 0} (transport : Transport S) where
  open transport use {get_toxics, delete_toxic, post_toxic}

  unfoldable pub active : Text → M S (List Toxic)
  active target = get_toxics target

  unfoldable pub apply : Text → Toxic → M S (Unit {0})
  unfolding active text_eq
  apply target toxic = do
    existing ← active target
    (if has_name toxic.name existing then delete_toxic target toxic.name else pure tt)
    post_toxic target toxic

  abbrev pub delete_each : Text → List Toxic → M S (Unit {0})
  delete_each target [] = pure tt
  delete_each target (t ∷ toxics) = delete_toxic target t.name >> delete_each target toxics

  -- The toxics whose names are returned.
  unfoldable pub clear : Text → M S (List Toxic)
  unfolding active
  clear target = do toxics ← active target; delete_each target toxics; pure toxics
