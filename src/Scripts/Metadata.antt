-- ===== src/Scripts/Metadata.antt =====
-- The judgement of the machine-state snapshots around a load test (scripts/run_metadata.py). A
-- snapshot is its keys with their values; floats and nested values are no part of one.
pub mod Citable
use scalable_content_platfor.Base.{
  ℕ, ◌≡◌, Bool, true, false, not, ◌&&◌, ◌||◌, List, [], ◌∷◌, ◌++◌, Option, none, some, ltb, leb,
  ◌==◌, ◌+◌, ◌-◌, ◌*◌, if◌then◌else◌,
}
use scalable_content_platfor.Text.{Text, codes, text_eq}
use scalable_content_platfor.Text.Words.{contains}
use scalable_content_platfor.Effects.{Exception, Outcome, ok, raise, other}

pub data Datum : Type 0 where
  flag : Bool → Datum
  number : ℕ → Datum
  text : Text → Datum

abbrev pub Snapshot : Type 0
Snapshot = List (Text × Datum)

-- MetadataError is a ValueError.
abbrev pub metadata_error : Exception
metadata_error = other 8

abbrev pub key_error : Exception
key_error = other 10

abbrev pub required_keys : List Text
required_keys =
    codes "timestamp"
    ∷ codes "hostname"
    ∷ codes "kernel"
    ∷ codes "cpu_model"
    ∷ codes "nproc"
    ∷ codes "governor"
    ∷ codes "energy_performance_preference"
    ∷ codes "power_profile"
    ∷ codes "no_turbo"
    ∷ codes "min_perf_pct"
    ∷ codes "max_perf_pct"
    ∷ codes "rapl_pl1_watts"
    ∷ codes "rapl_pl2_watts"
    ∷ codes "package_throttle_count"
    ∷ codes "core_throttle_count"
    ∷ codes "k6_cpuset"
    ∷ codes "ac_online"
    ∷ codes "loadavg"
    ∷ []

-- `snapshot.get(key)`
unfoldable pub lookup : Text → Snapshot → Option Datum
unfolding text_eq
lookup key [] = none
lookup key ((k, d) ∷ snapshot) =
    let rest = lookup key snapshot in if text_eq k key then some d else rest

-- `snapshot[key]`
abbrev pub item : Text → Snapshot → Outcome Datum
item key snapshot = elim (lookup key snapshot) [ none ↦ raise key_error | some d ↦ ok d ]

-- `set(required) - set(snapshot)`, in the order of the required keys.
abbrev pub missing_keys : List Text → Snapshot → List Text
missing_keys [] snapshot = []
missing_keys (key ∷ required) snapshot = elim (lookup key snapshot) [
  | none ↦ key ∷ missing_keys required snapshot
  | some d ↦ missing_keys required snapshot
]

unfoldable pub validate : List Text → Snapshot → Outcome Snapshot
unfolding lookup
validate required snapshot = elim (missing_keys required snapshot) [
  | [] ↦ ok snapshot
  | _ ∷ _ ↦ raise metadata_error
]

-- `if value`
abbrev pub truth : Datum → Bool
truth (flag b) = b
truth (number n) = not (n == 0)
truth (text []) = false
truth (text (c ∷ s)) = true

-- `==`, where True is 1 and False is 0.
abbrev pub flag_is : Bool → ℕ → Bool
flag_is true n = n == 1
flag_is false n = n == 0

abbrev pub flag_eq : Bool → Bool → Bool
flag_eq true b = b
flag_eq false b = not b

unfoldable pub datum_eq : Datum → Datum → Bool
unfolding text_eq
datum_eq (flag a) (flag b) = flag_eq a b
datum_eq (flag a) (number n) = flag_is a n
datum_eq (number n) (flag b) = flag_is b n
datum_eq (number m) (number n) = m == n
datum_eq (text s) (text t) = text_eq s t
datum_eq _ _ = false

-- `before.get(key) != after.get(key)`
abbrev pub same_or_absent : Option Datum → Option Datum → Bool
same_or_absent none none = true
same_or_absent (some a) (some b) = datum_eq a b
same_or_absent _ _ = false

pub data Reason : Type 0 where
  not_on_ac profile_moved generator_moved injector_moved : Reason

-- One reason, if it holds.
abbrev pub reason_if : Bool → Reason → List Reason → List Reason
reason_if b reason reasons = if b then reason ∷ reasons else reasons

abbrev pub is_empty : List Reason → Bool
is_empty [] = true
is_empty (r ∷ rs) = false

abbrev pub and_then : {A B : Type 0} → Outcome A → (A → Outcome B) → Outcome B
and_then (ok a) f = f a
and_then (raise e) f = raise e

-- What is left once every value was found.
abbrev pub verdict : Bool → Bool → Bool → Bool → Bool × List Reason
verdict on_ac same_profile same_generator same_injector =
    let reasons = reason_if (not on_ac) not_on_ac (
      reason_if (not same_profile) profile_moved (
        reason_if (not same_generator) generator_moved
          (reason_if (not same_injector) injector_moved []))) in
    (is_empty reasons, reasons)

-- Without an absolute cap on the throttle count, as is the default.
unfoldable pub is_citable : List Text → Snapshot → Snapshot → Outcome (Bool × List Reason)
unfolding validate datum_eq
is_citable required before after = and_then (validate required before) λ _.
    and_then (validate required after) λ _. and_then (item (codes "ac_online") before) λ ac.
      and_then (item (codes "ac_online") after) λ ac'.
        and_then (item (codes "power_profile") before) λ profile.
          and_then (item (codes "power_profile") after) λ profile'.
            and_then (item (codes "k6_cpuset") before) λ cpuset.
              and_then (item (codes "k6_cpuset") after) λ cpuset'. ok (
                verdict (truth ac && truth ac') (datum_eq profile profile')
                  (datum_eq cpuset cpuset')
                  (same_or_absent (lookup (codes "toxiproxy_cpuset") before)
                    (lookup (codes "toxiproxy_cpuset") after)))
