-- ===== src/Scripts/Metadata/Citable.antt =====
-- When scripts/run_metadata.py lets a result be cited.
use mathlib.Core.Path.{subst}
use scalable_content_platfor.Base.{
  ◌≡◌, ◌↔◌, refl, Bool, true, ◌&&◌, List, [], ◌∷◌, some, Bool-cases, Option-cases, inl, inr, arith,
}
use scalable_content_platfor.Text.{Text, codes, text_eq}
use scalable_content_platfor.Text.Equality.{text_eq-eq}
use scalable_content_platfor.Text.Words.{contains}
use scalable_content_platfor.Effects.{ok}
use scalable_content_platfor.Scripts.Metadata.{
  Datum, Snapshot, required_keys, lookup, missing_keys, validate, truth, datum_eq, same_or_absent,
  Reason, verdict, is_citable,
}

found :
    (required : List Text) (key : Text) (snapshot : Snapshot)
    → contains required key ≡ true
    → missing_keys required snapshot ≡ []
    → (d : Datum) × (lookup key snapshot ≡ some d)
unfolding contains
found [] key snapshot h m = ground arith
found (k ∷ required) key snapshot h m = elim (Option-cases (lookup k snapshot)) [
  | inl absent ↦ ground (arith, absent, m)
  | inr (d, e) ↦ elim (Bool-cases (text_eq k key)) [
    | inl same ↦ (d, subst (λ t. lookup t snapshot ≡ some d) (text_eq-eq k key same) e)
    | inr differ ↦ found required key snapshot (ground (arith, h, differ)) (ground (arith, m, e))
  ]
]

validated :
    (required : List Text) (snapshot : Snapshot)
    → validate required snapshot ≡ ok snapshot
    → missing_keys required snapshot ≡ []
unfolding validate
validated required snapshot h = ground (arith, h)

verdict_lem :
    (a a' p c i : Bool)
    → (((verdict (a && a') p c i).0 ≡ true)
        ↔ ((a ≡ true) × (a' ≡ true) × (p ≡ true) × (c ≡ true) × (i ≡ true)))
      × (((verdict (a && a') p c i).0 ≡ true) ↔ ((verdict (a && a') p c i).1 ≡ []))
verdict_lem a a' p c i = ground arith

-- Of two valid snapshots it is always decided whether their run can be cited: it can exactly if the
-- machine was on AC power in both, and if the power profile, the generator's cpuset and the fault
-- injector's cpuset (or that there is none) are the same in both; and there is a reason given
-- exactly if it cannot.
pub is_citable_lem :
    (before after : Snapshot)
    → validate required_keys before ≡ ok before
    → validate required_keys after ≡ ok after
    → (ac : Datum) × (ac' : Datum) × (profile : Datum) × (profile' : Datum) × (cpuset : Datum)
      × (cpuset' : Datum) × (citable : Bool) × (reasons : List Reason) × (is_citable required_keys
            before after
          ≡ ok (citable, reasons))
      × (lookup (codes "ac_online") before ≡ some ac)
      × (lookup (codes "ac_online") after ≡ some ac')
      × (lookup (codes "power_profile") before ≡ some profile)
      × (lookup (codes "power_profile") after ≡ some profile')
      × (lookup (codes "k6_cpuset") before ≡ some cpuset)
      × (lookup (codes "k6_cpuset") after ≡ some cpuset')
      × ((citable ≡ true) ↔ (
          (truth ac ≡ true)
          × (truth ac' ≡ true)
          × (datum_eq profile profile' ≡ true)
          × (datum_eq cpuset cpuset' ≡ true)
          × (same_or_absent
                (lookup (codes "toxiproxy_cpuset") before)
                (lookup (codes "toxiproxy_cpuset") after)
              ≡ true)))
      × ((citable ≡ true) ↔ (reasons ≡ []))
unfolding is_citable contains text_eq
is_citable_lem before after valid valid' =
    let m = validated required_keys before valid in
    let m' = validated required_keys after valid' in
    let (ac, e1) = found required_keys (codes "ac_online") before refl m in
    let (ac', e2) = found required_keys (codes "ac_online") after refl m' in
    let (profile, e3) = found required_keys (codes "power_profile") before refl m in
    let (profile', e4) = found required_keys (codes "power_profile") after refl m' in
    let (cpuset, e5) = found required_keys (codes "k6_cpuset") before refl m in
    let (cpuset', e6) = found required_keys (codes "k6_cpuset") after refl m' in
    let injector =
      same_or_absent (lookup (codes "toxiproxy_cpuset") before)
        (lookup (codes "toxiproxy_cpuset") after) in
    let v =
      verdict (truth ac && truth ac') (datum_eq profile profile') (datum_eq cpuset cpuset')
        injector in
    (
      ac,
      ac',
      profile,
      profile',
      cpuset,
      cpuset',
      v.0,
      v.1,
      ground (arith, valid, valid', e1, e2, e3, e4, e5, e6),
      e1,
      e2,
      e3,
      e4,
      e5,
      e6,
      (verdict_lem (truth ac) (truth ac') (datum_eq profile profile') (datum_eq cpuset cpuset')
          injector).0,
      (verdict_lem (truth ac) (truth ac') (datum_eq profile profile') (datum_eq cpuset cpuset')
          injector).1,
    )
