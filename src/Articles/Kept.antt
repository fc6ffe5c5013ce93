-- ===== src/Articles/Kept.antt =====
-- Predicates that sequences, `finally` and the operations of the cache keep.
use scalable_content_platfor.Base.{Bool, true, false, arith, inl, inr, if◌then◌else◌}
use mathlib.Core.Path.{subst}
use scalable_content_platfor.Effects.{Outcome, Outcome-cases, CacheOperation, World, M, ◌>>=◌}
use scalable_content_platfor.Request.{Request}
use scalable_content_platfor.Resilience.Policy.{DependencyPolicy}
use scalable_content_platfor.Resilience.Guard.{heard_success, heard_failure}
use scalable_content_platfor.Resilience.Guard.Kept.{Returns, Post, Kept, Anything}
use scalable_content_platfor.Cache.Articles.{live, degrade, succeed, command}
use scalable_content_platfor.Articles.Service.{finally}

-- A predicate of what lies outside of the process, on what a request carries.
abbrev pub Outside : {S : Type 0} → (S → Type 0) → Request S → Type 0
Outside J r = J r.server

module _ {S : Type 0} (J : S → Type 0) where
  pub bind-Kept :
      {A B : Type 0} (Q : A → Type 0) (R : B → Type 0) (m : M (Request S) A)
      (f : A → M (Request S) B)
      → Kept (Outside J) Q m
      → ((a : A) → Q a → Kept (Outside J) R (f a))
      → Kept (Outside J) R (m >>= f)
  bind-Kept Q R m f km kf w j = elim (Outcome-cases (m w).0) [
    | inl (a, e) ↦
        let run = kf a (subst (Returns Q) e (km w j).1) (m w).1 (km w j).0 in ground (arith, run)
    | inr (x, e) ↦ ground (arith, km w j)
  ]

  pub finally-Kept :
      {A : Type 0} (Q : A → Type 0) (body : M (Request S) A) (last : M (Request S) (Unit {0}))
      → Kept (Outside J) Q body
      → Kept (Outside J) Anything last
      → Kept (Outside J) Q (finally body last)
  finally-Kept Q body last kb kl w j = elim (Outcome-cases (last (body w).1).0) [
    | inl (a, e) ↦ ground (arith, kb w j, kl (body w).1)
    | inr (x, e) ↦ ground (arith, kb w j, kl (body w).1)
  ]

  live_server :
      (enabled : Bool) (policy : DependencyPolicy) (w : World (Request S))
      → J w.services.server
      → J (live enabled policy w).1.services.server
  unfolding live
  live_server enabled policy w j = ground arith

  pub if-Post :
      {A : Type 0} (Q : A → Type 0) (b : Bool) (x y : Outcome A × World (Request S))
      → Post (Outside J) Q x
      → Post (Outside J) Q y
      → Post (Outside J) Q (if b then x else y)
  if-Post Q true x y h k = h
  if-Post Q false x y h k = k

  -- An operation of the cache keeps what its command keeps.
  pub command-Kept :
      {A B : Type 0} (Q : A → Type 0) (R : B → Type 0) (enabled : Bool) (policy : DependencyPolicy)
      (operation : CacheOperation) (fallback : B) (send : M (Request S) A)
      (after : A → M (Request S) B)
      → R fallback
      → Kept (Outside J) Q send
      → ((a : A) → Q a → Kept (Outside J) R (after a))
      → Kept (Outside J) R (command enabled policy operation fallback send after)
  unfolding command degrade succeed heard_success heard_failure
  command-Kept Q R enabled policy operation fallback send after f ks ka w j =
      let w₁ = (live enabled policy w).1 in
      let j₁ = live_server enabled policy w j in
      elim (Outcome-cases (send w₁).0) [
        | inl (a, e) ↦
            let sent = ks w₁ j₁ in
            let run = ka a (subst (Returns Q) e sent.1) (succeed policy (send w₁).1) sent.0 in
            ground (arith, run, j₁)
        | inr (x, e) ↦ ground (arith, ks w₁ j₁, j₁)
      ]
