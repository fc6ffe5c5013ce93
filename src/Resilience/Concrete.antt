-- ===== src/Resilience/Concrete.antt =====
-- A concrete runtime, for the tests: a retrying loop that runs, and pauses that take the longest
-- time allowed. It shows that what is asked of the libraries can be met.
use scalable_content_platfor.Base.{
  ℕ, zero, suc, ◌+◌, ◌-◌, ◌*◌, ◌^◌, ◌<◌, min, ◌≡◌, refl, Bool, arith, ltb, Bool-cases, inl, inr,
  ltb→lt, sym, ◌∙◌,
}
use native.Mathlib.Nat.{le-add_right, le_refl}
use scalable_content_platfor.Effects.{Exception, Outcome, ok, raise, World}
use scalable_content_platfor.Resilience.Retry.{Retrying, after_attempt}
use scalable_content_platfor.Resilience.Guard.{Runtime}

module _ {S : Type 0} where
  abbrev pub pause : ℕ → World S → World S
  pause bound w = record w { now = w.now + bound }

  module _ (A : Type 0) (stop multiplier max_wait : ℕ) (retry : Exception → Bool)
      (body : ℕ × World S → Outcome A × (ℕ × World S)) where
    go : ℕ → ℕ → ℕ × World S → Outcome A × (ℕ × World S)
    go zero failed s = body s
    go (suc fuel) failed s =
        after_attempt stop retry
          (λ s'. go fuel (suc failed) (s'.0, pause (min (multiplier * 2 ^ failed) max_wait) s'.1))
          failed (body s)

    unfoldable pub iterate : ℕ → ℕ × World S → Outcome A × (ℕ × World S)
    unfolding go
    iterate failed s = go (stop - failed) failed s

    iterate_next :
        (failed : ℕ) (s : ℕ × World S)
        → (suc failed < stop)
        → iterate failed s
          ≡ after_attempt stop retry
              (λ s'.
                iterate (suc failed) (s'.0, pause (min (multiplier * 2 ^ failed) max_wait) s'.1))
              failed
              (body s)
    unfolding iterate
    iterate_next failed s h =
        let e : stop - failed ≡ suc (stop - suc failed) = omega arith in rw e refl

    after_last :
        (next : ℕ × World S → Outcome A × (ℕ × World S)) (failed : ℕ)
        (r : Outcome A × (ℕ × World S))
        → ltb (suc failed) stop ≡ Bool.false
        → after_attempt stop retry next failed r ≡ r
    after_last next failed (ok a, s) h = refl
    after_last next failed (raise e, s) h = ground arith

    go_last :
        (fuel failed : ℕ) (s : ℕ × World S)
        → ltb (suc failed) stop ≡ Bool.false
        → go fuel failed s ≡ body s
    unfolding go
    go_last zero failed s h = refl
    go_last (suc fuel) failed s h = after_last _ failed (body s) h

    pub iterate_law :
        (failed : ℕ) (s : ℕ × World S)
        → iterate failed s
          ≡ after_attempt stop retry
              (λ s'.
                iterate (suc failed) (s'.0, pause (min (multiplier * 2 ^ failed) max_wait) s'.1))
              failed
              (body s)
    iterate_law failed s = elim (Bool-cases (ltb (suc failed) stop)) [
      | inl more ↦ iterate_next failed s (ltb→lt _ _ more)
      | inr last ↦
          unfold iterate in
          (go_last (stop - failed) failed s last ∙ sym (after_last _ failed (body s) last))
    ]

  unfoldable pub tenacity : Retrying S
  unfolding iterate
  tenacity = record {
    pause = pause;
    iterate = iterate;
    iterate_law = iterate_law;
    pause_forward = λ bound w. le-add_right w.now bound;
    pause_bounded = λ bound w. le_refl (w.now + bound);
  }

  unfoldable pub runtime : Runtime S
  unfolding tenacity
  runtime = record {
    tenacity = tenacity;
    interrupted = λ A call deadline w. record w { now = deadline };
  }
