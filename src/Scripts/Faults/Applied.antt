-- ===== src/Scripts/Faults/Applied.antt =====
-- What scripts/inject_fault.py leaves on a proxy.
use scalable_content_platfor.Base.{
  ◌≡◌, ◌≢◌, refl, ap, ◌∙◌, Bool, true, false, not, ◌&&◌, List, [], ◌∷◌, ◌++◌, Bool-cases, inl, inr,
  arith,
}
use scalable_content_platfor.Text.{Text}
use scalable_content_platfor.Text.Equality.{text_eq_refl}
use scalable_content_platfor.Effects.{ok, World}
use scalable_content_platfor.Scripts.Faults.{
  Toxic, has_name, without_name, Transport, active, apply, delete_each, clear,
}

without_name-has_name :
    (name : Text) (toxics : List Toxic) → has_name name (without_name name toxics) ≡ false
without_name-has_name name [] = refl
without_name-has_name name (t ∷ toxics) = ground (arith, without_name-has_name name toxics)

without_name-same :
    (name : Text) (toxics : List Toxic)
    → has_name name toxics ≡ false
    → without_name name toxics ≡ toxics
without_name-same name [] h = refl
without_name-same name (t ∷ toxics) h = ground (arith, h, without_name-same name toxics)

-- No name stands for two toxics.
abbrev pub distinct_names : List Toxic → Bool
distinct_names [] = true
distinct_names (t ∷ toxics) = not (has_name t.name toxics) && distinct_names toxics

module _ {S : Type 0} (transport : Transport S) where
  open transport use {
    held, get_law, delete_law, post_law, delete_elsewhere, post_elsewhere, delete_toxic, post_toxic,
  }

  -- Applying a toxic succeeds and replaces: the proxy then holds what it held, less what had the
  -- toxic's name, and the toxic behind it. What another proxy holds is unchanged. That is given how
  -- Toxiproxy answers its requests.
  pub apply_lem :
      (target elsewhere : Text) (toxic : Toxic) (w : World S)
      → elsewhere ≢ target
      → ((apply transport target toxic w).0 ≡ ok tt)
        × (held (apply transport target toxic w).1 target
            ≡ without_name toxic.name (held w target) ++ toxic ∷ [])
        × (held (apply transport target toxic w).1 elsewhere ≡ held w elsewhere)
  unfolding apply active
  apply_lem target elsewhere toxic w other =
      elim (Bool-cases (has_name toxic.name (held w target))) [
        | inl there ↦
            let deleted = delete_law target toxic.name w there in
            let v = (delete_toxic target toxic.name w).1 in
            let gone =
              ap (has_name toxic.name) deleted.1
              ∙ without_name-has_name toxic.name (held w target) in
            let posted = post_law target toxic v gone in
            (
              ground (arith, get_law target w, there, deleted, posted),
              ground (arith, get_law target w, there, deleted, posted),
              ground (
                arith,
                get_law target w,
                there,
                deleted,
                posted,
                delete_elsewhere target toxic.name elsewhere w other,
                post_elsewhere target elsewhere toxic v other,
              ),
            )
        | inr absent ↦
            let posted = post_law target toxic w absent in
            let same = without_name-same toxic.name (held w target) absent in
            (
              ground (arith, get_law target w, absent, posted),
              ground (arith, get_law target w, absent, posted, same),
              ground (
                arith,
                get_law target w,
                absent,
                posted,
                post_elsewhere target elsewhere toxic w other,
              ),
            )
      ]

  delete_each_lem :
      (target elsewhere : Text) (toxics : List Toxic) (w : World S)
      → elsewhere ≢ target
      → held w target ≡ toxics
      → distinct_names toxics ≡ true
      → ((delete_each transport target toxics w).0 ≡ ok tt)
        × (held (delete_each transport target toxics w).1 target ≡ [])
        × (held (delete_each transport target toxics w).1 elsewhere ≡ held w elsewhere)
  delete_each_lem target elsewhere [] w other h d = (refl, h, refl)
  delete_each_lem target elsewhere (t ∷ toxics) w other h d =
      let there : has_name t.name (held w target) ≡ true =
        ap (has_name t.name) h ∙ ground (arith, text_eq_refl t.name) in
      let deleted = delete_law target t.name w there in
      let v = (delete_toxic target t.name w).1 in
      let left : without_name t.name (t ∷ toxics) ≡ toxics =
        ground (arith, text_eq_refl t.name, without_name-same t.name toxics, d) in
      let rest =
        delete_each_lem target elsewhere toxics v other
          (deleted.1 ∙ ap (without_name t.name) h ∙ left) (ground (arith, d)) in
      (
        ground (arith, deleted, rest),
        ground (arith, deleted, rest),
        ground (arith, deleted, rest, delete_elsewhere target t.name elsewhere w other),
      )

  -- Clearing a proxy succeeds, returns what was on it, and leaves nothing on it, and what another
  -- proxy holds is unchanged. That is for a proxy with no name twice, given how Toxiproxy answers.
  pub clear_lem :
      (target elsewhere : Text) (w : World S)
      → elsewhere ≢ target
      → distinct_names (held w target) ≡ true
      → ((clear transport target w).0 ≡ ok (held w target))
        × (held (clear transport target w).1 target ≡ [])
        × (held (clear transport target w).1 elsewhere ≡ held w elsewhere)
  unfolding clear active
  clear_lem target elsewhere w other d =
      let deleted = delete_each_lem target elsewhere (held w target) w other refl d in
      (
        ground (arith, get_law target w, deleted),
        ground (arith, get_law target w, deleted),
        ground (arith, get_law target w, deleted),
      )
