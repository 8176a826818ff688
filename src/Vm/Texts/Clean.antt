-- ===== src/Vm/Texts/Clean.antt =====
-- Cleaning the message of a failed job ends, and leaves no identifier of a machine in parentheses.
use hyprv.Prelude.{
  ℕ, zero, suc, ◌+◌, ◌-◌, ◌≤◌, ◌<◌, ◌≡◌, ◌⊎◌, inl, inr, refl, Option, none, some, [], ◌∷◌, ◌++◌,
  if◌then◌else◌, length, length-append, take, drop, arith, length-take-le,
}
use hyprv.Prelude.Text.{Text}
use hyprv.Vm.Texts.{find, id_marker, space_before, without_id, clean_loop, clean_job_error}
use hyprv.Vm.Texts.Find.{find-le, length-drop-le}

-- A round shortens the message.
without_id-lt : (s s' : Text) → without_id s ≡ some s' → length s' < length s
unfolding without_id
without_id-lt s s' h = of_marker (find id_marker s) refl h
  where
    cut : ℕ → Option ℕ → Option Text
    cut p o = elim o [
      | none ↦ none
      | some e ↦ some (take (if space_before p s then p - 1 else p) s ++ drop (suc (p + e)) s)
    ]

    shorter :
        (p k e : ℕ)
        → p + 20 ≤ length s
        → k ≤ p
        → length (take k s ++ drop (suc (p + e)) s) < length s
    shorter p k e h le = elim (length-drop-le (suc (p + e)) s) [
      | inl d ↦ omega (arith, length-append (take k s) (drop (suc (p + e)) s), length-take-le k s)
      | inr d ↦ omega (arith, length-append (take k s) (drop (suc (p + e)) s), length-take-le k s)
    ]

    of_end : (p : ℕ) (o : Option ℕ) → p + 20 ≤ length s → cut p o ≡ some s' → length s' < length s
    of_end p none h k = absurd cc
    of_end p (some e) h k =
        let kept : ℕ = if space_before p s then p - 1 else p in
        let same : take kept s ++ drop (suc (p + e)) s ≡ s' = cc in
        rw (← same) (shorter p kept e h (ground arith))

    of_marker :
        (o : Option ℕ)
        → find id_marker s ≡ o
        → elim o [ none ↦ none | some p ↦ cut p (find (41 ∷ []) (drop p s)) ] ≡ some s'
        → length s' < length s
    of_marker none e k = absurd cc
    of_marker (some p) e k = of_end p (find (41 ∷ []) (drop p s)) (find-le id_marker s p e) k

clean_loop-ends :
    (fuel : ℕ) (s : Text)
    → length s < fuel
    → (r : Text) × (clean_loop fuel s ≡ some r) × (without_id r ≡ none)
unfolding clean_loop
clean_loop-ends zero s h = absurd (omega arith)
clean_loop-ends (suc fuel) s h =
    of_round (without_id s) refl
      (λ s' e. clean_loop-ends fuel s' (omega (arith, without_id-lt s s' e)))
  where
    of_round :
        (o : Option Text)
        → without_id s ≡ o
        → ((s' : Text)
            → without_id s ≡ some s'
            → (r : Text) × (clean_loop fuel s' ≡ some r) × (without_id r ≡ none))
        → (r : Text) × (elim o [ none ↦ some s | some s' ↦ clean_loop fuel s' ] ≡ some r)
          × (without_id r ≡ none)
    of_round none e on = (s, refl, e)
    of_round (some s') e on = on s' e

-- No round is left to do exactly where every parenthesis of the marker that stands first is open.
without_id-none :
    (r : Text)
    → without_id r ≡ none
    → (find id_marker r ≡ none)
      ⊎ ((p : ℕ) × (find id_marker r ≡ some p) × (find (41 ∷ []) (drop p r) ≡ none))
unfolding without_id
without_id-none r h = of_marker (find id_marker r) refl h
  where
    of_end :
        (p : ℕ) (o : Option ℕ)
        → elim o [
          | none ↦ none
          | some e ↦ some (take (if space_before p r then p - 1 else p) r ++ drop (suc (p + e)) r)
        ]
          ≡ none
        → o ≡ none
    of_end p none k = refl
    of_end p (some e) k = absurd cc

    of_marker :
        (o : Option ℕ)
        → find id_marker r ≡ o
        → elim o [
          | none ↦ none
          | some p ↦ elim (find (41 ∷ []) (drop p r)) [
            | none ↦ none
            | some e ↦ some (take (if space_before p r then p - 1 else p) r ++ drop (suc (p + e)) r)
          ]
        ]
          ≡ none
        → (find id_marker r ≡ none)
          ⊎ ((p : ℕ) × (find id_marker r ≡ some p) × (find (41 ∷ []) (drop p r) ≡ none))
    of_marker none e k = inl e
    of_marker (some p) e k = inr (p, e, of_end p (find (41 ∷ []) (drop p r)) k)

-- The loop ends for every message, and what it returns has no marker, or no closing parenthesis
-- behind its first one.
pub clean_job_error-clean :
    (s : Text)
    → (r : Text) × (clean_job_error s ≡ some r)
      × ((find id_marker r ≡ none)
          ⊎ ((p : ℕ) × (find id_marker r ≡ some p) × (find (41 ∷ []) (drop p r) ≡ none)))
clean_job_error-clean s =
    let (r, e, done) = clean_loop-ends (suc (length s)) s (omega arith) in
    (r, e, without_id-none r done)
