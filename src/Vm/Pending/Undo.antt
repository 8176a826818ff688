-- ===== src/Vm/Pending/Undo.antt =====
-- Ending an operation undoes the marks of its beginning.
use hyprv.Prelude.{
  ℕ, ◌≡◌, refl, sym, ap, ◌∙◌, true, false, not, ◌&&◌, none, List, [], ◌∷◌, if◌then◌else◌, is_empty,
  All, Bool-cases, inl, inr,
}
use hyprv.Prelude.Text.{Text, text_eq, text_eq_refl}
use hyprv.Settings.Crt.{Crt}
use hyprv.Settings.Map.{lookup, insert, lookup-insert, lookup-erase}
use hyprv.Vm.Pending.{
  Machine, PendingInfo, Manager, labelled, flagged, at_first, current_state, label_of, unflagged,
  mark_pending_state_change, clear_pending_state_change,
}

-- A machine that is not marked, and whose status is not the label.
abbrev pub IsUnmarked : Text → Machine → Type 0
IsUnmarked label v =
    (v.pending_state_change ≡ false)
    × (v.pending_job_label ≡ [])
    × (text_eq v.status_text label ≡ false)

status_back :
    (label status : Text)
    → text_eq status label ≡ false
    → (if not (is_empty label) && text_eq (labelled label status) label
        then []
        else labelled label status)
      ≡ status
status_back [] status h = refl
status_back (c ∷ cs) [] h = rw (text_eq_refl (c ∷ cs)) refl
status_back (c ∷ cs) (d ∷ ds) h = rw h refl

module _ (crt : Crt) (guid label : Text) where
  unflagged-flagged :
      (v : Machine) → IsUnmarked label v → unflagged crt guid label (flagged label v) ≡ v
  unflagged-flagged v h = λ i. record v {
    pending_state_change = sym h.0 i;
    pending_job_label = sym h.1 i;
    status_text = status_back label v.status_text h.2 i;
  }

  -- The label that is looked up is the one that was marked.
  label_marked :
      (m : Manager) (info : PendingInfo)
      → label_of crt guid (lookup guid (insert guid info m.pending)) ≡ info.label
  label_marked m info =
      ap (label_of crt guid) (lookup-insert guid guid info m.pending)
      ∙ (rw (text_eq_refl guid) refl)

  at_first-undo :
      (vs : List Machine)
      → All (λ v. crt.wcsicmp_eq v.guid guid ≡ true → IsUnmarked label v) vs
      → at_first crt guid (unflagged crt guid label) (at_first crt guid (flagged label) vs) ≡ vs
  unfolding at_first
  at_first-undo [] h = refl
  at_first-undo (v ∷ vs) h = elim (Bool-cases (crt.wcsicmp_eq v.guid guid)) [
    | inl e ↦ rw (e, e) (ap (λ u. u ∷ vs) (unflagged-flagged v (h.0 e)))
    | inr e ↦ rw (e, e) (ap (◌∷◌ v) (at_first-undo vs h.1))
  ]

  -- For an identifier that is not empty: after an operation is marked and ended again, the machines are
  -- as they were, provided that those with the identifier were not marked and their status is not the
  -- label; the identifier has no entry any more, and every other one the entry that it had.
  pub clear-mark_pending :
      (now : ℕ) (m : Manager)
      → is_empty guid ≡ false
      → All (λ v. crt.wcsicmp_eq v.guid guid ≡ true → IsUnmarked label v) m.vms
      → ((clear_pending_state_change crt guid (mark_pending_state_change crt guid label now m)).vms
          ≡ m.vms)
        × ((k : Text)
            → lookup k
                (clear_pending_state_change crt guid
                  (mark_pending_state_change crt guid label now m)).pending
              ≡ (if text_eq guid k then none else lookup k m.pending))
  unfolding mark_pending_state_change clear_pending_state_change
  clear-mark_pending now m h all =
      let info : PendingInfo = record {
        old_state = current_state crt guid m.vms;
        requested_at = now;
        label = label;
      } in
      rw h (
        ap (λ l. at_first crt guid (unflagged crt guid l) (at_first crt guid (flagged label) m.vms))
              (label_marked m info)
            ∙ at_first-undo m.vms all,
        λ k. lookup-erase guid k (insert guid info m.pending) ∙ erased k info,
      )
    where
      erased :
          (k : Text) (info : PendingInfo)
          → (if text_eq guid k then none else lookup k (insert guid info m.pending))
            ≡ (if text_eq guid k then none else lookup k m.pending)
      erased k info = elim (Bool-cases (text_eq guid k)) [
        | inl e ↦ rw e refl
        | inr e ↦ rw e (lookup-insert guid k info m.pending ∙ (rw e refl))
      ]
