-- ===== src/Vm/Pending/Merge.antt =====
-- What a poll leaves of the marks and of the samples.
use hyprv.Prelude.{
  ℕ, ◌-◌, ◌≤◌, ◌<◌, ◌≡◌, ◌≢◌, refl, sym, ap, subst, ◌%◌, ◌^◌, ◌∙◌, Bool, true, false, Option, none,
  some, List, [], ◌∷◌, if◌then◌else◌, is_empty, arith, All,
}
use hyprv.Prelude.Text.{Text, text_eq, text_eq_refl}
use hyprv.Settings.Map.{Map, lookup, erase, lookup-erase}
use hyprv.Vm.Pending.{
  Machine, PendingInfo, Manager, labelled, flagged, lets_go, merge_pending, push_sample, is_running,
  with_sample, with_history, merge, update_all,
}

-- Machines of different identifiers.
abbrev pub Others : Text → List Machine → Type 0
Others guid vs = All (λ (v : Machine). text_eq v.guid guid ≡ false) vs

abbrev pub Distinct : List Machine → Type 0
Distinct [] = Unit {0}
Distinct (v ∷ vs) = Others v.guid vs × Distinct vs

-- A machine as it is read, before marks are merged into it.
abbrev pub IsFresh : Machine → Type 0
IsFresh v = (v.pending_state_change ≡ false) × (v.pending_job_label ≡ [])

-- What a machine shows by the entry of its identifier.
abbrev pub Shows : ℕ → Option PendingInfo → Machine → Type 0
Shows now none v = (v.pending_state_change ≡ false) × (v.pending_job_label ≡ [])
Shows now (some info) v =
    (v.pending_state_change ≡ true)
    × (v.pending_job_label ≡ info.label)
    × (now - info.requested_at ≤ 60000)
    × (v.state ≢ info.old_state → is_empty info.label ≡ true → now - info.requested_at < 1200)
    × (is_empty v.status_text ≡ true → is_empty info.label ≡ true)

kept_young :
    (now : ℕ) (v : Machine) (info : PendingInfo)
    → lets_go now v info ≡ false
    → (now - info.requested_at ≤ 60000)
      × (v.state ≢ info.old_state → is_empty info.label ≡ true → now - info.requested_at < 1200)
unfolding lets_go
kept_young now v info h = (ground arith, λ p q. ground arith)

label_shown :
    (label status : Text) → is_empty (labelled label status) ≡ true → is_empty label ≡ true
label_shown [] status h = refl
label_shown (c ∷ cs) [] h = cc
label_shown (c ∷ cs) (d ∷ ds) h = cc

lookup-erase_self : (k : Text) (m : Map PendingInfo) → lookup k (erase k m) ≡ none
lookup-erase_self k m = lookup-erase k k m ∙ (rw (text_eq_refl k) refl)

module _ (now : ℕ) (v : Machine) (pending : Map PendingInfo) where
  chosen : PendingInfo → Bool → Machine × Map PendingInfo
  chosen info b = if b then (v, erase v.guid pending) else (flagged info.label v, pending)

  merged : Option PendingInfo → Machine × Map PendingInfo
  unfolding chosen
  merged none = (v, pending)
  merged (some info) = chosen info (lets_go now v info)

  -- What holds of a machine and its entry in each of the three cases holds after the merge.
  pub by_entry {ℓ} :
      (P : Machine × Map PendingInfo → Type ℓ)
      → (lookup v.guid pending ≡ none → P (v, pending))
      → ((info : PendingInfo)
          → lookup v.guid pending ≡ some info
          → lets_go now v info ≡ true
          → P (v, erase v.guid pending))
      → ((info : PendingInfo)
          → lookup v.guid pending ≡ some info
          → lets_go now v info ≡ false
          → P (flagged info.label v, pending))
      → P (merge_pending now v pending)
  unfolding merge_pending merged
  by_entry P absent gone kept = of_entry (lookup v.guid pending) refl
    where
      of_choice :
          (info : PendingInfo) (b : Bool)
          → lookup v.guid pending ≡ some info
          → lets_go now v info ≡ b
          → P (chosen info b)
      of_choice info true e h = gone info e h
      of_choice info false e h = kept info e h

      of_entry : (o : Option PendingInfo) → lookup v.guid pending ≡ o → P (merged o)
      of_entry none e = absent e
      of_entry (some info) e = of_choice info (lets_go now v info) e refl

  merge_pending-Shows :
      IsFresh v
      → Shows now (lookup v.guid (merge_pending now v pending).1) (merge_pending now v pending).0
  merge_pending-Shows fresh =
      by_entry (λ r. Shows now (lookup v.guid r.1) r.0) (λ e. rw e fresh)
        (λ info e h. rw (lookup-erase_self v.guid pending) fresh)
        (λ info e h. rw e (
          refl,
          refl,
          (kept_young now v info h).0,
          (kept_young now v info h).1,
          label_shown info.label v.status_text,
        ))

  merge_pending-guid : (merge_pending now v pending).0.guid ≡ v.guid
  merge_pending-guid =
      by_entry (λ r. r.0.guid ≡ v.guid) (λ e. refl) (λ info e h. refl) (λ info e h. refl)

  merge_pending-other :
      (k : Text)
      → text_eq v.guid k ≡ false
      → lookup k (merge_pending now v pending).1 ≡ lookup k pending
  merge_pending-other k h =
      by_entry (λ r. lookup k r.1 ≡ lookup k pending) (λ e. refl)
        (λ info e g. lookup-erase v.guid k pending ∙ (rw h refl)) (λ info e g. refl)

with_history-guid : (old : List Machine) (v : Machine) → (with_history old v).guid ≡ v.guid
unfolding with_history
with_history-guid old v = ground arith

with_history-IsFresh : (old : List Machine) (v : Machine) → IsFresh v → IsFresh (with_history old v)
unfolding with_history
with_history-IsFresh old v h = (ground arith, ground arith)

with_sample-guid : (v : Machine) → (with_sample v).guid ≡ v.guid
unfolding with_sample
with_sample-guid v = ground arith

with_sample-Shows :
    (now : ℕ) (o : Option PendingInfo) (v : Machine) → Shows now o v → Shows now o (with_sample v)
unfolding with_sample
with_sample-Shows now o v h = of_test o (is_running v) h
  where
    of_test :
        (o : Option PendingInfo) (b : Bool)
        → Shows now o v
        → Shows now o (
            if b
            then record v {
              cpu_history_pct = push_sample v.processor_load_pct v.cpu_history_pct;
              memory_history_mb = push_sample (v.memory_demand_mb % 2 ^ 32) v.memory_history_mb;
            }
            else record v { cpu_history_pct = []; memory_history_mb = [] })
    of_test none true h = h
    of_test none false h = h
    of_test (some info) true h = h
    of_test (some info) false h = h

module _ (now : ℕ) (old : List Machine) where
  -- A poll leaves the entries of machines that it has not read.
  merge-other :
      (next : List Machine) (pending : Map PendingInfo) (k : Text)
      → Others k next
      → lookup k (merge now old next pending).pending ≡ lookup k pending
  unfolding merge
  merge-other [] pending k h = refl
  merge-other (v ∷ next) pending k h =
      merge-other next (merge_pending now (with_history old v) pending).1 k h.1
      ∙ merge_pending-other now (with_history old v) pending k
          (ap (λ g. text_eq g k) (with_history-guid old v) ∙ h.0)

  merge-Shows :
      (next : List Machine) (pending : Map PendingInfo)
      → Distinct next
      → All IsFresh next
      → All
          (λ v. Shows now (lookup v.guid (merge now old next pending).pending) v)
          (merge now old next pending).vms
  unfolding merge
  merge-Shows [] pending d f = tt
  merge-Shows (v ∷ next) pending d f =
      let u = with_history old v in
      let marked = (merge_pending now u pending).0 in
      let pending' = (merge_pending now u pending).1 in
      let same : (with_sample marked).guid ≡ v.guid =
        with_sample-guid marked ∙ merge_pending-guid now u pending ∙ with_history-guid old v in
      let shown : Shows now (lookup v.guid pending') marked =
        subst (λ g. Shows now (lookup g pending') marked) (with_history-guid old v)
          (merge_pending-Shows now u pending (with_history-IsFresh old v f.0)) in
      (
        subst (λ o. Shows now o (with_sample marked))
            (sym (
              ap (λ g. lookup g (merge now old next pending').pending) same
              ∙ merge-other next pending' v.guid d.0))
            (with_sample-Shows now _ marked shown),
        merge-Shows next pending' d.1 f.1,
      )

-- After a poll that has read machines of distinct identifiers, a machine is marked exactly if its
-- identifier has an entry; the entry is then at most 60 seconds old, and less than 1.2 seconds if it has no label and
-- the machine's state has changed, the machine carries its label, and has a status text if the label is one. The
-- entries of identifiers that were not read stay.
pub update_all-Shows :
    (now : ℕ) (next : List Machine) (m : Manager)
    → Distinct next
    → All IsFresh next
    → All
        (λ v. Shows now (lookup v.guid (update_all now next m).pending) v)
        (update_all now next m).vms
      × ((k : Text) → Others k next → lookup k (update_all now next m).pending ≡ lookup k m.pending)
unfolding update_all
update_all-Shows now next m d f =
    (merge-Shows now m.vms next m.pending d f, merge-other now m.vms next m.pending)
