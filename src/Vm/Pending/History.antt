-- ===== src/Vm/Pending/History.antt =====
-- The samples of a machine's load from poll to poll.
use hyprv.Prelude.{
  ℕ, ◌%◌, ◌^◌, ◌≤◌, ◌≡◌, refl, Bool, true, false, Option, none, some, List, [], ◌∷◌, ◌++◌, leb,
  if◌then◌else◌, length, length-append, drop, arith, All,
}
use hyprv.Prelude.Text.{Text, text_eq}
use hyprv.Settings.Map.{Map}
use hyprv.Vm.Pending.{
  history_depth, Machine, PendingInfo, Manager, merge_pending, push_sample, is_running, with_sample,
  previous, with_history, merge, update_all,
}
use hyprv.Vm.Pending.Merge.{by_entry}

abbrev pub IsBounded : Machine → Type 0
IsBounded v =
    (length v.cpu_history_pct ≤ history_depth) × (length v.memory_history_mb ≤ history_depth)

-- A running machine ends with its present samples, another has none.
abbrev pub IsSampled : Machine → Type 0
IsSampled v =
    (is_running v ≡ true
      → ((earlier : List ℕ) × (v.cpu_history_pct ≡ earlier ++ v.processor_load_pct ∷ []))
        × ((earlier : List ℕ) × (v.memory_history_mb
              ≡ earlier ++ v.memory_demand_mb % 2 ^ 32 ∷ [])))
    × (is_running v ≡ false → (v.cpu_history_pct ≡ []) × (v.memory_history_mb ≡ []))

push_sample-le :
    (x : ℕ) (h : List ℕ) → length h ≤ history_depth → length (push_sample x h) ≤ history_depth
unfolding push_sample
push_sample-le x [] le = omega arith
push_sample-le x (y ∷ h) le = of_test (leb history_depth (length (y ∷ h))) refl
  where
    of_test :
        (b : Bool)
        → leb history_depth (length (y ∷ h)) ≡ b
        → length ((if b then drop 1 (y ∷ h) else y ∷ h) ++ x ∷ []) ≤ history_depth
    of_test true e = omega (arith, length-append h (x ∷ []))
    of_test false e = ground (arith, length-append (y ∷ h) (x ∷ []))

abbrev HoldsIf : Option Machine → Type 0
HoldsIf none = Unit {0}
HoldsIf (some u) = IsBounded u

previous-IsBounded :
    (guid : Text) (old : List Machine) → All IsBounded old → HoldsIf (previous guid old)
unfolding previous
previous-IsBounded guid [] h = tt
previous-IsBounded guid (v ∷ old) h =
    of_rest (previous guid old) (text_eq v.guid guid) (previous-IsBounded guid old h.1) h.0
  where
    of_rest :
        (o : Option Machine) (b : Bool)
        → HoldsIf o
        → IsBounded v
        → HoldsIf (elim o [ some w ↦ some w | none ↦ if b then some v else none ])
    of_rest (some w) b p q = p
    of_rest none true p q = q
    of_rest none false p q = tt

with_history-IsBounded :
    (old : List Machine) (v : Machine)
    → All IsBounded old
    → IsBounded v
    → IsBounded (with_history old v)
unfolding with_history
with_history-IsBounded old v h k = of_old (previous v.guid old) (previous-IsBounded v.guid old h)
  where
    of_old :
        (o : Option Machine)
        → HoldsIf o
        → IsBounded (elim o [
          | none ↦ v
          | some u ↦ record v {
            cpu_history_pct = u.cpu_history_pct;
            memory_history_mb = u.memory_history_mb;
          }
        ])
    of_old none p = k
    of_old (some u) p = p

merge_pending-IsBounded :
    (now : ℕ) (v : Machine) (pending : Map PendingInfo)
    → IsBounded v
    → IsBounded (merge_pending now v pending).0
merge_pending-IsBounded now v pending h =
    by_entry now v pending (λ r. IsBounded r.0) (λ e. h) (λ info e g. h) (λ info e g. h)

with_sample-Sampled :
    (v : Machine) → IsBounded v → IsBounded (with_sample v) × IsSampled (with_sample v)
unfolding with_sample push_sample
with_sample-Sampled v h = of_test (is_running v) refl
  where
    of_test :
        (b : Bool)
        → is_running v ≡ b
        → IsBounded (
            if b
            then record v {
              cpu_history_pct = push_sample v.processor_load_pct v.cpu_history_pct;
              memory_history_mb = push_sample (v.memory_demand_mb % 2 ^ 32) v.memory_history_mb;
            }
            else record v { cpu_history_pct = []; memory_history_mb = [] })
          × IsSampled (
              if b
              then record v {
                cpu_history_pct = push_sample v.processor_load_pct v.cpu_history_pct;
                memory_history_mb = push_sample (v.memory_demand_mb % 2 ^ 32) v.memory_history_mb;
              }
              else record v { cpu_history_pct = []; memory_history_mb = [] })
    of_test true e = (
      (
        push_sample-le v.processor_load_pct v.cpu_history_pct h.0,
        push_sample-le (v.memory_demand_mb % 2 ^ 32) v.memory_history_mb h.1,
      ),
      (
        λ k. (
          (
            if leb history_depth (length v.cpu_history_pct)
                then drop 1 v.cpu_history_pct
                else v.cpu_history_pct,
            refl,
          ),
          (
            if leb history_depth (length v.memory_history_mb)
                then drop 1 v.memory_history_mb
                else v.memory_history_mb,
            refl,
          ),
        ),
        λ k. absurd cc,
      ),
    )
    of_test false e = ((omega arith, omega arith), (λ k. absurd cc, λ k. (refl, refl)))

module _ (now : ℕ) (old : List Machine) (bounded : All IsBounded old) where
  merge-Sampled :
      (next : List Machine) (pending : Map PendingInfo)
      → All IsBounded next
      → All (λ v. IsBounded v × IsSampled v) (merge now old next pending).vms
  unfolding merge
  merge-Sampled [] pending h = tt
  merge-Sampled (v ∷ next) pending h =
      let u = with_history old v in
      (
        with_sample-Sampled (merge_pending now u pending).0
            (merge_pending-IsBounded now u pending (with_history-IsBounded old v bounded h.0)),
        merge-Sampled next (merge_pending now u pending).1 h.1,
      )

-- Polls keep at most 60 samples of the load and 60 of the memory of each machine, if they began with no more;
-- after a poll a running machine has its present load and its present memory demand, as a 32-bit number, as the
-- last samples, and any other machine has no samples of either kind.
pub update_all-Sampled :
    (now : ℕ) (next : List Machine) (m : Manager)
    → All IsBounded m.vms
    → All IsBounded next
    → All (λ v. IsBounded v × IsSampled v) (update_all now next m).vms
unfolding update_all
update_all-Sampled now next m h k = merge-Sampled now m.vms h next m.pending k
