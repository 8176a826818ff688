-- ===== src/Examples/Polls.antt =====
-- Concrete runs of the theorems on what is kept of a machine from poll to poll.
use hyprv.Prelude.{ℕ, ◌≡◌, refl, false, none, List, [], ◌∷◌, if◌then◌else◌, arith, All}
use hyprv.Prelude.Text.{Text, codes, text_eq}
use hyprv.Settings.Map.{lookup}
use hyprv.Vm.Pending.{
  Machine, Manager, mark_pending_state_change, clear_pending_state_change, update_all,
}
use hyprv.Vm.Pending.Undo.{clear-mark_pending}
use hyprv.Vm.Pending.Merge.{Others, Shows, update_all-Shows}
use hyprv.Vm.Pending.History.{IsBounded, IsSampled, update_all-Sampled}
use hyprv.Examples.{ascii}

abbrev read : Text → ℕ → Machine
read guid state = record {
  guid = guid;
  state = state;
  status_text = [];
  pending_state_change = false;
  pending_job_label = [];
  processor_load_pct = 7;
  memory_demand_mb = 512;
  cpu_history_pct = [];
  memory_history_mb = [];
}

-- A machine that runs and one that is off, the first of them asked to stop half a second ago.
abbrev before : Manager
before = record {
  vms = read (codes "a") 2 ∷ read (codes "b") 3 ∷ [];
  pending = (codes "a", record { old_state = 2; requested_at = 1000; label = [] }) ∷ [];
}

abbrev next : List Machine
next = read (codes "a") 4 ∷ read (codes "b") 3 ∷ []

abbrev label : Text
label = codes "Taking snapshot"

clear-mark_pending_example :
    ((clear_pending_state_change ascii
        (codes "b")
        (mark_pending_state_change ascii (codes "b") label 5 before)).vms
      ≡ before.vms)
    × ((k : Text)
        → lookup k
            (clear_pending_state_change ascii
              (codes "b")
              (mark_pending_state_change ascii (codes "b") label 5 before)).pending
          ≡ (if text_eq (codes "b") k then none else lookup k before.pending))
unfolding text_eq
clear-mark_pending_example =
    clear-mark_pending ascii (codes "b") label 5 before refl
      ((λ h. (refl, refl, refl)), ((λ h. (refl, refl, refl)), tt))

update_all-Shows_example :
    All
      (λ v. Shows 1500 (lookup v.guid (update_all 1500 next before).pending) v)
      (update_all 1500 next before).vms
    × ((k : Text)
        → Others k next
        → lookup k (update_all 1500 next before).pending ≡ lookup k before.pending)
unfolding text_eq
update_all-Shows_example =
    update_all-Shows 1500 next before ((refl, tt), (tt, tt)) ((refl, refl), ((refl, refl), tt))

update_all-Sampled_example : All (λ v. IsBounded v × IsSampled v) (update_all 1500 next before).vms
update_all-Sampled_example = update_all-Sampled 1500 next before (omega arith) (omega arith)
