-- ===== src/Vm/Pending.antt =====
-- What src/app/vm/VMManager.cpp keeps of a machine from poll to poll: that an operation is under way
-- (`MarkPendingStateChange`, `ClearPendingStateChange`), and the samples of its load; the end of
-- `UpdateAll`, which merges both into what the poll has read. Times are in milliseconds.
pub mod Undo
pub mod History
pub mod Merge
use hyprv.Prelude.{
  ℕ, zero, suc, ◌+◌, ◌-◌, Bool, true, false, not, ◌&&◌, ◌||◌, Option, none, some, List, [], ◌∷◌,
  ◌++◌, ltb, leb, ◌==◌, ◌%◌, ◌^◌, if◌then◌else◌, is_empty, length, drop,
}
use hyprv.Prelude.Text.{Text, text_eq}
use hyprv.Settings.Crt.{Crt}
use hyprv.Settings.Map.{Map, lookup, insert, erase}

abbrev pub history_depth : ℕ
history_depth = 60

abbrev pub min_pending_blink : ℕ
min_pending_blink = 1200

-- The state is the number that the management service gives.
pub record Machine : Type 0 where
  pub guid : Text
  pub state : ℕ
  pub status_text : Text
  pub pending_state_change : Bool
  pub pending_job_label : Text
  pub processor_load_pct : ℕ
  pub memory_demand_mb : ℕ
  pub cpu_history_pct : List ℕ
  pub memory_history_mb : List ℕ

pub record PendingInfo : Type 0 where
  pub old_state : ℕ
  pub requested_at : ℕ
  pub label : Text

pub record Manager : Type 0 where
  pub vms : List Machine
  pub pending : Map PendingInfo

-- The label stands in for a status text that is empty.
abbrev pub labelled : Text → Text → Text
labelled label status = if not (is_empty label) && is_empty status then label else status

abbrev pub flagged : Text → Machine → Machine
flagged label v = record v {
  pending_state_change = true;
  pending_job_label = label;
  status_text = labelled label v.status_text;
}

-- The loop that stops at the first machine of the identifier.
module _ (crt : Crt) (guid : Text) where
  unfoldable pub at_first : (Machine → Machine) → List Machine → List Machine
  at_first f [] = []
  at_first f (v ∷ vs) = if crt.wcsicmp_eq v.guid guid then f v ∷ vs else v ∷ at_first f vs

  unfoldable pub first_machine : List Machine → Option Machine
  first_machine [] = none
  first_machine (v ∷ vs) = if crt.wcsicmp_eq v.guid guid then some v else first_machine vs

  abbrev pub current_state : List Machine → ℕ
  current_state vs = elim (first_machine vs) [ none ↦ 0 | some v ↦ v.state ]

  unfoldable pub mark_pending_state_change : Text → ℕ → Manager → Manager
  mark_pending_state_change label now m = if is_empty guid then m else record {
    vms = at_first (flagged label) m.vms;
    pending =
        insert guid (record { old_state = current_state m.vms; requested_at = now; label = label })
          m.pending;
  }

  abbrev pub label_of : Option PendingInfo → Text
  label_of none = []
  label_of (some info) = info.label

  abbrev pub unflagged : Text → Machine → Machine
  unflagged label v = record v {
    pending_state_change = false;
    pending_job_label = [];
    status_text = if not (is_empty label) && text_eq v.status_text label then [] else v.status_text;
  }

  unfoldable pub clear_pending_state_change : Manager → Manager
  clear_pending_state_change m = record {
    vms = at_first (unflagged (label_of (lookup guid m.pending))) m.vms;
    pending = erase guid m.pending;
  }

-- Whether the poll lets the mark go: the state has moved, and the mark was seen long enough and has no
-- label; or it is too old.
unfoldable pub lets_go : ℕ → Machine → PendingInfo → Bool
lets_go now v info =
    let age = now - info.requested_at in
    (not (v.state == info.old_state) && leb min_pending_blink age && is_empty info.label)
    || ltb 60000 age

unfoldable pub merge_pending : ℕ → Machine → Map PendingInfo → Machine × Map PendingInfo
merge_pending now v pending = elim (lookup v.guid pending) [
  | none ↦ (v, pending)
  | some info ↦
      if lets_go now v info then (v, erase v.guid pending) else (flagged info.label v, pending)
]

-- A sample more, and the oldest gone once there are enough.
unfoldable pub push_sample : ℕ → List ℕ → List ℕ
push_sample x h = (if leb history_depth (length h) then drop 1 h else h) ++ x ∷ []

abbrev pub is_running : Machine → Bool
is_running v = v.state == 2

unfoldable pub with_sample : Machine → Machine
with_sample v =
    if is_running v
    then record v {
      cpu_history_pct = push_sample v.processor_load_pct v.cpu_history_pct;
      memory_history_mb = push_sample (v.memory_demand_mb % 2 ^ 32) v.memory_history_mb;
    }
    else record v { cpu_history_pct = []; memory_history_mb = [] }

-- `prev`: of machines with one identifier the last has the entry.
unfoldable pub previous : Text → List Machine → Option Machine
previous guid [] = none
previous guid (v ∷ vs) = elim (previous guid vs) [
  | some u ↦ some u
  | none ↦ if text_eq v.guid guid then some v else none
]

unfoldable pub with_history : List Machine → Machine → Machine
with_history old v = elim (previous v.guid old) [
  | none ↦ v
  | some u ↦ record v {
    cpu_history_pct = u.cpu_history_pct;
    memory_history_mb = u.memory_history_mb;
  }
]

unfoldable pub merge : ℕ → List Machine → List Machine → Map PendingInfo → Manager
merge now old [] pending = record { vms = []; pending = pending }
merge now old (v ∷ next) pending =
    let (marked, pending') = merge_pending now (with_history old v) pending in
    let rest = merge now old next pending' in
    record { vms = with_sample marked ∷ rest.vms; pending = rest.pending }

-- The end of `UpdateAll`, with what it has read.
unfoldable pub update_all : ℕ → List Machine → Manager → Manager
update_all now next m = merge now m.vms next m.pending
