-- ===== src/Examples/Tabs.antt =====
-- Runs of a machine's tab.
use hyprv.Prelude.{◌≡◌, refl, true, false, some, List, [], ◌∷◌}
use hyprv.Prelude.Text.{codes}
use hyprv.Tab.{
  VmState, VirtualMachine, World, View, Tab, update_placeholder_and_client, with_machine,
  not_running, age_pending, clear_error, age_start, tear_down_client, show_placeholder, shows_start,
}
use hyprv.Tab.Start.{has_start}
use hyprv.Tab.Proper.{IsProper}
use hyprv.Tab.Runs.{Event, tab_step, tab_run, new_tab}
use hyprv.Tab.Runs.Popup.{tab_run-IsProper}
use hyprv.Tab.Runs.Drops.{run-failing}
use hyprv.Tab.Runs.Errors.{run-stuck}

abbrev machine_in : VmState → VirtualMachine
machine_in s = record {
  element_name = codes "lab";
  state = s;
  status_text = [];
  enhanced_session_available = true;
}

abbrev world_in : VmState → World
world_in s = record {
  vm = some (machine_in s);
  has_first_snapshot = true;
  now = 1000;
  measured = true;
  enhanced_pref = true;
  has_rdphost = true;
  has_elements = true;
}

abbrev busy : World
busy = world_in VmState.running

abbrev idle : World
idle = world_in VmState.off

abbrev drop : Event
drop = Event.drops busy busy true (codes "lost")

abbrev poll : Event
poll = Event.changes busy busy

abbrev timer : Event
timer = Event.reconnects busy busy

-- Three failed attempts, and the timer after each.
abbrev attempts : List Event
attempts = drop ∷ timer ∷ drop ∷ timer ∷ drop ∷ timer ∷ []

abbrev opened : List Event
opened =
    Event.loads busy
    ∷ Event.shows busy
    ∷ Event.connects busy true
    ∷ Event.suppresses busy true
    ∷ drop
    ∷ []

abbrev reached_tab : Tab
reached_tab = record new_tab {
  has_client = true;
  connected = true;
  ever_connected = true;
  wants_visible = true;
}

abbrev spawned_tab : Tab
spawned_tab = record new_tab { has_client = true; is_loaded = true }

abbrev failed_tab : Tab
failed_tab = record new_tab { had_connect_error = true; last_error_text = codes "lost" }

tab_run-IsProper_example : IsProper (tab_run opened new_tab)
tab_run-IsProper_example = tab_run-IsProper opened

run-failing_example :
    ((tab_run attempts spawned_tab).had_connect_error ≡ false)
    × ((tab_step drop (tab_run attempts spawned_tab)).had_connect_error ≡ true)
    × ((tab_step drop (tab_run attempts spawned_tab)).has_client ≡ false)
run-failing_example =
    run-failing attempts busy busy (codes "lost") spawned_tab
      (refl, (refl, (refl, (refl, (refl, (refl, tt)))))) refl refl (refl, refl, refl, refl)

run-stuck_example :
    ((tab_step poll (tab_run (poll ∷ []) failed_tab)).had_connect_error ≡ true)
    × ((tab_step poll (tab_run (poll ∷ []) failed_tab)).has_client ≡ false)
    × ((tab_step poll (tab_run (poll ∷ []) failed_tab)).view ≡ View.failure (codes "lost"))
run-stuck_example = run-stuck (poll ∷ []) poll failed_tab (refl, tt) refl refl refl

idle_start : has_start (update_placeholder_and_client idle new_tab).view ≡ true
unfolding update_placeholder_and_client with_machine not_running age_pending clear_error age_start
    tear_down_client show_placeholder shows_start
idle_start = refl
