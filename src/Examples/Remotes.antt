-- ===== src/Examples/Remotes.antt =====
-- Concrete runs of the theorems on the page of a remote host.
use hyprv.Prelude.{◌≤◌, ◌<◌, ◌≡◌, refl, true, ◌||◌, none, some, List, [], ◌∷◌}
use hyprv.Prelude.Text.{codes}
use hyprv.Settings.Options.{default_options}
use hyprv.Settings.RemoteHosts.{RemoteHost}
use hyprv.Remote.Options.{wire_options}
use hyprv.Remote.Options.Laws.{wire_options_bounds}
use hyprv.Remote.{
  Surroundings, hidden, RemoteTab, start_connection, connect_client, render_placeholder,
  show_client, update_rdphost_bounds, resolve_deferred, show_popup, on_loaded, resized_session,
  on_connected, on_child_exited,
}
use hyprv.Remote.Sound.{may_show, attended}
use hyprv.Remote.Runs.{RemoteEvent, remote_step, remote_run, new_remote_tab}
use hyprv.Remote.Runs.Whole.{remote_run-IsSound}
use hyprv.Remote.Runs.Exit.{remote_run-exited}

abbrev host : RemoteHost
host = record {
  name = [];
  address = codes "srv";
  username = [];
  domain = [];
  port = 0;
  rdp = default_options;
}

abbrev around : Surroundings
around = record {
  host = some host;
  border = some (record { width = 1600; height = 900 });
  has_rdphost = true;
  starts = true;
  dpi = 96;
  has_elements = true;
}

-- The tab is selected, loads and connects.
abbrev live : List (Surroundings × RemoteEvent)
live =
    (around, RemoteEvent.shows)
    ∷ (around, RemoteEvent.loads)
    ∷ (around, RemoteEvent.connects 1600 900)
    ∷ []

abbrev after_live : RemoteTab
after_live = remote_run live (new_remote_tab (codes "srv") true)

live_shown : after_live.popup_shown ≡ true
unfolding remote_run remote_step show_popup on_loaded start_connection connect_client
    render_placeholder update_rdphost_bounds resolve_deferred on_connected resized_session
    show_client
live_shown = refl

live_hidden : after_live.placeholder ≡ hidden
unfolding remote_run remote_step show_popup on_loaded start_connection connect_client
    render_placeholder update_rdphost_bounds resolve_deferred on_connected resized_session
    show_client
live_hidden = refl

remote_run-IsSound_example :
    (after_live.popup_shown ≡ true → may_show after_live ≡ true)
    × ((after_live.is_loaded || after_live.has_client) ≡ true → attended after_live ≡ true)
remote_run-IsSound_example = remote_run-IsSound live (codes "srv") true (refl, (refl, (refl, tt)))

abbrev selections : List (Surroundings × RemoteEvent)
selections = (around, RemoteEvent.hides) ∷ (around, RemoteEvent.shows) ∷ []

remote_run-exited_example :
    (remote_run selections (on_child_exited after_live)).placeholder ≡ hidden
remote_run-exited_example = remote_run-exited selections after_live (tt, (tt, tt)) live_hidden

wire_options_bounds_example :
    (0 < (wire_options host none 96).desktop_width)
    × ((wire_options host none 96).desktop_width ≤ 65535)
    × (0 < (wire_options host none 96).desktop_height)
    × ((wire_options host none 96).desktop_height ≤ 65535)
    × (0 < (wire_options host none 96).port)
wire_options_bounds_example = wire_options_bounds host none 96
