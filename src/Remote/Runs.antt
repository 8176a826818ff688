-- ===== src/Remote/Runs.antt =====
-- The runs of a remote host's page: its handlers in any order.
pub mod Steps
pub mod Exit
pub mod Whole
use hyprv.Prelude.{
  ℕ, ◌≡◌, refl, sym, subst, ◌∙◌, Bool, true, false, not, ◌&&◌, ◌||◌, Option, none, some, List, [],
  ◌∷◌, if◌then◌else◌, arith, All, is_empty, ltb,
}
use hyprv.Prelude.Text.{Text, codes}
use hyprv.Settings.RemoteHosts.{RemoteHost}
use hyprv.Remote.Options.{Size}
use hyprv.Remote.{
  Surroundings, Placeholder, hidden, told, RemoteTab, show_client, update_rdphost_bounds,
  render_placeholder, idle_placeholder, disconnected_placeholder, show_failure, tear_down_client,
  start_connection, show_popup, hide_popup, hide_client, set_popup_suppressed, shutdown_client,
  resolve_deferred, on_loaded, on_rdp_host_size_changed, resized_session, on_connected,
  on_desktop_resized, on_disconnected, error_text, on_error, on_child_exited,
  on_placeholder_action_click, reapply_connection_settings,
}
use hyprv.Remote.Sound.{
  may_show, attended, IsSound, if-IsSound, if_then-IsSound, bounds-IsSound, bounds_may_show,
  show-IsSound, hide-IsSound, resolve-IsSound, IsIdle, IsSound-IsIdle, failure-IsSound, rendered,
  start-IsSound, start_again,
}

-- Events with what the handler finds; from `connects` on they come from the child.
pub data RemoteEvent : Type 0 where
  shows : RemoteEvent
  hides : RemoteEvent
  suppresses : Bool → RemoteEvent
  loads : RemoteEvent
  resizes : RemoteEvent
  acts : RemoteEvent
  reapplies : RemoteEvent
  shuts_down : RemoteEvent
  connects : ℕ → ℕ → RemoteEvent
  desktop_resizes : ℕ → ℕ → RemoteEvent
  disconnects : Text → RemoteEvent
  fails : ℕ → RemoteEvent
  exits : RemoteEvent

unfoldable pub remote_step : Surroundings × RemoteEvent → RemoteTab → RemoteTab
remote_step (w, RemoteEvent.shows) t = show_popup w t
remote_step (w, RemoteEvent.hides) t = hide_popup t
remote_step (w, RemoteEvent.suppresses b) t = set_popup_suppressed w b t
remote_step (w, RemoteEvent.loads) t = on_loaded w t
remote_step (w, RemoteEvent.resizes) t = on_rdp_host_size_changed w t
remote_step (w, RemoteEvent.acts) t = on_placeholder_action_click w t
remote_step (w, RemoteEvent.reapplies) t = reapply_connection_settings w t
remote_step (w, RemoteEvent.shuts_down) t = shutdown_client t
remote_step (w, RemoteEvent.connects width height) t = on_connected w width height t
remote_step (w, RemoteEvent.desktop_resizes width height) t = on_desktop_resized w width height t
remote_step (w, RemoteEvent.disconnects desc) t = on_disconnected w desc t
remote_step (w, RemoteEvent.fails code) t = on_error w code t
remote_step (w, RemoteEvent.exits) t = on_child_exited t

unfoldable pub remote_run : List (Surroundings × RemoteEvent) → RemoteTab → RemoteTab
remote_run [] t = t
remote_run (e ∷ es) t = remote_run es (remote_step e t)

-- A page of an address with its window set, before anything happens.
abbrev pub new_remote_tab : Text → Bool → RemoteTab
new_remote_tab address auto_connect = record {
  address = address;
  display_name = address;
  has_client = false;
  popup_shown = false;
  popup = none;
  has_window = true;
  is_loaded = false;
  connected = false;
  wants_visible = false;
  deferred_show = false;
  popup_suppressed = false;
  connecting = false;
  auto_connect = auto_connect;
  had_connect_error = false;
  last_error_text = [];
  session = record { width = 1024; height = 768 };
  placeholder = hidden;
}
