-- ===== src/Tab/Runs.antt =====
-- The runs of a page: its handlers in any order.
pub mod Popup
pub mod Kept
pub mod Drops
pub mod Errors
use hyprv.Prelude.{ℕ, Bool, true, false, Option, none, some, List, [], ◌∷◌}
use hyprv.Prelude.Text.{Text}
use hyprv.Tab.{VmState, World, View, Tab}
use hyprv.Tab.Handlers.{
  show_popup, hide_popup, set_popup_suppressed, on_vm_manager_changed, do_reconnect,
  reapply_connection_settings, on_placeholder_start_click, on_placeholder_retry_click,
  show_connect_error, shutdown_client, resolve_deferred, on_loaded, on_connected, on_enhanced_ready,
  on_disconnected,
}

pub data Event : Type 0 where
  shows : World → Event
  hides : Event
  suppresses : World → Bool → Event
  changes : World → World → Event
  reconnects : World → World → Event
  reapplies : World → Event
  starts : World → Event
  retries : World → Event
  loads : World → Event
  resizes : Event
  connects : World → Bool → Event
  readies : Bool → Event
  drops : World → World → Bool → Text → Event
  fails : World → Text → Event
  shuts_down : Event

-- The timer fires once, if it is armed.
unfoldable pub tick : World → World → Tab → Tab
tick w w' t = elim t.reconnect_after [
  | none ↦ t
  | some delay ↦ do_reconnect w w' (record t { reconnect_after = none })
]

unfoldable pub tab_step : Event → Tab → Tab
tab_step (Event.shows w) t = show_popup w t
tab_step Event.hides t = hide_popup t
tab_step (Event.suppresses w b) t = set_popup_suppressed w b t
tab_step (Event.changes w w') t = on_vm_manager_changed w w' t
tab_step (Event.reconnects w w') t = tick w w' t
tab_step (Event.reapplies w) t = reapply_connection_settings w t
tab_step (Event.starts w) t = on_placeholder_start_click w t
tab_step (Event.retries w) t = on_placeholder_retry_click w t
tab_step (Event.loads w) t = on_loaded w t
tab_step Event.resizes t = resolve_deferred t
tab_step (Event.connects w enhanced) t = on_connected w enhanced t
tab_step (Event.readies r) t = on_enhanced_ready r t
tab_step (Event.drops w w' fatal detail) t = on_disconnected w w' fatal detail t
tab_step (Event.fails w detail) t = show_connect_error w detail t
tab_step Event.shuts_down t = shutdown_client t

unfoldable pub tab_run : List Event → Tab → Tab
tab_run [] t = t
tab_run (e ∷ es) t = tab_run es (tab_step e t)

-- A page with its window set, before anything happens.
abbrev pub new_tab : Tab
new_tab = record {
  has_client = false;
  popup_shown = false;
  has_window = true;
  is_loaded = false;
  connected = false;
  wants_visible = false;
  deferred_show = false;
  popup_suppressed = false;
  start_requested = false;
  start_requested_at = 0;
  pending_connect = false;
  pending_connect_at = 0;
  had_connect_error = false;
  last_error_text = [];
  connect_failures = 0;
  ever_connected = false;
  ever_enhanced = false;
  wanted_enhanced = false;
  enhanced_ready = false;
  enhanced_cooldown_until = 0;
  last_state = VmState.unknown;
  reconnect_after = none;
  vm_name = [];
  view = View.live;
}
