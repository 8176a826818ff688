-- ===== src/Tab/Handlers.antt =====
-- The handlers of the page. A handler that reads the machine twice takes two worlds.
use hyprv.Prelude.{
  ℕ, suc, ◌+◌, Bool, true, false, not, ◌&&◌, ◌||◌, none, some, [], ltb, leb, if◌then◌else◌,
  is_empty,
}
use hyprv.Prelude.Text.{Text, codes}
use hyprv.Tab.{
  VmState, World, View, Tab, show_client, hide_client, tear_down_client, render_error_placeholder,
  running_in, available_in, name_in, name_of, update_placeholder_and_client,
}

abbrev pub max_connect_failures : ℕ
max_connect_failures = 4

abbrev pub header_of : World → Text
header_of w = elim w.vm [
  | none ↦ if w.has_first_snapshot then codes "(missing VM)" else codes "Loading..."
  | some vm ↦ name_of vm
]

unfoldable pub update_vm_tab_header : World → Tab → Tab
update_vm_tab_header w t = if w.has_elements then record t { vm_name = header_of w } else t

unfoldable pub show_popup : World → Tab → Tab
show_popup w t =
    let wanted = record t { wants_visible = true } in
    if t.popup_suppressed
    then wanted
    else if not t.has_client || not t.connected
    then wanted
    else if w.measured
    then record (show_client wanted) { deferred_show = false }
    else record wanted { deferred_show = true }

unfoldable pub hide_popup : Tab → Tab
hide_popup t = hide_client (record t { wants_visible = false; deferred_show = false })

unfoldable pub set_popup_suppressed : World → Bool → Tab → Tab
set_popup_suppressed w suppressed t =
    let marked = record t { popup_suppressed = suppressed } in
    if suppressed
    then hide_client marked
    else if t.wants_visible
    then show_popup w marked
    else marked

-- The timer is armed again by every call, with the last delay.
unfoldable pub schedule_reconnect : ℕ → Tab → Tab
schedule_reconnect delay t = record t { reconnect_after = some delay }

unfoldable pub on_vm_manager_changed : World → World → Tab → Tab
on_vm_manager_changed w w' t =
    let named = update_vm_tab_header w t in
    let upgrades =
      t.has_client
      && t.connected
      && not t.wanted_enhanced
      && running_in w.vm
      && available_in w.vm
      && not (ltb w.now t.enhanced_cooldown_until)
      && w.enhanced_pref in
    update_placeholder_and_client w' (if upgrades then schedule_reconnect 250 named else named)

unfoldable pub respawn : World → Tab → Tab
respawn w t =
    update_placeholder_and_client w (record (tear_down_client t) { last_state = VmState.unknown })

unfoldable pub do_reconnect : World → World → Tab → Tab
do_reconnect w w' t =
    if not (running_in w.vm) && not t.pending_connect
    then update_placeholder_and_client w' t
    else respawn w' t

unfoldable pub reapply_connection_settings : World → Tab → Tab
reapply_connection_settings w t = if t.has_client then respawn w t else t

abbrev acknowledged : View → View
acknowledged (View.status line hint start spinner) =
    View.status (codes "Starting...") [] false spinner
acknowledged (View.failure detail) = View.status (codes "Starting...") [] false false
acknowledged View.live = View.live

-- The request to start the machine goes to the management service.
unfoldable pub on_placeholder_start_click : World → Tab → Tab
on_placeholder_start_click w t = update_placeholder_and_client w record t {
  start_requested = true;
  start_requested_at = w.now;
  pending_connect = true;
  pending_connect_at = w.now;
  had_connect_error = false;
  connect_failures = 0;
  last_error_text = [];
  view = acknowledged t.view;
}

unfoldable pub on_placeholder_retry_click : World → Tab → Tab
on_placeholder_retry_click w t = update_placeholder_and_client w record t {
  had_connect_error = false;
  connect_failures = 0;
  last_error_text = [];
  last_state = VmState.unknown;
}

unfoldable pub show_connect_error : World → Text → Tab → Tab
show_connect_error w detail t =
    let kept = if is_empty detail then t.last_error_text else detail in
    let told = if is_empty kept then codes "The remote session was disconnected." else kept in
    render_error_placeholder w (name_in w.vm)
      (tear_down_client (record t { had_connect_error = true; last_error_text = told }))

unfoldable pub shutdown_client : Tab → Tab
shutdown_client t = if t.has_client then record t { has_client = false; popup_shown = false } else t

-- The test that `OnLoaded` and `OnRdpHostSizeChanged` make for a show that was put off.
unfoldable pub resolve_deferred : Tab → Tab
resolve_deferred t =
    if t.has_client && t.wants_visible && t.connected && t.deferred_show && not t.popup_suppressed
    then record (show_client t) { deferred_show = false }
    else t

unfoldable pub on_loaded : World → Tab → Tab
on_loaded w t =
    if t.is_loaded
    then t
    else resolve_deferred
        (update_placeholder_and_client w (update_vm_tab_header w (record t { is_loaded = true })))

unfoldable pub on_connected : World → Bool → Tab → Tab
on_connected w enhanced t =
    let updated = update_placeholder_and_client w record t {
      connected = true;
      ever_connected = true;
      ever_enhanced = t.ever_enhanced || enhanced;
      connect_failures = 0;
      had_connect_error = false;
    } in
    if updated.wants_visible && updated.has_client && not updated.popup_suppressed
    then show_client updated
    else updated

unfoldable pub on_enhanced_ready : Bool → Tab → Tab
on_enhanced_ready r t = if r then record t { enhanced_ready = true; ever_enhanced = true } else t

-- The gate and the back-off, before the page decides what to do next.
unfoldable pub after_drop : World → Tab → Tab
after_drop w t = hide_client record t {
  connected = false;
  enhanced_ready = false;
  enhanced_cooldown_until =
      if t.wanted_enhanced && not t.enhanced_ready && not t.ever_enhanced
      then 20000 + w.now
      else t.enhanced_cooldown_until;
}

abbrev pub reconnect_delay : Tab → ℕ
reconnect_delay t = if t.wanted_enhanced then 2000 else 700

unfoldable pub on_disconnected : World → World → Bool → Text → Tab → Tab
on_disconnected w w' fatal detail t =
    let dropped = after_drop w t in
    if running_in w.vm
    then (if t.connected || t.ever_connected
        then schedule_reconnect (reconnect_delay t) (record dropped { connect_failures = 0 })
        else (let failures = if fatal then suc t.connect_failures else t.connect_failures in
            let counted = record dropped { connect_failures = failures } in
            if fatal && leb max_connect_failures failures
            then show_connect_error w' detail counted
            else schedule_reconnect (reconnect_delay t) counted))
    else if t.pending_connect
    then schedule_reconnect 700 dropped
    else update_placeholder_and_client w' dropped
