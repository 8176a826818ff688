-- ===== src/Remote.antt =====
-- The page of a remote host's tab, src/app/RemoteHostTabPage.xaml.cpp and .h: when it spawns and ends the child
-- process, when the child's window is shown, and what the placeholder says and offers. The log, the
-- brushes, the glyphs and the position of the child's window are left out; its size is kept.
pub mod Options
pub mod Sound
pub mod Runs
use hyprv.Prelude.{
  ℕ, Bool, true, false, not, ◌&&◌, ◌||◌, suc, ◌++◌, ◌==◌, Option, none, some, List, [], ◌∷◌, ltb,
  if◌then◌else◌, is_empty,
}
use hyprv.Prelude.Text.{Text, codes}
use hyprv.Settings.RemoteHosts.{RemoteHost}
use hyprv.Ipc.Commands
use hyprv.Vm.Interval.{decimal}
use hyprv.Remote.Options.{Size, wire_options, fitted}

-- What a handler finds: the saved host of the page's address, the size of the border if it is measured,
-- whether the child's program is there and whether it starts, the dots per inch of the window, and
-- whether the placeholder's elements are there.
pub record Surroundings : Type 0 where
  pub host : Option RemoteHost
  pub border : Option Size
  pub has_rdphost : Bool
  pub starts : Bool
  pub dpi : ℕ
  pub has_elements : Bool

-- State, hint, label of the button (none if empty), spinner, error; or nothing over a live session.
pub data Placeholder : Type 0 where
  hidden : Placeholder
  told : Text → Text → Text → Bool → Bool → Placeholder

-- `has_client` is that `m_client` is there, `popup_shown` the last of its `Show` and `Hide`, `popup` the
-- size that it was last given.
pub record RemoteTab : Type 0 where
  pub address : Text
  pub display_name : Text
  pub has_client : Bool
  pub popup_shown : Bool
  pub popup : Option Size
  pub has_window : Bool
  pub is_loaded : Bool
  pub connected : Bool
  pub wants_visible : Bool
  pub deferred_show : Bool
  pub popup_suppressed : Bool
  pub connecting : Bool
  pub auto_connect : Bool
  pub had_connect_error : Bool
  pub last_error_text : Text
  pub session : Size
  pub placeholder : Placeholder

abbrev pub named : RemoteHost → Text
named host = if is_empty host.name then host.address else host.name

unfoldable pub show_client : RemoteTab → RemoteTab
show_client t = record t { popup_shown = t.has_client }

unfoldable pub hide_client : RemoteTab → RemoteTab
hide_client t = record t { popup_shown = false }

unfoldable pub update_rdphost_bounds : Surroundings → RemoteTab → RemoteTab
update_rdphost_bounds w t = elim w.border [
  | none ↦ t
  | some b ↦ if t.has_client then record t { popup = some (fitted t.session b) } else t
]

unfoldable pub render_placeholder : Surroundings → Placeholder → RemoteTab → RemoteTab
render_placeholder w p t = if w.has_elements then record t { placeholder = p } else t

abbrev pub connecting_placeholder : Placeholder
connecting_placeholder = told (codes "Connecting…") [] [] true false

abbrev pub disconnected_placeholder : Text → Bool → Placeholder
disconnected_placeholder detail is_error =
    told (if is_error then codes "Connection failed" else codes "Disconnected") detail
      (if is_error then codes "Retry" else codes "Reconnect") false is_error

abbrev pub idle_placeholder : Placeholder
idle_placeholder =
    told (codes "Not connected") (codes "Click Connect to start the remote session.")
      (codes "Connect") false false

unfoldable pub show_failure : Surroundings → Text → RemoteTab → RemoteTab
show_failure w text t =
    render_placeholder w (disconnected_placeholder text true)
      (record t { had_connect_error = true; last_error_text = text })

unfoldable pub tear_down_client : RemoteTab → RemoteTab
tear_down_client t =
    if t.has_client
    then record t {
      has_client = false;
      popup_shown = false;
      popup = none;
      connected = false;
      deferred_show = false;
    }
    else t

abbrev pub session_of : Commands.RdpOptions → Size
session_of o = record { width = o.desktop_width; height = o.desktop_height }

-- The border that the window is fitted into, before it is measured the session's own size.
abbrev pub border_or : Size → Option Size → Size
border_or s none = s
border_or s (some b) = b

-- `Connect`: the child starts, or the client goes again.
unfoldable pub connect_client : Surroundings → Size → RemoteTab → RemoteTab
connect_client w session t =
    let begun = render_placeholder w connecting_placeholder (record t {
      has_client = true;
      popup_shown = false;
      popup = some (fitted session (border_or session w.border));
      session = session;
      connecting = true;
      had_connect_error = false;
    }) in
    if w.starts
    then begun
    else show_failure w (codes "Couldn't start the remote session host.")
        (record begun { has_client = false; popup = none; connecting = false })

unfoldable pub start_connection : Surroundings → RemoteTab → RemoteTab
start_connection w t = if t.has_client then t else if not t.has_window then t else elim w.host [
  | none ↦ show_failure w (codes "This remote host is no longer in your saved list.") t
  | some host ↦
      let known = record t { display_name = named host } in
      if not w.has_rdphost
      then show_failure w (codes "hyprv-rdphost.exe was not found next to hyprv.exe.") known
      else connect_client w (session_of (wire_options host w.border w.dpi)) known
]

unfoldable pub show_popup : Surroundings → RemoteTab → RemoteTab
show_popup w t =
    let wanted = record t { wants_visible = true } in
    if t.popup_suppressed
    then wanted
    else if not t.has_client || not t.connected
    then wanted
    else elim w.border [
      | none ↦ record wanted { deferred_show = true }
      | some b ↦ record (show_client (update_rdphost_bounds w wanted)) { deferred_show = false }
    ]

unfoldable pub hide_popup : RemoteTab → RemoteTab
hide_popup t = hide_client (record t { wants_visible = false; deferred_show = false })

unfoldable pub set_popup_suppressed : Surroundings → Bool → RemoteTab → RemoteTab
set_popup_suppressed w suppressed t =
    let marked = record t { popup_suppressed = suppressed } in
    if suppressed
    then hide_client marked
    else if t.wants_visible
    then show_popup w marked
    else marked

unfoldable pub shutdown_client : RemoteTab → RemoteTab
shutdown_client t =
    if t.has_client then record t { has_client = false; popup_shown = false; popup = none } else t

-- The test that `OnLoaded` and `OnRdpHostSizeChanged` make for a show that was put off.
unfoldable pub resolve_deferred : RemoteTab → RemoteTab
resolve_deferred t =
    if t.has_client && t.wants_visible && t.connected && t.deferred_show && not t.popup_suppressed
    then record (show_client t) { deferred_show = false }
    else t

unfoldable pub on_loaded : Surroundings → RemoteTab → RemoteTab
on_loaded w t =
    if t.is_loaded
    then t
    else (let loaded = record t { is_loaded = true } in
        resolve_deferred (
          update_rdphost_bounds w (
            if t.auto_connect
            then start_connection w loaded
            else render_placeholder w idle_placeholder loaded)))

unfoldable pub on_rdp_host_size_changed : Surroundings → RemoteTab → RemoteTab
on_rdp_host_size_changed w t = resolve_deferred (update_rdphost_bounds w t)

-- A size of the desktop that the child reports.
unfoldable pub resized_session : ℕ → ℕ → RemoteTab → RemoteTab
resized_session width height t =
    if ltb 0 width && ltb 0 height
    then record t { session = record { width = width; height = height } }
    else t

unfoldable pub on_connected : Surroundings → ℕ → ℕ → RemoteTab → RemoteTab
on_connected w width height t =
    let up =
      resized_session width height
        record t { connected = true; connecting = false; had_connect_error = false } in
    let clear = if w.has_elements then record up { placeholder = hidden } else up in
    if clear.wants_visible && clear.has_client && not clear.popup_suppressed
    then show_client (update_rdphost_bounds w clear)
    else clear

unfoldable pub on_desktop_resized : Surroundings → ℕ → ℕ → RemoteTab → RemoteTab
on_desktop_resized w width height t =
    if ltb 0 width && ltb 0 height
    then update_rdphost_bounds w (resized_session width height t)
    else t

unfoldable pub on_disconnected : Surroundings → Text → RemoteTab → RemoteTab
on_disconnected w desc t =
    let down = hide_client (record t { connected = false; connecting = false }) in
    if t.connected
    then render_placeholder w (disconnected_placeholder [] false)
        (record down { had_connect_error = false; last_error_text = [] })
    else show_failure w
        (if is_empty desc then codes "Couldn't connect to the remote host." else desc) down

-- The text for an error code; `std::format` writes the digits of an unknown one.
unfoldable pub error_text : ℕ → Text
error_text code =
    if code == 2
    then codes "The session host couldn't start the connection to this host."
    else if code == 3
    then codes "An internal protocol error occurred between hyprv and its session host."
    else codes "The remote session reported an error (code " ++ decimal (suc code) code (codes ").")

unfoldable pub on_error : Surroundings → ℕ → RemoteTab → RemoteTab
on_error w code t = show_failure w (error_text code) (record t { connecting = false })

-- The end of the child's process is only logged.
unfoldable pub on_child_exited : RemoteTab → RemoteTab
on_child_exited t = t

unfoldable pub on_placeholder_action_click : Surroundings → RemoteTab → RemoteTab
on_placeholder_action_click w t =
    start_connection w
      (tear_down_client (record t { had_connect_error = false; last_error_text = [] }))

unfoldable pub reapply_connection_settings : Surroundings → RemoteTab → RemoteTab
reapply_connection_settings w t =
    if t.has_client
    then start_connection w
        (tear_down_client (record t { had_connect_error = false; last_error_text = [] }))
    else t
