-- ===== src/Ipc/Notify.antt =====
-- What the child reports: the `OnEvAct...` callbacks of src/rdphost/RdpHost.cpp, each of which queues
-- one frame, and the log line of `HyprvLog` (src/rdphost/main.cpp). The control's own values (its desktop size, the extended reason, the error text in
-- UTF-8) are arguments.
use hyprv.Prelude.{
  ℕ, ◌%◌, ◌^◌, Bool, Option, none, some, List, [], ◌++◌, leb, if◌then◌else◌, length,
}
use hyprv.Prelude.Int.{ℤ, pos, to_word, ltb_ℤ}
use hyprv.Ipc.Header.{C2P, c2p_byte}
use hyprv.Ipc.Events.{
  Connected, connected_layout, EnhancedReady, enhanced_ready_layout, Disconnected,
  disconnected_layout, DesktopResized, desktop_resized_layout, rdp_error_layout, LogLine,
  log_line_layout,
}
use hyprv.Ipc.Structs.{encode}
use hyprv.Ipc.Frames.{Message, make_message}

unfoldable pub on_connecting : Message
on_connecting = make_message (c2p_byte C2P.connecting) []

-- A `long` cast to `uint32_t`.
unfoldable pub on_connected : Bool → ℤ → ℤ → Message
on_connected enhanced_active width height = make_message (c2p_byte C2P.connected) (
    encode {A = Connected} (record {
      enhanced_active = if enhanced_active then 1 else 0;
      reserved = 0;
      desktop_width = to_word width;
      desktop_height = to_word height;
    }))

unfoldable pub on_login_complete : Bool → Message
on_login_complete enhanced_active =
    make_message (c2p_byte C2P.enhanced_ready) (
      encode {A = EnhancedReady}
        (record { ready = if enhanced_active then 1 else 0; reserved = 0 }))

-- `discReason > 3`.
unfoldable pub is_fatal : ℤ → Bool
is_fatal disc_reason = ltb_ℤ (pos 3) disc_reason

-- The description is asked for only on a fatal reason.
unfoldable pub on_disconnected : ℤ → ℤ → List ℕ → Message
on_disconnected disc_reason extended description =
    let fatal = is_fatal disc_reason in
    let desc : List ℕ = if fatal then description else [] in
    make_message (c2p_byte C2P.disconnected) (
      encode {A = Disconnected} (record {
        disc_reason = to_word disc_reason;
        extended_reason = to_word extended;
        fatal = if fatal then 1 else 0;
        reserved = 0;
        desc_byte_len = length desc % 2 ^ 32;
      })
      ++ desc)

unfoldable pub on_desktop_size_change : ℤ → ℤ → Message
on_desktop_size_change w h =
    make_message (c2p_byte C2P.desktop_resized)
      (encode {A = DesktopResized} (record { width = to_word w; height = to_word h }))

-- `HyprvLog` (src/rdphost/main.cpp) once the logger is set: one frame for each line that converts to
-- some bytes.
unfoldable pub log_message : List ℕ → Option Message
log_message text =
    if leb (length text) 0
    then none
    else some (
        make_message (c2p_byte C2P.log_line) (
          encode {A = LogLine} (record { level = 1; reserved = 0; byte_len = length text % 2 ^ 32 })
          ++ text))
