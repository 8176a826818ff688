-- ===== src/Remote/Options.antt =====
-- The options with which the page of a remote host connects, and the size of the child's window.
pub mod Laws
use hyprv.Prelude.{ℕ, ◌+◌, ◌*◌, ◌/◌, ◌%◌, ◌^◌, Bool, Option, none, some, ltb, ◌==◌, if◌then◌else◌}
use Prim.Native.Nat.{bit_or}
use hyprv.Settings.Options.{AudioMode}
use hyprv.Settings.RemoteHosts.{RemoteHost}
use hyprv.Ipc.Commands

-- A width and a height in pixels.
pub record Size : Type 0 where
  pub width : ℕ
  pub height : ℕ

-- `static_cast<uint8_t>` of the mode.
unfoldable pub audio_byte : AudioMode → ℕ
audio_byte AudioMode.redirect = 0
audio_byte AudioMode.play_on_server = 1
audio_byte AudioMode.none = 2

abbrev pub or_if : Bool → ℕ → ℕ → ℕ
or_if b flag flags = if b then bit_or flags flag else flags

unfoldable pub redirection_flags : Bool → Bool → Bool → Bool → Bool → Bool → ℕ
redirection_flags clipboard drives devices cards ports capture = or_if capture 4096 (
    or_if ports 1024
      (or_if cards 2048 (or_if devices 512 (or_if drives 256 (or_if clipboard 128 0)))))

-- The border's extent if it is measured, else the saved one; 1024 or 768 for none, 65535 at most.
unfoldable pub desktop_extent : Option ℕ → ℕ → ℕ → ℕ
desktop_extent measured saved fallback =
    let wanted : ℕ = elim measured [
      | none ↦ saved
      | some extent ↦ if ltb 0 extent then extent else saved
    ] in
    let usable = if wanted == 0 then fallback else wanted in
    if ltb 65535 usable then 65535 else usable

abbrev pub width_of : Option Size → Option ℕ
width_of none = none
width_of (some b) = some b.width

abbrev pub height_of : Option Size → Option ℕ
height_of none = none
height_of (some b) = some b.height

unfoldable pub wire_options : RemoteHost → Option Size → ℕ → Commands.RdpOptions
wire_options host border dpi = record {
  port = if host.port == 0 then 3389 else host.port;
  desktop_width = desktop_extent (width_of border) host.rdp.initial_desktop_width 1024;
  desktop_height = desktop_extent (height_of border) host.rdp.initial_desktop_height 768;
  color_depth = host.rdp.color_depth;
  flags =
      redirection_flags host.rdp.redirect_clipboard host.rdp.redirect_drives
        host.rdp.redirect_devices host.rdp.redirect_smart_cards host.rdp.redirect_ports
        host.rdp.audio_capture_redirect;
  audio_mode = audio_byte host.rdp.audio_mode;
  dpi_scale_percent =
      if host.rdp.dpi_scale_override_percent == 0
      then (dpi * 100 + 48) % 2 ^ 32 / 96 % 2 ^ 16
      else host.rdp.dpi_scale_override_percent;
  reserved = 0;
  server_byte_len = 0;
  domain_byte_len = 0;
  user_byte_len = 0;
}

abbrev pub capped : ℕ → ℕ → ℕ
capped extent limit = if ltb limit extent then limit else extent

-- The window's size within the border.
unfoldable pub fitted : Size → Size → Size
fitted session border = record {
  width = capped (if session.width == 0 then 1024 else session.width) border.width;
  height = capped (if session.height == 0 then 768 else session.height) border.height;
}
