-- ===== src/Examples/Sessions.antt =====
-- A session: the handshake, commands, reports and the geometry caches.
use hyprv.Prelude.{ℕ, ◌≡◌, ◌≢◌, refl, true, none, some, List, [], ◌∷◌, ◌++◌, arith, if◌then◌else◌}
use hyprv.Prelude.Text.{Text}
use hyprv.Prelude.Int.{pos}
use hyprv.Ipc.Header.{C2P, c2p_byte}
use hyprv.Ipc.Commands.{Hello, hello_layout, RdpOptions, rdp_options_layout}
use hyprv.Ipc.Events.{HelloAck, hello_ack_layout, HwndReady, hwnd_ready_layout}
use hyprv.Ipc.Frames.{Message, make_message}
use hyprv.Ipc.Handshake.{child_handshake, parent_handshake}
use hyprv.Ipc.Handshake.Session.{hello_frame, ack_frame}
use hyprv.Ipc.Handshake.Agreement.{
  opened, child_sent, verdict, has_three, child_handshake_lem, handshake_agrees,
}
use hyprv.Ipc.Dispatch.{Hooks}
use hyprv.Ipc.Sink.{Control}
use hyprv.Ipc.Geometry.{Rect, no_rect, Display, Call, connects, repositions, disconnects, updates}
use hyprv.Examples.{bursts, takes_all}

abbrev window : HwndReady
window = record { hwnd = 66000 }

abbrev child_end : List ℕ
child_end = (parent_handshake bursts takes_all [] opened).0.sent

abbrev parent_end : List ℕ
parent_end = child_sent bursts takes_all child_end window ++ (23 ∷ [])

handshake_agrees_example :
    (p' : List ℕ) × ((parent_handshake bursts takes_all parent_end opened).1 ≡ some (66000, p'))
    × (p' ≡ 23 ∷ [])
unfolding parent_handshake
handshake_agrees_example =
    handshake_agrees bursts takes_all parent_end child_end window (23 ∷ []) (λ sent buf. refl)
      (omega arith) (omega arith) refl refl

abbrev wide_hello : Hello
wide_hello = record { min_version = 2; max_version = 5; reserved = 0 }

child_handshake_lem_example :
    (p' : List ℕ) × (child_handshake bursts takes_all (hello_frame wide_hello ++ (19 ∷ [])) opened
      ≡ (
        record opened { sent = ack_frame (verdict (has_three wide_hello)) },
        if has_three wide_hello then some p' else none,
      ))
    × (p' ≡ 19 ∷ [])
child_handshake_lem_example =
    child_handshake_lem bursts takes_all wide_hello (19 ∷ []) (hello_frame wide_hello ++ (19 ∷ []))
      opened (omega arith) (λ sent buf. refl) refl refl

abbrev accepted : HelloAck
accepted = record { selected_version = 3; status = 0; reserved = 0 }

abbrev early_bytes : List ℕ
early_bytes = 1 ∷ 0 ∷ 0 ∷ 0 ∷ 1 ∷ 0 ∷ 0 ∷ 0 ∷ 65 ∷ []

abbrev early_log : Message
early_log = make_message (c2p_byte C2P.log_line) early_bytes

other_byte : early_log.header.kind ≢ c2p_byte C2P.hwnd_ready
unfolding make_message c2p_byte
other_byte e = absurd (omega arith)

-- A conversion of ASCII text.
abbrev plain : Text → List ℕ
plain t = t

abbrev session_options : RdpOptions
session_options = record {
  port = 3389;
  desktop_width = 1024;
  desktop_height = 768;
  color_depth = 32;
  flags = 1;
  audio_mode = 0;
  dpi_scale_percent = 150;
  reserved = 0;
  server_byte_len = 0;
  domain_byte_len = 0;
  user_byte_len = 0;
}

abbrev all_hooks : Hooks
all_hooks = record {
  connecting = true;
  connected = true;
  enhanced_ready = true;
  disconnected = true;
  desktop_resized = true;
  error = true;
}

abbrev control : Control
control = record {
  enhanced_active = true;
  desktop_width = pos 1024;
  desktop_height = pos 768;
  extended_reason = pos 0;
  error_description = λ reason. [];
}

abbrev pane : Rect
pane = record { sx = pos 10; sy = pos 20; w = pos 800; h = pos 600 }

abbrev screen : Display
screen = record { ds_w = 800; ds_h = 600; ds_dpi_x = 144 }

abbrev calls : List Call
calls = connects no_rect ∷ repositions pane ∷ updates true screen ∷ disconnects no_rect ∷ []
