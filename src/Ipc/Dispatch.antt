-- ===== src/Ipc/Dispatch.antt =====
-- The parent's handling of what the child reports: `Impl::DispatchEvent` in
-- src/app/rdp/RdpHostClient.cpp. `widen` is `MultiByteToWideChar` on bytes that are not empty, with the
-- empty text where it returns no length. A callback that is not hooked up, and a payload shorter
-- than its struct, do nothing: `none`.
pub mod Reports
use hyprv.Prelude.{
  ℕ, ◌+◌, ◌-◌, Bool, true, false, not, ◌&&◌, Option, none, some, List, [], ◌>>=◌, ◌==◌, leb, ltb,
  if◌then◌else◌, length, take, drop, is_empty,
}
use hyprv.Prelude.Text.{Text}
use hyprv.Prelude.Int.{ℤ, of_word}
use hyprv.Ipc.Codec.{size_of}
use hyprv.Ipc.Header.{Layout, C2P, c2p_of_byte}
use hyprv.Ipc.Events.{
  Connected, connected_layout, EnhancedReady, enhanced_ready_layout, Disconnected,
  disconnected_layout, DesktopResized, desktop_resized_layout, RdpError, rdp_error_layout, LogLine,
  log_line_layout,
}
use hyprv.Ipc.Structs.{decode}
use hyprv.Ipc.Frames.{Message}

-- Which of the owner's callbacks are set.
pub record Hooks : Type 0 where
  pub connecting : Bool
  pub connected : Bool
  pub enhanced_ready : Bool
  pub disconnected : Bool
  pub desktop_resized : Bool
  pub error : Bool

pub record DisconnectedInfo : Type 0 where
  pub disc_reason : ℤ
  pub extended_reason : ℤ
  pub fatal : Bool
  pub description : Text

-- The calls that `DispatchEvent` makes, a line written to the log among them.
pub data Callback : Type 0 where
  connecting : Callback
  connected : Bool → ℕ → ℕ → Callback
  enhanced_ready : Bool → Callback
  disconnected : DisconnectedInfo → Callback
  desktop_resized : ℕ → ℕ → Callback
  error : ℕ → Callback
  log : Text → Callback

-- `payload.size() >= sizeof(T) && hook`, and the `memcpy`.
unfoldable pub event_struct {ℓ} : {A : Type ℓ} ⦃l : Layout A⦄ → Bool → List ℕ → Option A
event_struct ⦃l⦄ hook payload =
    if leb (size_of l.widths) (length payload) && hook then decode payload else none

-- `nb`: the announced length, but no more than is there.
unfoldable pub clamped_bytes : ℕ → List ℕ → List ℕ
clamped_bytes announced rest =
    take (if leb announced (length rest) then announced else length rest) rest

module _ (widen : List ℕ → Text) where
  unfoldable pub describe : List ℕ → Text
  describe bytes = if ltb 0 (length bytes) then widen bytes else []

  unfoldable pub disconnected_info : Disconnected → List ℕ → DisconnectedInfo
  disconnected_info d rest = record {
    disc_reason = of_word d.disc_reason;
    extended_reason = of_word d.extended_reason;
    fatal = not (d.fatal == 0);
    description = describe (clamped_bytes d.desc_byte_len rest);
  }

  log_call : LogLine → List ℕ → Option Callback
  unfolding clamped_bytes describe
  log_call l rest =
      let text = describe (clamped_bytes l.byte_len rest) in
      if is_empty text then none else some (log text)

  unfoldable pub event_of : Hooks → C2P → List ℕ → Option Callback
  unfolding log_call
  event_of hooks C2P.connecting payload = if hooks.connecting then some connecting else none
  event_of hooks C2P.connected payload = do
    c ← event_struct {A = Connected} hooks.connected payload
    some (connected (not (c.enhanced_active == 0)) c.desktop_width c.desktop_height)
  event_of hooks C2P.enhanced_ready payload = do
    e ← event_struct {A = EnhancedReady} hooks.enhanced_ready payload
    some (enhanced_ready (not (e.ready == 0)))
  event_of hooks C2P.disconnected payload = do
    d ← event_struct {A = Disconnected} hooks.disconnected payload
    some (disconnected (disconnected_info d (drop 16 payload)))
  event_of hooks C2P.desktop_resized payload = do
    r ← event_struct {A = DesktopResized} hooks.desktop_resized payload
    some (desktop_resized r.width r.height)
  event_of hooks C2P.error payload = do
    e ← event_struct {A = RdpError} hooks.error payload
    some (error e.code)
  event_of hooks C2P.log_line payload = do
    l ← event_struct {A = LogLine} true payload
    log_call l (drop 8 payload)
  event_of hooks C2P.hello_ack payload = none
  event_of hooks C2P.hwnd_ready payload = none
  event_of hooks C2P.mouse_activated payload = none

  -- `owner` is the hooks of the owner, if there is one.
  unfoldable pub dispatch_event : Option Hooks → Message → Option Callback
  dispatch_event owner m = do
    hooks ← owner
    t ← c2p_of_byte m.header.kind
    event_of hooks t m.payload
