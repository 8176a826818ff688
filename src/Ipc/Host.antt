-- ===== src/Ipc/Host.antt =====
-- The child's handling of commands: `ExtractRdpStrings` and `DispatchIpcMessage` in
-- src/rdphost/main.cpp. A handler that does nothing is `none`.
pub mod Commands
use hyprv.Prelude.{
  ℕ, ◌+◌, Bool, true, false, not, Option, none, some, List, [], ◌>>=◌, ◌==◌, ltb, if◌then◌else◌,
  length, take, drop,
}
use hyprv.Ipc.Codec.{size_of}
use hyprv.Ipc.Header.{Layout, P2C, p2c_of_byte}
use hyprv.Ipc.Commands.{
  RdpOptions, rdp_options_layout, ConnectLocalVm, connect_local_vm_layout,
  UpdateSessionDisplaySettings, update_session_display_settings_layout, SetEnhanced,
  set_enhanced_layout,
}
use hyprv.Ipc.Structs.{decode}
use hyprv.Ipc.Frames.{Message}

-- The server, domain and user bytes.
pub record RdpStrings : Type 0 where
  pub server : List ℕ
  pub domain : List ℕ
  pub user : List ℕ

-- The three lengths are `uint32_t`, and their sum is a `size_t`, so it does not wrap.
unfoldable pub extract_rdp_strings : RdpOptions → List ℕ → RdpStrings
extract_rdp_strings o extra =
    if ltb (length extra) (o.server_byte_len + o.domain_byte_len + o.user_byte_len)
    then record { server = []; domain = []; user = [] }
    else record {
      server = take o.server_byte_len extra;
      domain = take o.domain_byte_len (drop o.server_byte_len extra);
      user = take o.user_byte_len (drop (o.server_byte_len + o.domain_byte_len) extra);
    }

-- The calls of `g_host`, and `PostQuitMessage`.
pub data HostCall : Type 0 where
  on_connect : RdpOptions → RdpStrings → HostCall
  on_connect_local_vm : ConnectLocalVm → List ℕ → List ℕ → HostCall
  on_disconnect : HostCall
  post_quit_message : ℕ → HostCall
  on_update_session_display_settings : UpdateSessionDisplaySettings → HostCall
  on_set_enhanced : Bool → HostCall
  on_send_ctrl_alt_del : HostCall

-- `if (size < sizeof(T)) break;` and the `memcpy`.
unfoldable pub payload_struct {ℓ} : {A : Type ℓ} ⦃l : Layout A⦄ → List ℕ → Option A
payload_struct ⦃l⦄ payload =
    if ltb (length payload) (size_of l.widths) then none else decode payload

connect_call : List ℕ → Option HostCall
connect_call payload = do
  cmd ← payload_struct {A = RdpOptions} payload
  some (on_connect cmd (extract_rdp_strings cmd (drop 28 payload)))

connect_local_vm_call : List ℕ → Option HostCall
connect_local_vm_call payload = do
  cmd ← payload_struct {A = ConnectLocalVm} payload
  let texts = extract_rdp_strings cmd.options (drop 44 payload)
  some (on_connect_local_vm cmd texts.server texts.domain)

unfoldable pub call_of : P2C → List ℕ → Option HostCall
unfolding connect_call connect_local_vm_call
call_of P2C.connect payload = connect_call payload
call_of P2C.connect_local_vm payload = connect_local_vm_call payload
call_of P2C.disconnect payload = some on_disconnect
call_of P2C.shutdown payload = some (post_quit_message 0)
call_of P2C.update_session_display_settings payload = do
  cmd ← payload_struct payload
  some (on_update_session_display_settings cmd)
call_of P2C.set_enhanced payload = do
  cmd ← payload_struct {A = SetEnhanced} payload
  some (on_set_enhanced (not (cmd.enabled == 0)))
call_of P2C.send_ctrl_alt_del payload = some on_send_ctrl_alt_del
call_of P2C.resize payload = none
call_of P2C.type_text payload = none
call_of P2C.hello payload = none

-- `has_host` is `g_host != nullptr`.
unfoldable pub dispatch_ipc_message : Bool → Message → Option HostCall
dispatch_ipc_message has_host m =
    if has_host then (do t ← p2c_of_byte m.header.kind; call_of t m.payload) else none
