-- ===== src/Ipc/Host/Commands.antt =====
-- The child does what the parent asked: each message of `RdpHostClient` through the child's
-- dispatch.
use hyprv.Prelude.{
  ℕ, ◌^◌, ◌<◌, ◌≡◌, refl, ap, ◌∙◌, true, some, List, [], ◌++◌, arith, ◌==◌, if◌then◌else◌,
  length-append,
}
use hyprv.Prelude.Text.{Text}
use mathlib.Core.Path.{ap₂}
use hyprv.Ipc.Header.{Layout, P2C, p2c_byte, p2c_of_byte-p2c_byte}
use hyprv.Ipc.Commands.{
  RdpOptions, rdp_options_layout, ConnectLocalVm, connect_local_vm_layout,
  update_session_display_settings_layout, set_enhanced_layout,
}
use hyprv.Ipc.Structs.{encode, InRange, length-encode, decode-encode, drop-encode}
use hyprv.Ipc.Frames.{make_message}
use hyprv.Ipc.Client.{localhost, local_vm_command, connect_local_vm_message}
use hyprv.Ipc.Host.{
  extract_rdp_strings, on_connect_local_vm, payload_struct, connect_local_vm_call, call_of,
  dispatch_ipc_message,
}

module _ {ℓ} {A : Type ℓ} ⦃l : Layout A⦄ where
  -- A payload that begins with a struct holds that struct.
  pub payload_struct-encode :
      (s : A) (rest : List ℕ) → InRange s → payload_struct (encode s ++ rest) ≡ some s
  unfolding payload_struct
  payload_struct-encode s rest h =
      let size = length-append (encode s) rest in
      ground (arith, size, length-encode s, decode-encode s rest h)

-- A frame with the type byte of a command gets to that command's handler.
dispatch-call_of :
    (t : P2C) (payload : List ℕ)
    → dispatch_ipc_message true (make_message (p2c_byte t) payload) ≡ call_of t payload
unfolding dispatch_ipc_message make_message
dispatch-call_of t payload = rw (p2c_of_byte-p2c_byte t)

localhost_strings :
    (o : RdpOptions)
    → o.server_byte_len ≡ 9
    → o.domain_byte_len ≡ 0
    → ((extract_rdp_strings o localhost).server ≡ (if o.user_byte_len == 0 then localhost else []))
      × ((extract_rdp_strings o localhost).domain ≡ [])
unfolding extract_rdp_strings
localhost_strings o e f = ground arith

connect_local_vm_call_of :
    (payload rest : List ℕ) (cmd : ConnectLocalVm)
    → payload ≡ encode cmd ++ rest
    → InRange cmd
    → connect_local_vm_call payload
      ≡ some (
          on_connect_local_vm cmd
            (extract_rdp_strings cmd.options rest).server
            (extract_rdp_strings cmd.options rest).domain)
unfolding connect_local_vm_call
connect_local_vm_call_of payload rest cmd e h =
    rw (e, payload_struct-encode cmd rest h)
      (ap
        (λ r. some (
          on_connect_local_vm cmd (extract_rdp_strings cmd.options r).server
            (extract_rdp_strings cmd.options r).domain))
        (drop-encode 44 cmd rest refl))

-- A console connection names the machine, the server "localhost" and no domain, provided that the
-- options it is made from announce no user name; if they do, the child takes no server name from
-- the frame. The identifier has 16 bytes and the options' fields are in range.
pub dispatch-connect_local_vm :
    (vm_guid : ℕ) (opts : RdpOptions)
    → vm_guid < 256 ^ 16
    → InRange opts
    → dispatch_ipc_message true (connect_local_vm_message vm_guid opts)
      ≡ some (
          on_connect_local_vm
            (local_vm_command vm_guid opts)
            (if opts.user_byte_len == 0 then localhost else [])
            [])
unfolding connect_local_vm_message local_vm_command call_of
dispatch-connect_local_vm vm_guid opts g h =
    let cmd = local_vm_command vm_guid opts in
    let texts = localhost_strings cmd.options refl refl in
    dispatch-call_of P2C.connect_local_vm _
    ∙ connect_local_vm_call_of (encode cmd ++ localhost) localhost cmd refl (omega arith)
    ∙ ap₂ (λ s d. some (on_connect_local_vm cmd s d)) texts.0 texts.1
