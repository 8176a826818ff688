-- ===== src/Ipc/Client.antt =====
-- What `RdpHostClient` (src/app/rdp/RdpHostClient.cpp) sends for each of its calls: the type byte and
-- the payload of the frame. `to_utf8` is the operating system's conversion of a text that is not
-- empty.
use hyprv.Prelude.{ℕ, ◌%◌, ◌^◌, Bool, List, [], ◌++◌, if◌then◌else◌, length, is_empty}
use hyprv.Prelude.Text.{Text, codes}
use hyprv.Ipc.Header.{P2C, p2c_byte}
use hyprv.Ipc.Commands.{
  RdpOptions, rdp_options_layout, ConnectLocalVm, connect_local_vm_layout, Resize, resize_layout,
  SetEnhanced, set_enhanced_layout,
}
use hyprv.Ipc.Structs.{encode}
use hyprv.Ipc.Frames.{Message, make_message}

unfoldable pub utf8_bytes : (Text → List ℕ) → Text → List ℕ
utf8_bytes to_utf8 w = if is_empty w then [] else to_utf8 w

-- The options as they are sent: the caller's, with the three lengths put in.
unfoldable pub connect_options : RdpOptions → List ℕ → List ℕ → List ℕ → RdpOptions
connect_options opts server domain user = record opts {
  server_byte_len = length server % 2 ^ 32;
  domain_byte_len = length domain % 2 ^ 32;
  user_byte_len = length user % 2 ^ 32;
}

-- The payload of `Connect`, of the bytes of the three texts.
unfoldable pub connect_bytes : RdpOptions → List ℕ → List ℕ → List ℕ → List ℕ
connect_bytes opts server domain user =
    encode (connect_options opts server domain user) ++ server ++ domain ++ user

unfoldable pub connect_message : (Text → List ℕ) → RdpOptions → Text → Text → Text → Message
connect_message to_utf8 opts server domain username = make_message (p2c_byte P2C.connect) (
    connect_bytes opts (utf8_bytes to_utf8 server) (utf8_bytes to_utf8 domain)
      (utf8_bytes to_utf8 username))

abbrev pub localhost : List ℕ
localhost = codes "localhost"

-- The options' own `user_byte_len` is passed on as it is.
unfoldable pub local_vm_command : ℕ → RdpOptions → ConnectLocalVm
local_vm_command vm_guid opts = record {
  vm_guid = vm_guid;
  options = record opts { server_byte_len = length localhost; domain_byte_len = 0 };
}

unfoldable pub connect_local_vm_message : ℕ → RdpOptions → Message
connect_local_vm_message vm_guid opts =
    make_message (p2c_byte P2C.connect_local_vm)
      (encode (local_vm_command vm_guid opts) ++ localhost)

unfoldable pub disconnect_message : Message
disconnect_message = make_message (p2c_byte P2C.disconnect) []

unfoldable pub shutdown_message : Message
shutdown_message = make_message (p2c_byte P2C.shutdown) []

-- The sizes are cut to 16 bits.
unfoldable pub resize_message : ℕ → ℕ → Message
resize_message w h =
    make_message (p2c_byte P2C.resize)
      (encode {A = Resize} (record { width = w % 2 ^ 16; height = h % 2 ^ 16 }))

unfoldable pub set_enhanced_message : Bool → Message
set_enhanced_message enhanced =
    make_message (p2c_byte P2C.set_enhanced)
      (encode {A = SetEnhanced} (record { enabled = if enhanced then 1 else 0; reserved = 0 }))
