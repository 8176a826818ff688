-- ===== src/Ipc/Header.antt =====
-- src/shared/RdpIpc.h: how a packed struct lies in memory, the frame header, and the type bytes of
-- the two directions.
use hyprv.Prelude.{
  ℕ, zero, suc, ◌≡◌, refl, ◌<◌, ◌≤◌, Option, none, some, List, [], ◌∷◌, arith, if◌then◌else◌, ◌==◌,
}

-- The widths of a struct's fields in bytes, and the way from the struct to its field values and
-- back.
pub record Layout {ℓ} (A : Type ℓ) : Type ℓ where
  pub widths : List ℕ
  pub fields : A → List ℕ
  pub of_fields : List ℕ → A
  pub of_fields-fields : (s : A) → of_fields (fields s) ≡ s

-- The field value at an index; a struct's list of values has them all.
abbrev pub at : ℕ → List ℕ → ℕ
at i [] = 0
at zero (v ∷ vs) = v
at (suc i) (v ∷ vs) = at i vs

-- Every message: this header, then exactly `payload_size` bytes of payload.
pub record Header : Type 0 where
  pub kind : ℕ
  pub reserved0 : ℕ
  pub reserved1 : ℕ
  pub payload_size : ℕ

instance abbrev pub header_layout : Layout Header
header_layout = record {
  widths = 1 ∷ 1 ∷ 2 ∷ 4 ∷ [];
  fields = λ s. s.kind ∷ s.reserved0 ∷ s.reserved1 ∷ s.payload_size ∷ [];
  of_fields = λ vs. record {
    kind = at 0 vs;
    reserved0 = at 1 vs;
    reserved1 = at 2 vs;
    payload_size = at 3 vs;
  };
  of_fields-fields = λ s. refl;
}

-- Parent to child.
pub data P2C : Type 0 where
  hello connect connect_local_vm disconnect shutdown resize : P2C
  update_session_display_settings set_enhanced send_ctrl_alt_del type_text : P2C

-- Child to parent.
pub data C2P : Type 0 where
  hello_ack hwnd_ready connecting connected disconnected : C2P
  enhanced_ready desktop_resized error mouse_activated log_line : C2P

unfoldable pub p2c_byte : P2C → ℕ
p2c_byte P2C.hello = 1
p2c_byte P2C.connect = 2
p2c_byte P2C.connect_local_vm = 3
p2c_byte P2C.disconnect = 4
p2c_byte P2C.shutdown = 5
p2c_byte P2C.resize = 6
p2c_byte P2C.update_session_display_settings = 7
p2c_byte P2C.set_enhanced = 8
p2c_byte P2C.send_ctrl_alt_del = 9
p2c_byte P2C.type_text = 10

unfoldable pub c2p_byte : C2P → ℕ
c2p_byte C2P.hello_ack = 128
c2p_byte C2P.hwnd_ready = 129
c2p_byte C2P.connecting = 130
c2p_byte C2P.connected = 131
c2p_byte C2P.disconnected = 132
c2p_byte C2P.enhanced_ready = 133
c2p_byte C2P.desktop_resized = 134
c2p_byte C2P.error = 135
c2p_byte C2P.mouse_activated = 136
c2p_byte C2P.log_line = 137

-- `static_cast<P2C>(type)`; `none` is a byte that no enumerator has, which a `switch` sends to
-- `default`.
unfoldable pub p2c_of_byte : ℕ → Option P2C
p2c_of_byte b =
    if b == 1
    then some P2C.hello
    else if b == 2
    then some P2C.connect
    else if b == 3
    then some P2C.connect_local_vm
    else if b == 4
    then some P2C.disconnect
    else if b == 5
    then some P2C.shutdown
    else if b == 6
    then some P2C.resize
    else if b == 7
    then some P2C.update_session_display_settings
    else if b == 8
    then some P2C.set_enhanced
    else if b == 9
    then some P2C.send_ctrl_alt_del
    else if b == 10
    then some P2C.type_text
    else none

unfoldable pub c2p_of_byte : ℕ → Option C2P
c2p_of_byte b =
    if b == 128
    then some C2P.hello_ack
    else if b == 129
    then some C2P.hwnd_ready
    else if b == 130
    then some C2P.connecting
    else if b == 131
    then some C2P.connected
    else if b == 132
    then some C2P.disconnected
    else if b == 133
    then some C2P.enhanced_ready
    else if b == 134
    then some C2P.desktop_resized
    else if b == 135
    then some C2P.error
    else if b == 136
    then some C2P.mouse_activated
    else if b == 137
    then some C2P.log_line
    else none

pub p2c_of_byte-p2c_byte : (t : P2C) → p2c_of_byte (p2c_byte t) ≡ some t
unfolding p2c_byte p2c_of_byte
p2c_of_byte-p2c_byte P2C.hello = refl
p2c_of_byte-p2c_byte _ = refl

pub c2p_of_byte-c2p_byte : (t : C2P) → c2p_of_byte (c2p_byte t) ≡ some t
unfolding c2p_byte c2p_of_byte
c2p_of_byte-c2p_byte C2P.hello_ack = refl
c2p_of_byte-c2p_byte _ = refl

pub p2c_byte-lt : (t : P2C) → p2c_byte t < 128
unfolding p2c_byte
p2c_byte-lt P2C.hello = omega arith
p2c_byte-lt _ = omega arith

pub c2p_byte_bounds : (t : C2P) → (128 ≤ c2p_byte t) × (c2p_byte t < 256)
unfolding c2p_byte
c2p_byte_bounds C2P.hello_ack = omega arith
c2p_byte_bounds _ = omega arith
