-- ===== src/Ipc/Handshake.antt =====
-- The start of a session: `IpcClient::Handshake` in src/rdphost/IpcClient.cpp (the child's side) and
-- the exchange at the end of `SpawnAndHandshake` in src/app/rdp/RdpHostClient.cpp (the parent's).
-- Each side has its end of the pipe and what it has sent; a result `none` is `return false`.
pub mod Session
pub mod Agreement
use hyprv.Prelude.{
  ℕ, zero, suc, ◌+◌, ◌≡◌, Bool, true, false, ◌&&◌, Option, none, some, List, [], ◌∷◌, ◌++◌, ◌>>=◌,
  ◌>>◌, require, ◌==◌, leb, not, if◌then◌else◌,
}
use hyprv.Ipc.Header.{Layout, Header, header_layout, P2C, C2P, p2c_byte, c2p_byte}
use hyprv.Ipc.Commands.{Hello, hello_layout}
use hyprv.Ipc.Events.{HelloAck, hello_ack_layout, HwndReady, hwnd_ready_layout}
use hyprv.Ipc.Codec.{size_of}
use hyprv.Ipc.Structs.{encode, decode}
use hyprv.Ipc.Pipe.{PipeReader, read_exact}
use hyprv.Ipc.Frames.{Sender, send}

abbrev pub protocol_version : ℕ
protocol_version = 3

module _ (io : PipeReader) where
  open io use {Pipe}

  -- Read a header, insist on its type and on the size of the one struct expected, read the struct.
  unfoldable pub read_expected {ℓ} : {A : Type ℓ} ⦃l : Layout A⦄ → ℕ → Pipe → Option (A × Pipe)
  read_expected ⦃l⦄ kind p = do
    (head, p1) ← read_exact io 8 p
    h ← decode ⦃l = header_layout⦄ head
    require (h.kind == kind)
    require (h.payload_size == size_of l.widths)
    (body, p2) ← read_exact io (size_of l.widths) p1
    s ← decode body
    some (s, p2)

  -- The window handle of the child, and the pipe behind the two replies.
  unfoldable pub read_replies : Pipe → Option (ℕ × Pipe)
  read_replies p = do
    (ack, p1) ← read_expected {A = HelloAck} (c2p_byte C2P.hello_ack) p
    require (ack.status == 0)
    (ready, p2) ← read_expected {A = HwndReady} (c2p_byte C2P.hwnd_ready) p1
    require (not (ready.hwnd == 0))
    some (ready.hwnd, p2)

-- `hello.minVersion <= chosen && chosen <= hello.maxVersion`.
unfoldable pub is_compatible : Hello → Bool
is_compatible h = leb h.min_version protocol_version && leb protocol_version h.max_version

unfoldable pub answer : Hello → HelloAck
unfolding is_compatible
answer h = record {
  selected_version = protocol_version;
  status = if is_compatible h then 0 else 1;
  reserved = 0;
}

unfoldable pub parent_hello : Hello
parent_hello = record {
  min_version = protocol_version;
  max_version = protocol_version;
  reserved = 0;
}

module _ (io : PipeReader) (write : List ℕ → List ℕ → Option ℕ) where
  open io use {Pipe}

  unfoldable pub reply : Hello → Pipe → Sender → Sender × Option Pipe
  unfolding answer
  reply h p s =
      let (s', sent) = send write (c2p_byte C2P.hello_ack) (encode (answer h)) s in
      if sent then (s', if is_compatible h then some p else none) else (s', none)

  unfoldable pub child_handshake : Pipe → Sender → Sender × Option Pipe
  child_handshake p s = elim (read_expected io {A = Hello} (p2c_byte P2C.hello) p) [
    | none ↦ (s, none)
    | some (h, p') ↦ reply h p' s
  ]

  unfoldable pub parent_handshake : Pipe → Sender → Sender × Option (ℕ × Pipe)
  parent_handshake p s =
      let (s', sent) = send write (p2c_byte P2C.hello) (encode parent_hello) s in
      (s', if sent then read_replies io p else none)
