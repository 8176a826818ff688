-- ===== src/Ipc/Frames.antt =====
-- Framing on the pipe. Sending: `IpcClient::Send` and `SendRaw` (src/rdphost/IpcClient.cpp),
-- `QueueOutbound` (src/rdphost/RdpHost.cpp), `SendP2C` (src/app/rdp/RdpHostClient.cpp). Receiving:
-- the loops of `StartReceiveLoop` and `StartRxLoop`. The size of a
-- payload is cast to `uint32_t`.
pub mod Delivery
use hyprv.Prelude.{
  ℕ, zero, suc, ◌+◌, ◌%◌, ◌^◌, ◌<◌, ◌≤◌, ◌≡◌, refl, sym, ap, ◌∙◌, Bool, true, false, Option, none,
  some, List, [], ◌∷◌, ◌++◌, arith, ◌>>=◌, ◌==◌, ltb, if◌then◌else◌, length, length-append, take,
  drop, take-append, drop-append, Bool-cases, ==_iff,
}
use mathlib.Core.List.{append_assoc, append-nil}
use hyprv.Ipc.Header.{Header, header_layout}
use hyprv.Ipc.Structs.{encode, decode, InRange, length-encode, decode-encode}
use hyprv.Ipc.Pipe.{PipeReader, read_exact, Reads, read_exact_full, read_exact_short}

pub record Message : Type 0 where
  pub header : Header
  pub payload : List ℕ

-- `Header h{}; h.type = type; h.payloadSize = payloadSize`, with the size as the caller casts it.
unfoldable pub make_message : ℕ → List ℕ → Message
make_message kind payload = record {
  header = record {
    kind = kind;
    reserved0 = 0;
    reserved1 = 0;
    payload_size = length payload % 2 ^ 32;
  };
  payload = payload;
}

unfoldable pub frame : Message → List ℕ
frame m = encode m.header ++ m.payload

abbrev pub frames : List Message → List ℕ
frames [] = []
frames (m ∷ ms) = frame m ++ frames ms

-- The type is a byte, and the header announces the payload that follows.
pub record IsFrame (m : Message) : Type 0 where
  pub in_range : InRange m.header
  pub announced : m.header.payload_size ≡ length m.payload

pub make_message-IsFrame :
    (kind : ℕ) (payload : List ℕ)
    → kind < 256
    → length payload < 2 ^ 32
    → IsFrame (make_message kind payload)
unfolding make_message
make_message-IsFrame kind payload h k = record { in_range = omega arith; announced = omega arith }

-- What this end has put into the pipe. `open` is `m_pipe != INVALID_HANDLE_VALUE`.
pub record Sender : Type 0 where
  pub is_open : Bool
  pub sent : List ℕ

-- `OverlappedWrite` is the operating system's: given what was sent before and the buffer, it fails
-- or says how many of the buffer's bytes it took.
module _ (write : List ℕ → List ℕ → Option ℕ) where
  -- One write, and the test `written != size` behind it.
  unfoldable pub write_all : List ℕ → Sender → Sender × Bool
  write_all buf s = elim (write s.sent buf) [
    | none ↦ (s, false)
    | some n ↦ (record s { sent = s.sent ++ take n buf }, n == length buf)
  ]

  unfoldable pub send_raw : List ℕ → Sender → Sender × Bool
  send_raw buf s = if s.is_open then write_all buf s else (s, false)

  send_payload : List ℕ → Sender → Sender × Bool
  send_payload payload s = if ltb 0 (length payload) then write_all payload s else (s, true)

  unfoldable pub send : ℕ → List ℕ → Sender → Sender × Bool
  unfolding make_message send_payload
  send kind payload s =
      if s.is_open
      then (let (s', done) = write_all (encode (make_message kind payload).header) s in
          if done then send_payload payload s' else (s', false))
      else (s, false)

module _ (io : PipeReader) where
  open io use {Pipe, pending}

  -- One round of the receive loop up to the call of the handler; `none` is its `break`.
  unfoldable pub read_message : Pipe → Option (Message × Pipe)
  read_message p = do
    (bytes, p1) ← read_exact io 8 p
    h ← decode bytes
    (payload, p2) ← if ltb 0 h.payload_size then read_exact io h.payload_size p1 else some ([], p1)
    some (record { header = h; payload = payload }, p2)

  -- The loop: the value of `m_running` at each round, and the messages handed to the handler.
  unfoldable pub receive : List Bool → Pipe → List Message
  unfolding read_message
  receive [] p = []
  receive (false ∷ rounds) p = []
  receive (true ∷ rounds) p = elim (read_message p) [
    | none ↦ []
    | some (m, p') ↦ m ∷ receive rounds p'
  ]
