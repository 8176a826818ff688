-- ===== src/Ipc/Outbound/Log.antt =====
-- What a log line puts into the pipe.
use hyprv.Prelude.{
  ℕ, ◌≤◌, ◌<◌, ◌^◌, ◌%◌, ◌≡◌, refl, sym, ap, ◌∙◌, Bool, true, false, ◌&&◌, ◌==◌, leb, Option, none,
  some, List, [], ◌∷◌, ◌++◌, arith, All, length, length-append, if◌then◌else◌,
}
use mathlib.Core.List.{append_assoc, append-nil}
use hyprv.Prelude.Text.{Text}
use hyprv.Ipc.Header.{C2P, c2p_byte}
use hyprv.Ipc.Events.{LogLine, log_line_layout}
use hyprv.Ipc.Structs.{encode, length-encode}
use hyprv.Ipc.Frames.{
  Message, make_message, make_message-IsFrame, frame, frames, IsFrame, Sender, send,
}
use hyprv.Ipc.Frames.Delivery.{TakesAll, send-TakesAll}
use hyprv.Ipc.Notify.{log_message}
use hyprv.Ipc.Outbound.{Printing, hyprv_log}

abbrev pub is_log : Message → Bool
is_log m = m.header.kind == c2p_byte C2P.log_line

-- The messages of a stream that are not log lines.
abbrev pub events : List Message → List Message
events [] = []
events (m ∷ ms) = let rest = events ms in if is_log m then rest else m ∷ rest

pub events-append : (a b : List Message) → events (a ++ b) ≡ events a ++ events b
events-append [] b = refl
events-append (m ∷ a) b = ground (arith, events-append a b)

pub frames-append : (a b : List Message) → frames (a ++ b) ≡ frames a ++ frames b
frames-append [] b = refl
frames-append (m ∷ a) b =
    ap (◌++◌ (frame m)) (frames-append a b) ∙ sym (append_assoc (frame m) (frames a) (frames b))

pub All-append : (P : Message → Type 0) (a b : List Message) → All P a → All P b → All P (a ++ b)
All-append P [] b p q = q
All-append P (x ∷ a) b p q = (p.0, All-append P a b p.1 q)

-- The lines that a call writes: one or none.
pub record Lines (write : List ℕ → List ℕ → Option ℕ) (s s' : Sender) : Type 0 where
  pub lines : List Message
  pub written : s' ≡ record s { sent = s.sent ++ frames lines }
  pub only_logs : events lines ≡ []
  pub framed : All IsFrame lines

module _ (io : Printing) (write : List ℕ → List ℕ → Option ℕ) where
  no-Lines : (s : Sender) → Lines write s s
  no-Lines s = record {
    lines = [];
    written = ap (λ b. record s { sent = b }) (sym (append-nil s.sent));
    only_logs = refl;
    framed = tt;
  }

  pub hyprv_log-Lines :
      (text : Text) (s : Sender)
      → TakesAll write
      → s.is_open ≡ true
      → Lines write s (hyprv_log io write text s)
  unfolding hyprv_log log_message make_message c2p_byte
  hyprv_log-Lines text s t o =
      of_size (leb 1 (length text) && leb (length text) 1023) (leb (length (io.utf8 text)) 0) refl
    where
      body : List ℕ
      body =
          encode {A = LogLine}
            (record { level = 1; reserved = 0; byte_len = length (io.utf8 text) % 2 ^ 32 })
          ++ io.utf8 text

      kind_lt : c2p_byte C2P.log_line < 256
      kind_lt = omega arith

      body-lt : length text ≤ 1023 → length body < 2 ^ 32
      body-lt h = omega (
        arith,
        h,
        io.utf8-le text,
        length-append
            (encode {A = LogLine}
              (record { level = 1; reserved = 0; byte_len = length (io.utf8 text) % 2 ^ 32 }))
            (io.utf8 text),
        length-encode {A = LogLine}
            (record { level = 1; reserved = 0; byte_len = length (io.utf8 text) % 2 ^ 32 }),
      )

      of_size :
          (short none' : Bool)
          → (leb 1 (length text) && leb (length text) 1023) ≡ short
          → Lines write s (
              if short
              then elim (if none' then none else some (make_message (c2p_byte C2P.log_line) body)) [
                | none ↦ s
                | some m ↦ (send write m.header.kind m.payload s).0
              ]
              else s)
      of_size false none' h = no-Lines s
      of_size true true h = no-Lines s
      of_size true false h = record {
        lines = make_message (c2p_byte C2P.log_line) body ∷ [];
        written =
            ap (λ r. r.0) (send-TakesAll write (c2p_byte C2P.log_line) body s t o)
            ∙ ap (λ b. record s { sent = s.sent ++ b })
                (sym (append-nil (frame (make_message (c2p_byte C2P.log_line) body))));
        only_logs = refl;
        framed = (
          make_message-IsFrame (c2p_byte C2P.log_line) body kind_lt (body-lt (ground arith)),
          tt,
        );
      }
