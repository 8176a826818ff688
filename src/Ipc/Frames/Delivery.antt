-- ===== src/Ipc/Frames/Delivery.antt =====
-- What a send puts into the pipe, and that the receive loop gets the frames back out.
use hyprv.Prelude.{
  ℕ, zero, suc, ◌<◌, ◌≡◌, refl, sym, ap, ◌∙◌, true, Option, none, some, List, [], ◌∷◌, ◌++◌, arith,
  ltb, if◌then◌else◌, length, length-append, take, take_prefix, drop_prefix, take-all, lt→ltb,
  replicate, All,
}
use mathlib.Core.List.{append_assoc, append-nil}
use hyprv.Ipc.Header.{Header, header_layout}
use hyprv.Ipc.Structs.{encode, decode, length-encode, decode-encode}
use hyprv.Ipc.Pipe.{PipeReader, read_exact, read_exact_full, read_exact_short}
use hyprv.Ipc.Frames.{
  Message, make_message, frame, frames, IsFrame, Sender, write_all, send_payload, send,
  read_message, receive,
}

module _ (io : PipeReader) where
  open io use {Pipe, pending}

  -- Reading as many bytes as a known prefix of what is pending has gives that prefix.
  pub read_exact_prefix :
      (n : ℕ) (p : Pipe) (xs ys : List ℕ)
      → length xs ≡ n
      → pending p ≡ xs ++ ys
      → (p' : Pipe) × (read_exact io n p ≡ some (xs, p')) × (pending p' ≡ ys)
  read_exact_prefix n p xs ys h e =
      let size = ap length e ∙ length-append xs ys in
      let (p', done, rest) = read_exact_full io n p (omega arith) in
      (p', done ∙ ap (λ b. some (b, p')) (take_prefix xs ys h e), rest ∙ drop_prefix xs ys h e)

  read_payload :
      (p : Pipe) (payload rest : List ℕ) (n : ℕ)
      → n ≡ length payload
      → pending p ≡ payload ++ rest
      → (p' : Pipe) × ((if ltb 0 n then read_exact io n p else some ([], p)) ≡ some (payload, p'))
        × (pending p' ≡ rest)
  read_payload p [] rest n h e = (p, rw h, e)
  read_payload p (b ∷ payload) rest n h e =
      let (p', done, left) = read_exact_prefix n p (b ∷ payload) rest (sym h) e in
      (p', rw (lt→ltb 0 n (omega arith)) done, left)

  read_message_of :
      (p p1 p2 : Pipe) (bytes payload : List ℕ) (h : Header)
      → read_exact io 8 p ≡ some (bytes, p1)
      → decode bytes ≡ some h
      → (if ltb 0 h.payload_size then read_exact io h.payload_size p1 else some ([], p1))
        ≡ some (payload, p2)
      → read_message io p ≡ some (record { header = h; payload = payload }, p2)
  unfolding read_message
  read_message_of p p1 p2 bytes payload h e f g = rw e (rw f (rw g))

  -- One round of the loop takes one frame off the pipe.
  pub read_message-frame :
      (m : Message) (rest : List ℕ) (p : Pipe)
      → IsFrame m
      → pending p ≡ frame m ++ rest
      → (p' : Pipe) × (read_message io p ≡ some (m, p')) × (pending p' ≡ rest)
  unfolding read_message frame
  read_message-frame m rest p v e =
      let (p1, head, behind) =
        read_exact_prefix 8 p (encode m.header) (m.payload ++ rest) (length-encode m.header)
          (e ∙ append_assoc (encode m.header) m.payload rest) in
      let (p2, body, left) =
        read_payload p1 m.payload rest m.header.payload_size v.announced behind in
      (
        p2,
        read_message_of p p1 p2 (encode m.header) m.payload m.header head
            (ap (decode {A = Header}) (sym (append-nil (encode m.header)))
              ∙ decode-encode m.header [] v.in_range)
            body,
        left,
      )

  read_message_short : (p : Pipe) → length (pending p) < 8 → read_message io p ≡ none
  unfolding read_message
  read_message_short p h = rw (read_exact_short io 8 p h)

  receive_stop :
      (n : ℕ) (p : Pipe) → read_message io p ≡ none → receive io (replicate n true) p ≡ []
  unfolding receive
  receive_stop zero p e = refl
  receive_stop (suc n) p e = rw (e, receive)

  receive_next :
      (n : ℕ) (m : Message) (p p' : Pipe)
      → read_message io p ≡ some (m, p')
      → receive io (replicate (suc n) true) p ≡ m ∷ receive io (replicate n true) p'
  unfolding receive
  receive_next n m p p' e = rw (e, receive)

  -- Frames arrive whole and in order, however the pipe cuts their bytes up: `n` rounds of the loop
  -- hand over the first `n` of the messages whose frames are pending, each with a header in range
  -- that announces its payload. A frame that is cut off before the end of its header is not handed
  -- over.
  pub receive-frames :
      (n : ℕ) (ms : List Message) (partial : List ℕ) (p : Pipe)
      → All IsFrame ms
      → length partial < 8
      → pending p ≡ frames ms ++ partial
      → receive io (replicate n true) p ≡ take n ms
  unfolding receive
  receive-frames zero ms partial p v h e = refl
  receive-frames (suc n) [] partial p v h e =
      receive_stop (suc n) p (read_message_short p (omega (arith, ap length e)))
  receive-frames (suc n) (m ∷ ms) partial p v h e =
      let (p', taken, left) =
        read_message-frame m (frames ms ++ partial) p v.0
          (e ∙ append_assoc (frame m) (frames ms) partial) in
      receive_next n m p p' taken ∙ ap (◌∷◌ m) (receive-frames n ms partial p' v.1 h left)

module _ (write : List ℕ → List ℕ → Option ℕ) where
  write_all-true :
      (buf : List ℕ) (s : Sender)
      → (write_all write buf s).1 ≡ true
      → (write_all write buf s).0 ≡ record s { sent = s.sent ++ buf }
  unfolding write_all
  write_all-true buf s h = ground (arith, take-all buf)

  send_payload-true :
      (payload : List ℕ) (s : Sender)
      → (send_payload write payload s).1 ≡ true
      → (send_payload write payload s).0 ≡ record s { sent = s.sent ++ payload }
  unfolding send_payload
  send_payload-true [] s h = ap (λ b. record s { sent = b }) (sym (append-nil s.sent))
  send_payload-true (b ∷ payload) s h = ground (arith, write_all-true (b ∷ payload) s)

  -- A send that reports success has put the whole frame behind what was sent before, header first.
  pub send-frame :
      (kind : ℕ) (payload : List ℕ) (s : Sender)
      → (send write kind payload s).1 ≡ true
      → (send write kind payload s).0
        ≡ record s { sent = s.sent ++ frame (make_message kind payload) }
  unfolding send frame
  send-frame kind payload s h =
      let header = encode (make_message kind payload).header in
      ground (
        arith,
        write_all-true header s,
        send_payload-true payload (write_all write header s).0,
        append_assoc s.sent header payload,
      )

  -- `WriteFile` takes whole buffers.
  abbrev pub TakesAll : Type 0
  TakesAll = (sent buf : List ℕ) → write sent buf ≡ some (length buf)

  pub write_all-TakesAll :
      (buf : List ℕ) (s : Sender)
      → TakesAll
      → write_all write buf s ≡ (record s { sent = s.sent ++ buf }, true)
  unfolding write_all
  write_all-TakesAll buf s t = ground (arith, t s.sent buf, take-all buf)

  send_payload-TakesAll :
      (payload : List ℕ) (s : Sender)
      → TakesAll
      → send_payload write payload s ≡ (record s { sent = s.sent ++ payload }, true)
  unfolding send_payload
  send_payload-TakesAll [] s t = ap (λ b. (record s { sent = b }, true)) (sym (append-nil s.sent))
  send_payload-TakesAll (b ∷ payload) s t = ground (arith, write_all-TakesAll (b ∷ payload) s t)

  -- On an open pipe that takes whole buffers a send succeeds.
  pub send-TakesAll :
      (kind : ℕ) (payload : List ℕ) (s : Sender)
      → TakesAll
      → s.is_open ≡ true
      → send write kind payload s
        ≡ (record s { sent = s.sent ++ frame (make_message kind payload) }, true)
  unfolding send frame
  send-TakesAll kind payload s t o =
      let header = encode (make_message kind payload).header in
      ground (
        arith,
        write_all-TakesAll header s t,
        send_payload-TakesAll payload (record s { sent = s.sent ++ header }) t,
        append_assoc s.sent header payload,
      )
