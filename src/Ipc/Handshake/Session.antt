-- ===== src/Ipc/Handshake/Session.antt =====
-- The two sides of the handshake put together.
use hyprv.Prelude.{
  ℕ, ◌^◌, ◌<◌, ◌≡◌, ◌≢◌, refl, sym, ap, ◌∙◌, false, none, some, List, [], ◌++◌, arith, ◌==◌,
  if◌then◌else◌, ==_iff, Bool-cases, inl, inr,
}
use mathlib.Core.List.{append_assoc, append-nil}
use hyprv.Ipc.Header.{Layout, Header, header_layout, P2C, C2P, p2c_byte, c2p_byte, c2p_byte_bounds}
use hyprv.Ipc.Commands.{Hello, hello_layout}
use hyprv.Ipc.Events.{HelloAck, hello_ack_layout, HwndReady, hwnd_ready_layout}
use hyprv.Ipc.Codec.{size_of}
use hyprv.Ipc.Structs.{encode, decode, InRange, length-encode, decode-encode}
use hyprv.Ipc.Pipe.{PipeReader, read_exact}
use hyprv.Ipc.Frames.{Message, make_message, make_message-IsFrame, frame, IsFrame}
use hyprv.Ipc.Frames.Delivery.{read_exact_prefix}
use hyprv.Ipc.Handshake.{read_expected, read_replies}

decode_whole {ℓ} : {A : Type ℓ} ⦃l : Layout A⦄ (s : A) → InRange s → decode (encode s) ≡ some s
decode_whole ⦃l⦄ s h = ap decode (sym (append-nil (encode s))) ∙ decode-encode s [] h

module _ (io : PipeReader) where
  open io use {Pipe, pending}

  read_expected_of {ℓ} :
      {A : Type ℓ} ⦃l : Layout A⦄ (kind : ℕ) (p p1 p2 : Pipe) (head body : List ℕ) (h : Header)
      (s : A)
      → read_exact io 8 p ≡ some (head, p1)
      → decode ⦃l = header_layout⦄ head ≡ some h
      → h.kind ≡ kind
      → h.payload_size ≡ size_of l.widths
      → read_exact io (size_of l.widths) p1 ≡ some (body, p2)
      → decode body ≡ some s
      → read_expected io kind p ≡ some (s, p2)
  unfolding read_expected
  read_expected_of ⦃l⦄ kind p p1 p2 head body h s e1 e2 e3 e4 e5 e6 = rw e1 (
      rw e2 (
        rw ((==_iff h.kind kind).1 e3)
          (rw ((==_iff h.payload_size (size_of l.widths)).1 e4) (rw e5 (rw e6)))))

  read_expected_refuse {ℓ} :
      {A : Type ℓ} ⦃l : Layout A⦄ (kind : ℕ) (p p1 : Pipe) (head : List ℕ) (h : Header)
      → read_exact io 8 p ≡ some (head, p1)
      → decode ⦃l = header_layout⦄ head ≡ some h
      → (h.kind == kind) ≡ false
      → read_expected io {A = A} kind p ≡ none
  unfolding read_expected
  read_expected_refuse kind p p1 head h e1 e2 e3 = rw e1 (rw e2 (rw e3))

  -- A frame of the expected type that holds just the struct is read back as the struct.
  pub read_expected-frame {ℓ} :
      {A : Type ℓ} ⦃l : Layout A⦄ (kind : ℕ) (s : A) (rest : List ℕ) (p : Pipe)
      → kind < 256
      → size_of l.widths < 2 ^ 32
      → InRange s
      → pending p ≡ frame (make_message kind (encode s)) ++ rest
      → (p' : Pipe) × (read_expected io kind p ≡ some (s, p')) × (pending p' ≡ rest)
  unfolding frame make_message
  read_expected-frame {A} ⦃l⦄ kind s rest p k size h e =
      let m = make_message kind (encode s) in
      let head = encode ⦃l = header_layout⦄ m.header in
      let in_range =
        (make_message-IsFrame kind (encode s) k (rw (length-encode s) size)).in_range in
      let (p1, at_head, behind) =
        read_exact_prefix io 8 p head (encode s ++ rest) (length-encode m.header)
          (e ∙ append_assoc head (encode s) rest) in
      let (p2, at_body, left) =
        read_exact_prefix io (size_of l.widths) p1 (encode s) rest (length-encode s) behind in
      (
        p2,
        read_expected_of kind p p1 p2 head (encode s) m.header s at_head
            (decode_whole m.header in_range) refl (omega (arith, length-encode s, size)) at_body
            (decode_whole s h),
        left,
      )

  -- A frame of any other type is refused.
  pub read_expected_other {ℓ} :
      {A : Type ℓ} ⦃l : Layout A⦄ (kind : ℕ) (m : Message) (rest : List ℕ) (p : Pipe)
      → IsFrame m
      → m.header.kind ≢ kind
      → pending p ≡ frame m ++ rest
      → read_expected io {A = A} kind p ≡ none
  unfolding frame
  read_expected_other ⦃l⦄ kind m rest p v other e =
      let head = encode ⦃l = header_layout⦄ m.header in
      let (p1, at_head, behind) =
        read_exact_prefix io 8 p head (m.payload ++ rest) (length-encode m.header)
          (e ∙ append_assoc head m.payload rest) in
      read_expected_refuse kind p p1 head m.header at_head (decode_whole m.header v.in_range)
        (ground arith)

-- The frames of the exchange.
abbrev pub hello_frame : Hello → List ℕ
hello_frame h = frame (make_message (p2c_byte P2C.hello) (encode h))

abbrev pub ack_frame : HelloAck → List ℕ
ack_frame a = frame (make_message (c2p_byte C2P.hello_ack) (encode a))

abbrev pub ready_frame : HwndReady → List ℕ
ready_frame r = frame (make_message (c2p_byte C2P.hwnd_ready) (encode r))

module _ (io : PipeReader) where
  open io use {Pipe, pending}

  replies_of :
      (p p1 p2 : Pipe) (a : HelloAck) (r : HwndReady)
      → read_expected io (c2p_byte C2P.hello_ack) p ≡ some (a, p1)
      → read_expected io (c2p_byte C2P.hwnd_ready) p1 ≡ some (r, p2)
      → read_replies io p
        ≡ (if a.status == 0 then if r.hwnd == 0 then none else some (r.hwnd, p2) else none)
  unfolding read_replies
  replies_of p p1 p2 a r e f = rw e (elim (Bool-cases (a.status == 0)) [
    | inl ok ↦
        rw ok
          (rw f (elim (Bool-cases (r.hwnd == 0)) [ inl null ↦ rw null | inr window ↦ rw window ]))
    | inr bad ↦ rw bad
  ])

  -- The parent takes the child's window exactly when the child reports status 0 and a window handle
  -- that is not null; it has then read the two replies and no more. The replies' fields are in
  -- range.
  pub read_replies_lem :
      (a : HelloAck) (r : HwndReady) (rest : List ℕ) (p : Pipe)
      → InRange a
      → InRange r
      → pending p ≡ ack_frame a ++ ready_frame r ++ rest
      → (p' : Pipe) × (read_replies io p
          ≡ (if a.status == 0 then if r.hwnd == 0 then none else some (r.hwnd, p') else none))
        × (pending p' ≡ rest)
  unfolding read_replies
  read_replies_lem a r rest p ha hr e =
      let (p1, got_ack, behind) =
        read_expected-frame io (c2p_byte C2P.hello_ack) a (ready_frame r ++ rest) p
          (c2p_byte_bounds C2P.hello_ack).1 (omega arith) ha
          (e ∙ append_assoc (ack_frame a) (ready_frame r) rest) in
      let (p2, got_ready, left) =
        read_expected-frame io (c2p_byte C2P.hwnd_ready) r rest p1
          (c2p_byte_bounds C2P.hwnd_ready).1 (omega arith) hr behind in
      (p2, replies_of p p1 p2 a r got_ack got_ready, left)

  interrupted_of :
      (p p1 : Pipe) (a : HelloAck)
      → read_expected io (c2p_byte C2P.hello_ack) p ≡ some (a, p1)
      → read_expected io {A = HwndReady} (c2p_byte C2P.hwnd_ready) p1 ≡ none
      → read_replies io p ≡ none
  unfolding read_replies
  interrupted_of p p1 a e f =
      rw e (elim (Bool-cases (a.status == 0)) [ inl ok ↦ rw ok (rw f) | inr bad ↦ rw bad ])

  -- Any frame of another type that the child sends between its acknowledgement and its window, a
  -- log line say, makes the parent give up. The frames' headers are in range and announce their
  -- payloads.
  pub read_replies_interrupted :
      (a : HelloAck) (m : Message) (rest : List ℕ) (p : Pipe)
      → InRange a
      → IsFrame m
      → m.header.kind ≢ c2p_byte C2P.hwnd_ready
      → pending p ≡ ack_frame a ++ frame m ++ rest
      → read_replies io p ≡ none
  unfolding read_replies
  read_replies_interrupted a m rest p ha v other e =
      let (p1, got_ack, behind) =
        read_expected-frame io (c2p_byte C2P.hello_ack) a (frame m ++ rest) p
          (c2p_byte_bounds C2P.hello_ack).1 (omega arith) ha
          (e ∙ append_assoc (ack_frame a) (frame m) rest) in
      interrupted_of p p1 a got_ack
        (read_expected_other io (c2p_byte C2P.hwnd_ready) m rest p1 v other behind)
