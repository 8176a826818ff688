-- ===== src/Ipc/Handshake/Agreement.antt =====
-- The child's answer, and the whole handshake of a parent with the child that it has spawned.
use hyprv.Prelude.{
  ℕ, ◌<◌, ◌≡◌, refl, sym, ap, ◌∙◌, Bool, true, ◌&&◌, leb, Option, none, some, List, [], ◌++◌, arith,
  ◌==◌, if◌then◌else◌, Bool-cases, inl, inr,
}
use mathlib.Core.List.{append-nil}
use hyprv.Ipc.Header.{C2P, c2p_byte, P2C, p2c_byte, p2c_byte-lt}
use hyprv.Ipc.Commands.{Hello, hello_layout}
use hyprv.Ipc.Events.{HelloAck, hello_ack_layout, HwndReady, hwnd_ready_layout}
use hyprv.Ipc.Structs.{encode, InRange}
use hyprv.Ipc.Pipe.{PipeReader}
use hyprv.Ipc.Frames.{Sender, send}
use hyprv.Ipc.Frames.Delivery.{TakesAll, send-TakesAll}
use hyprv.Ipc.Handshake.{
  read_expected, is_compatible, answer, reply, child_handshake, parent_hello, read_replies,
  parent_handshake,
}
use hyprv.Ipc.Handshake.Session.{
  read_expected-frame, hello_frame, ack_frame, ready_frame, read_replies_lem,
}

-- Does version 3 lie between the two of a hello?
abbrev pub has_three : Hello → Bool
has_three h = leb h.min_version 3 && leb 3 h.max_version

-- The acknowledgement of a child that goes on, and of one that does not.
abbrev pub verdict : Bool → HelloAck
verdict goes_on = record { selected_version = 3; status = if goes_on then 0 else 1; reserved = 0 }

answer-InRange : (h : Hello) → InRange (answer h)
unfolding answer
answer-InRange h = elim (Bool-cases (is_compatible h)) [
  | inl yes' ↦ rw yes' (omega arith)
  | inr no' ↦ rw no' (omega arith)
]

module _ (io : PipeReader) (write : List ℕ → List ℕ → Option ℕ) where
  open io use {Pipe, pending}

  reply_lem :
      (h : Hello) (p : Pipe) (s : Sender)
      → TakesAll write
      → s.is_open ≡ true
      → reply io write h p s ≡ (
        record s { sent = s.sent ++ ack_frame (answer h) },
        if is_compatible h then some p else none,
      )
  unfolding reply
  reply_lem h p s t o = rw (send-TakesAll write (c2p_byte C2P.hello_ack) (encode (answer h)) s t o)

  child_of :
      (p p' : Pipe) (h : Hello) (s : Sender)
      → read_expected io (p2c_byte P2C.hello) p ≡ some (h, p')
      → child_handshake io write p s ≡ reply io write h p' s
  unfolding child_handshake
  child_of p p' h s e = rw (e, child_handshake)

  -- A child that receives a hello, of fields in range, acknowledges it with version 3, and with status 0 if 3
  -- lies between the hello's two versions and 1 if not; it goes on exactly in the first case, and has then read
  -- the hello and no more. The pipe is open and takes whole buffers.
  pub child_handshake_lem :
      (h : Hello) (rest : List ℕ) (p : Pipe) (s : Sender)
      → InRange h
      → TakesAll write
      → s.is_open ≡ true
      → pending p ≡ hello_frame h ++ rest
      → (p' : Pipe) × (child_handshake io write p s ≡ (
        record s { sent = s.sent ++ ack_frame (verdict (has_three h)) },
        if has_three h then some p' else none,
      ))
        × (pending p' ≡ rest)
  unfolding answer is_compatible
  child_handshake_lem h rest p s ok t o e =
      let (p', got, left) =
        read_expected-frame io (p2c_byte P2C.hello) h rest p (omega (arith, p2c_byte-lt P2C.hello))
          (omega arith) ok e in
      (p', child_of p p' h s got ∙ reply_lem h p' s t o, left)

  parent_of :
      (p : Pipe) (s : Sender)
      → TakesAll write
      → s.is_open ≡ true
      → parent_handshake io write p s
        ≡ (record s { sent = s.sent ++ hello_frame parent_hello }, read_replies io p)
  unfolding parent_handshake
  parent_of p s t o = rw (send-TakesAll write (p2c_byte P2C.hello) (encode parent_hello) s t o)

abbrev pub opened : Sender
opened = record { is_open = true; sent = [] }

-- What the child has sent once it has answered the parent's hello and reported its window.
pub child_sent :
    (io : PipeReader) (write : List ℕ → List ℕ → Option ℕ) → io.Pipe → HwndReady → List ℕ
child_sent io write p r =
    (send write (c2p_byte C2P.hwnd_ready) (encode r) (child_handshake io write p opened).0).0.sent

not_null {ℓ} : {A : Type ℓ} (o : Option A) (n : ℕ) → 0 < n → (if n == 0 then none else o) ≡ o
not_null o n h = ground arith

parent_hello-InRange : InRange parent_hello
unfolding parent_hello
parent_hello-InRange = omega arith

child_sent_lem :
    (io : PipeReader) (write : List ℕ → List ℕ → Option ℕ) (p : io.Pipe) (r : HwndReady)
    → TakesAll write
    → io.pending p ≡ hello_frame parent_hello
    → child_sent io write p r ≡ ack_frame (answer parent_hello) ++ ready_frame r
unfolding child_sent send answer parent_hello
child_sent_lem io write p r t e =
    let (p', done, _) =
      child_handshake_lem io write parent_hello [] p opened parent_hello-InRange t refl
        (e ∙ sym (append-nil (hello_frame parent_hello))) in
    ap (λ o. (send write (c2p_byte C2P.hwnd_ready) (encode r) o.0).0.sent) done
    ∙ ap (λ o. o.0.sent)
        (send-TakesAll write (c2p_byte C2P.hwnd_ready) (encode r)
          (record { is_open = true; sent = ack_frame (answer parent_hello) }) t refl)

replies_agree :
    (io : PipeReader) (parent : io.Pipe) (r : HwndReady) (later : List ℕ)
    → InRange r
    → 0 < r.hwnd
    → io.pending parent ≡ ack_frame (answer parent_hello) ++ ready_frame r ++ later
    → (p' : io.Pipe) × (read_replies io parent ≡ some (r.hwnd, p')) × (io.pending p' ≡ later)
unfolding answer parent_hello
replies_agree io parent r later ok window e =
    let (p', got, left) =
      read_replies_lem io (answer parent_hello) r later parent (answer-InRange parent_hello) ok e in
    (p', got ∙ not_null (some (r.hwnd, p')) r.hwnd window, left)

-- If the child's end of the pipe holds what the parent's handshake sends, and the parent's end what
-- the child then sends, the parent's handshake ends with the child's window handle, and leaves what
-- the child sends later unread. Writes take whole buffers, and the handle is a 64-bit number other
-- than 0.
pub handshake_agrees :
    (io : PipeReader) (write : List ℕ → List ℕ → Option ℕ) (parent child : io.Pipe) (r : HwndReady)
    (later : List ℕ)
    → TakesAll write
    → InRange r
    → 0 < r.hwnd
    → io.pending child ≡ (parent_handshake io write parent opened).0.sent
    → io.pending parent ≡ child_sent io write child r ++ later
    → (p' : io.Pipe) × ((parent_handshake io write parent opened).1 ≡ some (r.hwnd, p'))
      × (io.pending p' ≡ later)
handshake_agrees io write parent child r later t ok window e f =
    let parent_sent = parent_of io write parent opened t refl in
    let (p', got, left) = replies_agree io parent r later ok window (
      f
      ∙ ap (λ b. b ++ later)
          (child_sent_lem io write child r t (e ∙ ap (λ o. o.0.sent) parent_sent))) in
    (p', ap (λ o. o.1) parent_sent ∙ got, left)
