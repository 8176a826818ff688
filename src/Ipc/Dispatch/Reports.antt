-- ===== src/Ipc/Dispatch/Reports.antt =====
-- What the child reports reaches the parent's callbacks.
use hyprv.Prelude.{
  ◌>>=◌, ◌∷◌, ℕ, ◌≡◌, refl, sym, ap, ◌∙◌, Bool, true, false, not, ltb, some, List, [], ◌++◌, arith,
  ◌==◌, if◌then◌else◌, length-append,
}
use hyprv.Prelude.Text.{Text}
use hyprv.Prelude.Int.{ℤ, pos, negsuc, to_word, to_word-lt}
use mathlib.Core.List.{append-nil}
use hyprv.Ipc.Header.{Layout, C2P, c2p_byte, c2p_of_byte-c2p_byte}
use hyprv.Ipc.Events.{
  DesktopResized, Connected, connected_layout, enhanced_ready_layout, disconnected_layout,
  desktop_resized_layout, log_line_layout,
}
use hyprv.Ipc.Structs.{encode, InRange, length-encode, decode-encode}
use hyprv.Ipc.Frames.{make_message}
use hyprv.Ipc.Notify.{on_desktop_size_change, on_connected, is_fatal}
use hyprv.Ipc.Sink.{Control, Variant, vt_i4, remote_desktop_size_change, invoke, size_change}
use hyprv.Ipc.Dispatch.{Hooks, Callback, event_struct, event_of, dispatch_event}

event_struct-encode {ℓ} :
    {A : Type ℓ} ⦃l : Layout A⦄ (s : A) (rest : List ℕ)
    → InRange s
    → event_struct true (encode s ++ rest) ≡ some s
unfolding event_struct
event_struct-encode s rest h =
    ground (arith, length-append (encode s) rest, length-encode s, decode-encode s rest h)

event_struct_whole {ℓ} :
    {A : Type ℓ} ⦃l : Layout A⦄ (s : A) → InRange s → event_struct true (encode s) ≡ some s
event_struct_whole s h =
    ap (event_struct true) (sym (append-nil (encode s))) ∙ event_struct-encode s [] h

-- A byte that carries a `bool`.
flag : (b : Bool) → not ((if b then 1 else 0) == 0) ≡ b
flag true = refl
flag false = refl

-- Is a number above 3?
abbrev pub above_three : ℤ → Bool
above_three (pos n) = ltb 3 n
above_three (negsuc n) = false

abbrev sent_text : ℤ → List ℕ → List ℕ
sent_text reason description = if is_fatal reason then description else []

module _ (widen : List ℕ → Text) (hooks : Hooks) where
  dispatch-event_of :
      (t : C2P) (payload : List ℕ)
      → dispatch_event widen (some hooks) (make_message (c2p_byte t) payload)
        ≡ event_of widen hooks t payload
  unfolding dispatch_event make_message
  dispatch-event_of t payload = rw (c2p_of_byte-c2p_byte t)

  event_of_connected :
      (c : Connected)
      → hooks.connected ≡ true
      → InRange c
      → event_of widen hooks C2P.connected (encode c)
        ≡ some (Callback.connected (not (c.enhanced_active == 0)) c.desktop_width c.desktop_height)
  unfolding event_of
  event_of_connected c h r = rw (h, event_struct_whole c r)

  event_of_resized :
      (r : DesktopResized)
      → hooks.desktop_resized ≡ true
      → InRange r
      → event_of widen hooks C2P.desktop_resized (encode r)
        ≡ some (Callback.desktop_resized r.width r.height)
  unfolding event_of
  event_of_resized r h v = rw (h, event_struct_whole r v)

  -- A report that the control is connected arrives at the callback, if that is set, with the mode
  -- and with the desktop size as 32-bit words.
  pub dispatch-on_connected :
      (enhanced : Bool) (width height : ℤ)
      → hooks.connected ≡ true
      → dispatch_event widen (some hooks) (on_connected enhanced width height)
        ≡ some (Callback.connected enhanced (to_word width) (to_word height))
  unfolding on_connected
  dispatch-on_connected enhanced width height h =
      dispatch-event_of C2P.connected _
      ∙ event_of_connected
          (record {
            enhanced_active = if enhanced then 1 else 0;
            reserved = 0;
            desktop_width = to_word width;
            desktop_height = to_word height;
          })
          h (ground (arith, to_word-lt width, to_word-lt height))
      ∙ ap (λ b. some (Callback.connected b (to_word width) (to_word height))) (flag enhanced)

  -- A change of the desktop's size that the control announces arrives at the callback, if that is set,
  -- with the width before the height, though the control's arguments are the other way round.
  pub dispatch-invoke :
      (c : Control) (width height : ℤ) (rest : List Variant)
      → hooks.desktop_resized ≡ true
      → (invoke true c remote_desktop_size_change (some (vt_i4 height ∷ vt_i4 width ∷ rest))
          >>= dispatch_event widen (some hooks))
        ≡ some (Callback.desktop_resized (to_word width) (to_word height))
  unfolding invoke size_change on_desktop_size_change
  dispatch-invoke c width height rest h =
      dispatch-event_of C2P.desktop_resized _
      ∙ event_of_resized (record { width = to_word width; height = to_word height }) h
          (ground (arith, to_word-lt width, to_word-lt height))
