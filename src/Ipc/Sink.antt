-- ===== src/Ipc/Sink.antt =====
-- The routing of the control's events in src/rdphost/RdpHost.cpp: `DispSink::Invoke`. The result is the
-- frame that the callback queues; `none` is an event that queues none.
use hyprv.Prelude.{ℕ, Bool, true, false, Option, none, some, List, ◌∷◌}
use hyprv.Prelude.Int.{ℤ, pos}
use hyprv.Ipc.Frames.{Message}
use hyprv.Ipc.Notify.{
  on_connecting, on_connected, on_login_complete, on_disconnected, on_desktop_size_change,
}

-- The identifiers that the `switch` tells apart.
pub data Dispid : Type 0 where
  connecting connected login_complete disconnected remote_desktop_size_change other : Dispid

-- A `VARIANT`: `VT_I4` with its value, or any other.
pub data Variant : Type 0 where
  vt_i4 : ℤ → Variant
  vt_other : Variant

-- What the callbacks ask the control for.
pub record Control : Type 0 where
  pub enhanced_active : Bool
  pub desktop_width : ℤ
  pub desktop_height : ℤ
  pub extended_reason : ℤ
  pub error_description : ℤ → List ℕ

unfoldable pub disconnect_reason : Option (List Variant) → ℤ
disconnect_reason (some (vt_i4 reason ∷ rest)) = reason
disconnect_reason _ = pos 0

-- The arguments come in reverse order.
unfoldable pub size_change : Option (List Variant) → Option Message
size_change (some (vt_i4 h ∷ vt_i4 w ∷ rest)) = some (on_desktop_size_change w h)
size_change _ = none

-- `has_callbacks` is `m_cb`; `args` is `dp`, `none` for a null pointer.
unfoldable pub invoke : Bool → Control → Dispid → Option (List Variant) → Option Message
invoke false c id args = none
invoke true c connecting args = some on_connecting
invoke true c connected args =
    some (on_connected c.enhanced_active c.desktop_width c.desktop_height)
invoke true c login_complete args = some (on_login_complete c.enhanced_active)
invoke true c disconnected args =
    let reason = disconnect_reason args in
    some (on_disconnected reason c.extended_reason (c.error_description reason))
invoke true c remote_desktop_size_change args = size_change args
invoke true c other args = none
