-- ===== src/Ipc/Geometry.antt =====
-- The geometry caches of `RdpHostClient::Impl` (src/app/rdp/RdpHostClient.cpp): which calls move the
-- child's window and which send display settings, and which are dropped because nothing changed.
-- `window` is where the child's window is, `displayed` the display settings that the session is known to have
-- got, and `moves` and `sends` count the calls of `SetWindowPos` and of `SendP2C` with settings; the code
-- keeps none of these four. Where a call
-- leaves the window is an argument of its step.
pub mod Coherence
use hyprv.Prelude.{
  ℕ, ◌+◌, ◌*◌, ◌/◌, ◌%◌, ◌^◌, ◌-◌, ◌≡◌, Bool, true, false, not, ◌&&◌, Option, none, some, List, [],
  ◌∷◌, ◌==◌, if◌then◌else◌,
}
use hyprv.Prelude.Int.{ℤ, pos, negsuc, eq_ℤ}
use hyprv.Ipc.Header.{P2C, p2c_byte}
use hyprv.Ipc.Commands.{UpdateSessionDisplaySettings, update_session_display_settings_layout}
use hyprv.Ipc.Structs.{encode}
use hyprv.Ipc.Frames.{Message, make_message}
use hyprv.Ipc.Scale.{scale_of_dpi}

pub record Rect : Type 0 where
  pub sx : ℤ
  pub sy : ℤ
  pub w : ℤ
  pub h : ℤ

-- `INT_MIN` at the corner and no size: nothing is known.
abbrev pub no_rect : Rect
no_rect = record { sx = negsuc (2 ^ 31 - 1); sy = negsuc (2 ^ 31 - 1); w = pos 0; h = pos 0 }

unfoldable pub rect_eq : Rect → Rect → Bool
rect_eq a b = eq_ℤ a.sx b.sx && eq_ℤ a.sy b.sy && eq_ℤ a.w b.w && eq_ℤ a.h b.h

-- Width, height and DPI of the last `UpdateSessionDisplaySettings`.
pub record Display : Type 0 where
  pub ds_w : ℕ
  pub ds_h : ℕ
  pub ds_dpi_x : ℕ

abbrev pub no_display : Display
no_display = record { ds_w = 0; ds_h = 0; ds_dpi_x = 0 }

unfoldable pub display_eq : Display → Display → Bool
display_eq a b = a.ds_w == b.ds_w && a.ds_h == b.ds_h && a.ds_dpi_x == b.ds_dpi_x

pub record Client : Type 0 where
  pub has_child : Bool  -- childHwnd is not null
  pub last : Rect
  pub last_display : Display
  pub window : Rect
  pub displayed : Option Display
  pub moves : ℕ
  pub sends : ℕ

-- The reset in `SpawnAndHandshake`, the child's window from its `HwndReady`, and `EmbedInto`, which
-- moves the window without a note in the cache.
unfoldable pub connect : Rect → Client → Client
connect r c = record {
  has_child = true;
  last = no_rect;
  last_display = no_display;
  window = r;
  displayed = none;
  moves = c.moves + 1;
  sends = c.sends;
}

unfoldable pub reposition : Rect → Client → Client
reposition r c =
    if c.has_child && not (rect_eq r c.last)
    then record c { last = r; window = r; moves = c.moves + 1 }
    else c

unfoldable pub disconnect : Client → Client
disconnect c = record c { last = no_rect; last_display = no_display }

unfoldable pub invalidate_session_display_cache : Client → Client
invalidate_session_display_cache c = record c { last_display = no_display }

unfoldable pub reown : Client → Client
reown c = if c.has_child then record c { last = no_rect } else c

-- `sent` is what `SendP2C` returns; the caches are written before.
unfoldable pub update_session_display_settings : Bool → Display → Client → Client
update_session_display_settings sent d c = if display_eq d c.last_display then c else record c {
  last_display = d;
  displayed = if sent then some d else c.displayed;
  sends = c.sends + 1;
}

-- The frame that goes with `displayed`. `millimetres w dpi` is the floating-point
-- `static_cast<uint32_t>(w * 25.4 / dpiX)`.
unfoldable pub display_message : (ℕ → ℕ → ℕ) → Display → Message
display_message millimetres d = make_message (p2c_byte P2C.update_session_display_settings) (
    encode {A = UpdateSessionDisplaySettings} (record {
      width = d.ds_w;
      height = d.ds_h;
      phys_width = millimetres d.ds_w d.ds_dpi_x;
      phys_height = millimetres d.ds_h d.ds_dpi_x;
      orientation = 0;
      desktop_scale = scale_of_dpi d.ds_dpi_x;
      device_scale = 100;
    }))

-- What is outside of the caches: the child's window, if there is one, comes to stand at `r`; the session's
-- settings are lost or refused.
abbrev pub moved : Rect → Client → Client
moved r c = if c.has_child then record c { window = r } else c

abbrev pub forgotten : Client → Client
forgotten c = record c { displayed = none }

-- The calls of the tab page, in any order. At the end of a session the child resets its state, and its window may
-- move, as it may under a new owner; the page invalidates where the control may have refused the settings.
pub data Call : Type 0 where
  connects : Rect → Call
  repositions : Rect → Call
  disconnects : Rect → Call
  invalidates : Call
  reowns : Rect → Call
  updates : Bool → Display → Call

unfoldable pub step : Client → Call → Client
step c (connects r) = connect r c
step c (repositions r) = reposition r c
step c (disconnects r) = moved r (forgotten (disconnect c))
step c invalidates = forgotten (invalidate_session_display_cache c)
step c (reowns r) = moved r (reown c)
step c (updates sent d) = update_session_display_settings sent d c

unfoldable pub run : Client → List Call → Client
run c [] = c
run c (k ∷ ks) = run (step c k) ks

-- A client that has not connected.
unfoldable pub fresh : Rect → Client
fresh r = record {
  has_child = false;
  last = no_rect;
  last_display = no_display;
  window = r;
  displayed = none;
  moves = 0;
  sends = 0;
}
