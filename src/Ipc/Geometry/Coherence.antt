-- ===== src/Ipc/Geometry/Coherence.antt =====
-- The caches never hide a change.
use hyprv.Prelude.{◌≡◌, ◌⊎◌, Bool, true, some, arith}
use hyprv.Prelude.Int.{eq_ℤ_refl}
use hyprv.Ipc.Geometry.{
  Rect, no_rect, rect_eq, Display, no_display, display_eq, Client, reposition,
  update_session_display_settings, Call, repositions, updates, step,
}

-- A cache is empty or tells where the window is and what was sent last.
pub record IsCoherent (c : Client) : Type 0 where
  pub rect : (c.last ≡ no_rect) ⊎ (c.last ≡ c.window)
  pub display : (c.last_display ≡ no_display) ⊎ (some c.last_display ≡ c.displayed)

-- A call that sends settings does send them.
abbrev pub Sends : Call → Type 0
Sends (updates sent d) = sent ≡ true
Sends _ = Unit {0}

rect_eq_refl : (r : Rect) → rect_eq r r ≡ true
unfolding rect_eq
rect_eq_refl r = rw (eq_ℤ_refl r.sx, eq_ℤ_refl r.sy, eq_ℤ_refl r.w, eq_ℤ_refl r.h)

display_eq_refl : (d : Display) → display_eq d d ≡ true
unfolding display_eq
display_eq_refl d = ground arith

-- The second of two calls with the same argument changes nothing at all: the window is not moved
-- again and the settings are not sent again.
pub step_twice :
    (c : Client) (r : Rect) (b : Bool) (d : Display)
    → (step (step c (repositions r)) (repositions r) ≡ step c (repositions r))
      × (step (step c (updates b d)) (updates b d) ≡ step c (updates b d))
unfolding step reposition update_session_display_settings
step_twice c r b d = (ground (arith, rect_eq_refl r), ground (arith, display_eq_refl d))
