-- ===== src/Settings/Options.antt =====
-- The plain values of src/app/settings/Settings.h and the tokens that stand for them in the file
-- (src/app/settings/Settings.cpp): backdrops, themes, audio modes, and the options of a remote
-- desktop session with the test by which a setter drops a write that changes nothing.
use hyprv.Prelude.{ℕ, ◌≡◌, refl, ◌↔◌, Bool, true, false, ◌&&◌, arith, ◌==◌, if◌then◌else◌}
use hyprv.Prelude.Text.{Text, codes, text_eq}

pub data Backdrop : Type 0 where
  mica acrylic : Backdrop

pub data Theme : Type 0 where
  system light dark black : Theme

pub data AudioMode : Type 0 where
  redirect play_on_server none : AudioMode

unfoldable pub backdrop_to_string : Backdrop → Text
backdrop_to_string mica = codes "mica"
backdrop_to_string acrylic = codes "acrylic"

unfoldable pub backdrop_from_string : Text → Backdrop
backdrop_from_string s = if text_eq s (codes "acrylic") then acrylic else mica

unfoldable pub theme_to_string : Theme → Text
theme_to_string system = codes "system"
theme_to_string light = codes "light"
theme_to_string dark = codes "dark"
theme_to_string black = codes "black"

unfoldable pub theme_from_string : Text → Theme
theme_from_string s =
    if text_eq s (codes "light")
    then light
    else if text_eq s (codes "dark")
    then dark
    else if text_eq s (codes "black")
    then black
    else system

unfoldable pub audio_mode_to_string : AudioMode → Text
audio_mode_to_string redirect = codes "redirect"
audio_mode_to_string play_on_server = codes "playOnServer"
audio_mode_to_string none = codes "none"

unfoldable pub audio_mode_from_string : Text → AudioMode
audio_mode_from_string s =
    if text_eq s (codes "playOnServer")
    then play_on_server
    else if text_eq s (codes "none")
    then none
    else redirect

backdrop_tokens : (b : Backdrop) → backdrop_from_string (backdrop_to_string b) ≡ b
unfolding backdrop_from_string backdrop_to_string text_eq
backdrop_tokens mica = refl
backdrop_tokens acrylic = refl

theme_tokens : (t : Theme) → theme_from_string (theme_to_string t) ≡ t
unfolding theme_from_string theme_to_string text_eq
theme_tokens system = refl
theme_tokens _ = refl

audio_mode_tokens : (m : AudioMode) → audio_mode_from_string (audio_mode_to_string m) ≡ m
unfolding audio_mode_from_string audio_mode_to_string text_eq
audio_mode_tokens redirect = refl
audio_mode_tokens _ = refl

-- Every backdrop, theme and audio mode is read back from the token that is written for it.
pub tokens_round_trip :
    (b : Backdrop) (t : Theme) (m : AudioMode)
    → (backdrop_from_string (backdrop_to_string b) ≡ b)
      × (theme_from_string (theme_to_string t) ≡ t)
      × (audio_mode_from_string (audio_mode_to_string m) ≡ m)
tokens_round_trip b t m = (backdrop_tokens b, theme_tokens t, audio_mode_tokens m)

pub record RdpOptions : Type 0 where
  pub audio_mode : AudioMode
  pub redirect_clipboard : Bool
  pub redirect_drives : Bool
  pub redirect_devices : Bool
  pub redirect_smart_cards : Bool
  pub redirect_ports : Bool
  pub audio_capture_redirect : Bool
  pub initial_desktop_width : ℕ
  pub initial_desktop_height : ℕ
  pub color_depth : ℕ
  pub dpi_scale_override_percent : ℕ

-- The member initializers.
abbrev pub default_options : RdpOptions
default_options = record {
  audio_mode = redirect;
  redirect_clipboard = true;
  redirect_drives = false;
  redirect_devices = false;
  redirect_smart_cards = false;
  redirect_ports = false;
  audio_capture_redirect = false;
  initial_desktop_width = 1024;
  initial_desktop_height = 768;
  color_depth = 32;
  dpi_scale_override_percent = 0;
}

abbrev pub bool_eq : Bool → Bool → Bool
bool_eq true b = b
bool_eq false true = false
bool_eq false false = true

abbrev audio_mode_eq : AudioMode → AudioMode → Bool
audio_mode_eq redirect redirect = true
audio_mode_eq play_on_server play_on_server = true
audio_mode_eq none none = true
audio_mode_eq _ _ = false

unfoldable pub rdp_options_eq : RdpOptions → RdpOptions → Bool
rdp_options_eq a b =
    audio_mode_eq a.audio_mode b.audio_mode
    && bool_eq a.redirect_clipboard b.redirect_clipboard
    && bool_eq a.redirect_drives b.redirect_drives
    && bool_eq a.redirect_devices b.redirect_devices
    && bool_eq a.redirect_smart_cards b.redirect_smart_cards
    && bool_eq a.redirect_ports b.redirect_ports
    && bool_eq a.audio_capture_redirect b.audio_capture_redirect
    && a.initial_desktop_width == b.initial_desktop_width
    && a.initial_desktop_height == b.initial_desktop_height
    && a.color_depth == b.color_depth
    && a.dpi_scale_override_percent == b.dpi_scale_override_percent

bool_eq_refl : (a : Bool) → bool_eq a a ≡ true
bool_eq_refl true = refl
bool_eq_refl false = refl

audio_mode_eq_refl : (a : AudioMode) → audio_mode_eq a a ≡ true
audio_mode_eq_refl redirect = refl
audio_mode_eq_refl _ = refl

number_eq_refl : (a : ℕ) → (a == a) ≡ true
number_eq_refl a = ground arith

rdp_options_eq_refl : (a : RdpOptions) → rdp_options_eq a a ≡ true
unfolding rdp_options_eq
rdp_options_eq_refl a = simp (
  audio_mode_eq_refl,
  bool_eq_refl,
  number_eq_refl a.initial_desktop_width,
  number_eq_refl a.initial_desktop_height,
  number_eq_refl a.color_depth,
  number_eq_refl a.dpi_scale_override_percent,
)

eq_of_rdp_options_eq : (a b : RdpOptions) → rdp_options_eq a b ≡ true → a ≡ b
unfolding rdp_options_eq
eq_of_rdp_options_eq a b h = ground arith

-- The comparison misses no field: it holds of two sets of options exactly if they are the same.
pub rdp_options_eq_iff : (a b : RdpOptions) → (rdp_options_eq a b ≡ true) ↔ (a ≡ b)
rdp_options_eq_iff a b = (eq_of_rdp_options_eq a b, λ e. rw e (rdp_options_eq_refl b))
