-- ===== src/Settings/Json.antt =====
-- Reading the options of a remote desktop session out of settings.json: `RdpOptionsFromJson` in
-- src/app/settings/Settings.cpp. The JSON object and the floating-point numbers in it are parameters.
pub mod Usable
pub mod Stored
use hyprv.Prelude.{
  ℕ, ◌<◌, ◌≤◌, ◌≡◌, ◌^◌, Bool, true, false, ◌||◌, Option, none, some, List, [], ◌∷◌, ◌==◌, ltb,
  ◌>>=◌, if◌then◌else◌,
}
use hyprv.Prelude.Text.{Text, codes}
use hyprv.Settings.Options.{AudioMode, RdpOptions, audio_mode_from_string}

-- `JsonObject` and `double`. A `GetNamed...` throws, `none`, where the value has another type. `to_uint16`
-- is `static_cast<uint16_t>`, any number where the language leaves the value open.
pub record JsonReader : Type 1 where
  pub Object : Type 0
  pub Double : Type 0
  pub has_key : Object → Text → Bool
  pub get_named_string : Object → Text → Text → Option Text
  pub get_named_boolean : Object → Text → Bool → Option Bool
  pub get_named_number : Object → Text → Double → Option Double
  pub of_nat : ℕ → Double
  pub lt : Double → Double → Bool
  pub to_uint16 : Double → ℕ
  pub lt_of_nat : (a b : ℕ) → lt (of_nat a) (of_nat b) ≡ ltb a b
  pub to_uint16_between :
      (v : Double) (a b : ℕ)
      → b < 2 ^ 16
      → lt v (of_nat a) ≡ false
      → lt (of_nat b) v ≡ false
      → (a ≤ to_uint16 v) × (to_uint16 v ≤ b)

module _ (js : JsonReader) where
  open js use {
    Object, Double, has_key, get_named_string, get_named_boolean, get_named_number, of_nat, lt,
    to_uint16,
  }

  -- `if (v < lo) v = lo; if (v > hi) v = hi;` and the cast.
  unfoldable pub clamped : ℕ → ℕ → Double → ℕ
  clamped lo hi v =
      let raised = if lt v (of_nat lo) then of_nat lo else v in
      to_uint16 (if lt (of_nat hi) raised then of_nat hi else raised)

  unfoldable pub snapped_depth : ℕ → ℕ
  snapped_depth iv = if iv == 16 || iv == 24 || iv == 32 then iv else 32

  unfoldable pub snapped_scale : ℕ → ℕ
  snapped_scale iv =
      if iv == 0 || iv == 100 || iv == 125 || iv == 150 || iv == 175 || iv == 200 then iv else 0

  -- `if (obj.HasKey(key)) out.field = ...`. `none` is a throw.
  abbrev pub overlay {ℓ} :
      {V : Type ℓ}
      → (Object → Text → V → Option V)
      → Text
      → V
      → (V → RdpOptions)
      → Object
      → RdpOptions
      → Option RdpOptions
  overlay get key fallback put obj o =
      if has_key obj key then (do v ← get obj key fallback; some (put v)) else some o

  abbrev pub flag_field :
      Text
      → (RdpOptions → Bool)
      → (Bool → RdpOptions → RdpOptions)
      → Object
      → RdpOptions
      → Option RdpOptions
  flag_field key field put obj o = overlay get_named_boolean key (field o) (λ b. put b o) obj o

  abbrev pub number_field :
      Text
      → (RdpOptions → ℕ)
      → (Double → RdpOptions → RdpOptions)
      → Object
      → RdpOptions
      → Option RdpOptions
  number_field key field put obj o =
      overlay get_named_number key (of_nat (field o)) (λ v. put v o) obj o

  abbrev pub audio_field : Object → RdpOptions → Option RdpOptions
  audio_field obj o =
      overlay get_named_string (codes "audioMode") (codes "redirect")
        (λ t. record o { audio_mode = audio_mode_from_string t }) obj o

  -- The fields in the order of the code.
  abbrev pub option_fields : List (Object → RdpOptions → Option RdpOptions)
  option_fields =
      audio_field
      ∷ flag_field (codes "redirectClipboard") (λ o. o.redirect_clipboard)
          (λ b o. record o { redirect_clipboard = b })
      ∷ flag_field (codes "redirectDrives") (λ o. o.redirect_drives)
          (λ b o. record o { redirect_drives = b })
      ∷ flag_field (codes "redirectDevices") (λ o. o.redirect_devices)
          (λ b o. record o { redirect_devices = b })
      ∷ flag_field (codes "redirectSmartCards") (λ o. o.redirect_smart_cards)
          (λ b o. record o { redirect_smart_cards = b })
      ∷ flag_field (codes "redirectPorts") (λ o. o.redirect_ports)
          (λ b o. record o { redirect_ports = b })
      ∷ flag_field (codes "audioCaptureRedirect") (λ o. o.audio_capture_redirect)
          (λ b o. record o { audio_capture_redirect = b })
      ∷ number_field (codes "initialDesktopWidth") (λ o. o.initial_desktop_width)
          (λ v o. record o { initial_desktop_width = clamped 320 7680 v })
      ∷ number_field (codes "initialDesktopHeight") (λ o. o.initial_desktop_height)
          (λ v o. record o { initial_desktop_height = clamped 240 4320 v })
      ∷ number_field (codes "colorDepth") (λ o. o.color_depth)
          (λ v o. record o { color_depth = snapped_depth (to_uint16 v) })
      ∷ number_field (codes "dpiScaleOverridePercent") (λ o. o.dpi_scale_override_percent)
          (λ v o. record o { dpi_scale_override_percent = snapped_scale (to_uint16 v) })
      ∷ []

  -- The options after the fields that were read, and whether one threw.
  unfoldable pub read_fields :
      List (Object → RdpOptions → Option RdpOptions) → Object → RdpOptions → RdpOptions × Bool
  read_fields [] obj o = (o, false)
  read_fields (f ∷ fs) obj o = elim (f obj o) [ none ↦ (o, true) | some o' ↦ read_fields fs obj o' ]

  unfoldable pub rdp_options_from_json : Object → RdpOptions → RdpOptions × Bool
  rdp_options_from_json = read_fields option_fields
