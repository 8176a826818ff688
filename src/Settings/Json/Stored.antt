-- ===== src/Settings/Json/Stored.antt =====
-- Options that the file holds are read back.
use hyprv.Prelude.{
  ℕ, ◌<◌, ◌≤◌, ◌≡◌, ◌^◌, ap, true, false, Option, some, List, [], ◌∷◌, arith, OneOf,
}
use hyprv.Prelude.Text.{Text, codes}
use hyprv.Settings.Options.{mica, system, RdpOptions, audio_mode_to_string, tokens_round_trip}
use hyprv.Settings.Json.{
  JsonReader, clamped, snapped_depth, snapped_scale, overlay, option_fields, read_fields,
  rdp_options_from_json,
}
use hyprv.Settings.Json.Usable.{IsUsable}

module _ (js : JsonReader) where
  open js use {Object, Double, has_key, of_nat, lt, lt_of_nat, to_uint16, to_uint16_between}

  -- The object has a key, and its value there.
  abbrev pub Has {ℓ} : {V : Type ℓ} → (Object → Text → V → Option V) → Object → Text → V → Type ℓ
  Has {V} get obj key v =
      (has_key obj key ≡ true) × ((fallback : V) → get obj key fallback ≡ some v)

  -- The object holds all eleven fields of a set of options.
  pub record Holds (obj : Object) (o : RdpOptions) : Type 0 where
    pub audio : Has js.get_named_string obj (codes "audioMode") (audio_mode_to_string o.audio_mode)
    pub clipboard : Has js.get_named_boolean obj (codes "redirectClipboard") o.redirect_clipboard
    pub drives : Has js.get_named_boolean obj (codes "redirectDrives") o.redirect_drives
    pub devices : Has js.get_named_boolean obj (codes "redirectDevices") o.redirect_devices
    pub smart_cards :
        Has js.get_named_boolean obj (codes "redirectSmartCards") o.redirect_smart_cards
    pub ports : Has js.get_named_boolean obj (codes "redirectPorts") o.redirect_ports
    pub capture :
        Has js.get_named_boolean obj (codes "audioCaptureRedirect") o.audio_capture_redirect
    pub width :
        Has js.get_named_number obj (codes "initialDesktopWidth") (of_nat o.initial_desktop_width)
    pub height :
        Has js.get_named_number obj (codes "initialDesktopHeight") (of_nat o.initial_desktop_height)
    pub depth : Has js.get_named_number obj (codes "colorDepth") (of_nat o.color_depth)
    pub scale :
        Has js.get_named_number obj
          (codes "dpiScaleOverridePercent")
          (of_nat o.dpi_scale_override_percent)

  pub to_uint16-of_nat : (n : ℕ) → n < 2 ^ 16 → to_uint16 (of_nat n) ≡ n
  to_uint16-of_nat n h = ground (arith, lt_of_nat n n, to_uint16_between (of_nat n) n n h)

  clamped-of_nat :
      (lo hi n : ℕ) → (lo ≤ n) × (n ≤ hi) → hi < 2 ^ 16 → clamped js lo hi (of_nat n) ≡ n
  unfolding clamped
  clamped-of_nat lo hi n h k =
      ground (arith, h.0, h.1, lt_of_nat n lo, lt_of_nat hi n, to_uint16-of_nat n)

  depth-of_nat : (n : ℕ) → OneOf (16 ∷ 24 ∷ 32 ∷ []) n → snapped_depth js (to_uint16 (of_nat n)) ≡ n
  unfolding snapped_depth
  depth-of_nat n h = ground (arith, to_uint16-of_nat n)

  scale-of_nat :
      (n : ℕ)
      → OneOf (0 ∷ 100 ∷ 125 ∷ 150 ∷ 175 ∷ 200 ∷ []) n
      → snapped_scale js (to_uint16 (of_nat n)) ≡ n
  unfolding snapped_scale
  scale-of_nat n h = ground (arith, to_uint16-of_nat n)

  -- A run of readers that does not throw.
  abbrev Reads :
      List (Object → RdpOptions → Option RdpOptions) → Object → RdpOptions → RdpOptions → Type 0
  Reads [] obj o last = o ≡ last
  Reads (f ∷ fs) obj o last = (o' : RdpOptions) × (f obj o ≡ some o') × Reads fs obj o' last

  read_fields-Reads :
      (fs : List (Object → RdpOptions → Option RdpOptions)) (obj : Object) (o last : RdpOptions)
      → Reads fs obj o last
      → read_fields js fs obj o ≡ (last, false)
  unfolding read_fields
  read_fields-Reads [] obj o last e = ap (λ r. (r, false)) e
  read_fields-Reads (f ∷ fs) obj o last (o', e, more) =
      rw (e, read_fields) (read_fields-Reads fs obj o' last more)

  overlay-Has {ℓ} :
      {V : Type ℓ} (get : Object → Text → V → Option V) (key : Text) (fallback v : V)
      (put : V → RdpOptions) (obj : Object) (o : RdpOptions)
      → Has get obj key v
      → overlay js get key fallback put obj o ≡ some (put v)
  overlay-Has get key fallback v put obj o (there, value) = rw there (rw (value fallback))

  -- An object that holds usable options is read back as these options, whatever the options were
  -- before, and nothing throws.
  pub rdp_options_from_json-Holds :
      (obj : Object) (o opts : RdpOptions)
      → Holds obj opts
      → IsUsable opts
      → rdp_options_from_json js obj o ≡ (opts, false)
  unfolding rdp_options_from_json
  rdp_options_from_json-Holds obj o opts h u = read_fields-Reads (option_fields js) obj o opts (
    _,
    overlay-Has js.get_named_string (codes "audioMode") _ _ _ obj _ h.audio,
    (
      _,
      overlay-Has js.get_named_boolean (codes "redirectClipboard") _ _ _ obj _ h.clipboard,
      (
        _,
        overlay-Has js.get_named_boolean (codes "redirectDrives") _ _ _ obj _ h.drives,
        (
          _,
          overlay-Has js.get_named_boolean (codes "redirectDevices") _ _ _ obj _ h.devices,
          (
            _,
            overlay-Has js.get_named_boolean (codes "redirectSmartCards") _ _ _ obj _ h.smart_cards,
            (
              _,
              overlay-Has js.get_named_boolean (codes "redirectPorts") _ _ _ obj _ h.ports,
              (
                _,
                overlay-Has js.get_named_boolean (codes "audioCaptureRedirect") _ _ _ obj _
                    h.capture,
                (
                  _,
                  overlay-Has js.get_named_number (codes "initialDesktopWidth") _ _ _ obj _ h.width,
                  (
                    _,
                    overlay-Has js.get_named_number (codes "initialDesktopHeight") _ _ _ obj _
                        h.height,
                    (
                      _,
                      overlay-Has js.get_named_number (codes "colorDepth") _ _ _ obj _ h.depth,
                      (
                        _,
                        overlay-Has js.get_named_number (codes "dpiScaleOverridePercent") _ _ _ obj
                            _ h.scale,
                        λ i. record {
                          audio_mode = (tokens_round_trip mica system opts.audio_mode).2 i;
                          redirect_clipboard = opts.redirect_clipboard;
                          redirect_drives = opts.redirect_drives;
                          redirect_devices = opts.redirect_devices;
                          redirect_smart_cards = opts.redirect_smart_cards;
                          redirect_ports = opts.redirect_ports;
                          audio_capture_redirect = opts.audio_capture_redirect;
                          initial_desktop_width =
                              clamped-of_nat 320 7680 opts.initial_desktop_width u.width
                                (omega arith) i;
                          initial_desktop_height =
                              clamped-of_nat 240 4320 opts.initial_desktop_height u.height
                                (omega arith) i;
                          color_depth = depth-of_nat opts.color_depth u.depth i;
                          dpi_scale_override_percent =
                              scale-of_nat opts.dpi_scale_override_percent u.scale i;
                        },
                      ),
                    ),
                  ),
                ),
              ),
            ),
          ),
        ),
      ),
    ),
  )
