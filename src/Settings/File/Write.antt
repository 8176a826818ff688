-- ===== src/Settings/File/Write.antt =====
-- `SaveLocked` up to the finished text. Each function is the text that a part of the method appends,
-- with what is appended after it.
pub mod Pieces
pub mod Entries
pub mod Prefs
pub mod Whole
pub mod Order
use hyprv.Prelude.{
  ℕ, ◌/◌, Bool, true, false, not, ◌&&◌, ◌||◌, Option, none, some, List, [], ◌∷◌, ◌++◌, ◌==◌, ltb,
  if◌then◌else◌, ◌^◌, ◌-◌,
}
use hyprv.Prelude.Text.{Text, codes, text_eq}
use hyprv.Prelude.Int.{ℤ, negsuc, eq_ℤ}
use hyprv.Settings.Options.{RdpOptions, backdrop_to_string, theme_to_string, audio_mode_to_string}
use hyprv.Settings.Map.{Map, lookup}
use hyprv.Settings.Recents.{Recent, RecentKind}
use hyprv.Settings.RemoteHosts.{RemoteHost}
use hyprv.Settings.VmPrefs.{VmPrefs, no_prefs}
use hyprv.Settings.General.{Window, Appearance, OpenTab}
use hyprv.Settings.File.State.{Numbers, Saved}
use hyprv.Settings.File.Parts.{
  at_key, esc, escape_body, escape_char, insert_sorted, int_min, is_set, keys_of, put_array,
  put_bool, put_comma, put_each, put_object, sort_keys, text_lt,
}

unfoldable pub put_tab : OpenTab → Text → Text
put_tab t out =
    codes "    {\n      \"type\": "
    ++ esc t.kind (codes ",\n      \"identifier\": " ++ esc t.identifier (codes "\n    }" ++ out))

unfoldable pub put_override : Map Bool → Text → Text → Text
put_override m k out =
    codes "    " ++ esc k (codes ": " ++ put_bool (at_key false (lookup k m)) out)

-- `comma()`, with `wroteAny`.
abbrev pub put_field {ℓ} : {A : Type ℓ} → Bool → Option A → (A → Text → Text) → (Bool → Text) → Text
put_field wrote none put more = more wrote
put_field true (some a) put more = codes ",\n" ++ put a (more true)
put_field false (some a) put more = put a (more true)

-- A flag that is written if it is set, with `first`.
unfoldable pub put_flag_after : Bool → Text → Option Bool → Text → Text
put_flag_after first key none out = out
put_flag_after true key (some b) out = key ++ put_bool b out
put_flag_after false key (some b) out = codes ", " ++ (key ++ put_bool b out)

unfoldable pub put_short_prefs : VmPrefs → Text → Text
put_short_prefs p out =
    codes ": { "
    ++ put_flag_after true (codes "\"enhancedSession\": ") p.enhanced_session (
        put_flag_after (not (is_set p.enhanced_session)) (codes "\"enhancedSessionSupported\": ")
          p.enhanced_session_supported (codes " }" ++ out))

abbrev pub is_long : VmPrefs → Bool
is_long p = is_set p.rdp_options || is_set p.debugger_exe || is_set p.debugger_args

abbrev pub kind_token : RecentKind → Text
kind_token RecentKind.remote = codes "remote"
kind_token RecentKind.vm = codes "vm"

module _ (nums : Numbers) where
  open nums use {Double, show_int, show_nat, show_double}

  abbrev pub put_flag_line : Text → Text → Bool → Text → Text
  put_flag_line indent key b out = indent ++ (key ++ put_bool b (codes ",\n" ++ out))

  abbrev pub put_number_line : Text → Text → ℕ → Text → Text
  put_number_line indent key n out = indent ++ (key ++ (show_nat n ++ out))

  unfoldable pub put_rdp_options : RdpOptions → Text → Text → Text
  put_rdp_options o indent out =
      indent
      ++ (codes "\"audioMode\": "
          ++ esc (audio_mode_to_string o.audio_mode) (
              codes ",\n"
              ++ put_flag_line indent (codes "\"redirectClipboard\": ") o.redirect_clipboard (
                  put_flag_line indent (codes "\"redirectDrives\": ") o.redirect_drives (
                    put_flag_line indent (codes "\"redirectDevices\": ") o.redirect_devices (
                      put_flag_line indent (codes "\"redirectSmartCards\": ") o.redirect_smart_cards
                        (put_flag_line indent (codes "\"redirectPorts\": ") o.redirect_ports (
                          put_flag_line indent (codes "\"audioCaptureRedirect\": ")
                            o.audio_capture_redirect
                            (put_number_line indent (codes "\"initialDesktopWidth\": ")
                              o.initial_desktop_width
                              (codes ",\n"
                                ++ put_number_line indent (codes "\"initialDesktopHeight\": ")
                                    o.initial_desktop_height
                                    (codes ",\n"
                                      ++ put_number_line indent (codes "\"colorDepth\": ")
                                          o.color_depth
                                          (codes ",\n"
                                            ++ put_number_line indent
                                                (codes "\"dpiScaleOverridePercent\": ")
                                                o.dpi_scale_override_percent
                                                (codes "\n" ++ out))))))))))))

  unfoldable pub put_window : Window Double → Text → Text
  put_window w out =
      codes "  \"window\": {\n"
      ++ (let rest : Text =
            codes "    \"width\": "
            ++ (show_int w.width
                ++ (codes ",\n    \"height\": "
                    ++ (show_int w.height
                        ++ (codes ",\n    \"railWidth\": "
                            ++ (show_double w.rail_width
                                ++ (codes ",\n    \"flyoutWidth\": "
                                    ++ (show_double w.flyout_width
                                        ++ (codes ",\n    \"railVisible\": "
                                            ++ put_bool w.rail_visible (
                                                codes ",\n    \"flyoutVisible\": "
                                                ++ put_bool w.flyout_visible
                                                    (codes "\n  },\n" ++ out)))))))))) in
          if not (eq_ℤ w.x int_min) && not (eq_ℤ w.y int_min)
          then codes "    \"x\": "
            ++ (show_int w.x ++ (codes ",\n    \"y\": " ++ (show_int w.y ++ (codes ",\n" ++ rest))))
          else rest)

  unfoldable pub put_appearance : Appearance Double → Text → Text
  put_appearance a out =
      codes "  \"appearance\": {\n    \"backdrop\": "
      ++ esc (backdrop_to_string a.backdrop) (
          codes ",\n    \"theme\": "
          ++ esc (theme_to_string a.theme) (
              codes ",\n    \"acrylicTintOpacity\": "
              ++ (show_double a.acrylic_tint_opacity
                  ++ (codes ",\n    \"micaTintOpacity\": "
                      ++ (show_double a.mica_tint_opacity ++ (codes "\n  },\n" ++ out))))))

  unfoldable pub put_long_prefs : VmPrefs → Text → Text
  put_long_prefs p out =
      codes ": {\n"
      ++ put_field false p.enhanced_session
          (λ b t. codes "      \"enhancedSession\": " ++ put_bool b t)
          λ w1.
            put_field w1 p.enhanced_session_supported
              (λ b t. codes "      \"enhancedSessionSupported\": " ++ put_bool b t)
              λ w2.
                put_field w2 p.debugger_exe (λ s t. codes "      \"debuggerExe\": " ++ esc s t)
                  λ w3.
                    put_field w3 p.debugger_args
                      (λ s t. codes "      \"debuggerArgs\": " ++ esc s t)
                      λ w4.
                        put_field w4 p.rdp_options
                          (λ o t.
                            codes "      \"rdpOptions\": {\n"
                            ++ put_rdp_options o (codes "        ") (codes "      }" ++ t))
                          λ w5. codes "\n    }" ++ out

  unfoldable pub put_prefs : Map VmPrefs → Text → Text → Text
  unfolding put_long_prefs put_short_prefs
  put_prefs m k out =
      let p = at_key no_prefs (lookup k m) in
      codes "    " ++ esc k (if is_long p then put_long_prefs p out else put_short_prefs p out)

  unfoldable pub put_host : RemoteHost → Text → Text
  put_host h out =
      codes "    {\n      \"name\": "
      ++ esc h.name (
          codes ",\n      \"address\": "
          ++ esc h.address (
              codes ",\n      \"username\": "
              ++ esc h.username (
                  codes ",\n      \"domain\": "
                  ++ esc h.domain (
                      codes ",\n      \"port\": "
                      ++ (show_nat h.port
                          ++ (codes ",\n      \"rdp\": {\n"
                              ++ put_rdp_options h.rdp (codes "        ")
                                  (codes "      }\n    }" ++ out)))))))

  -- The clock's ticks in a microsecond are the compiler's; `TimePointToTicks` divides by them.
  unfoldable pub put_recent : ℕ → Recent → Text → Text
  put_recent period r out =
      codes "    {\n      \"guid\": "
      ++ esc r.guid (
          codes ",\n      \"kind\": "
          ++ esc (kind_token r.kind) (
              codes ",\n      \"lastOpened\": "
              ++ (show_nat (r.last_opened / period) ++ (codes "\n    }" ++ out))))

  -- Up to the options of all sessions.
  unfoldable pub put_values : Saved Double → Text → Text
  put_values s out =
      codes "{\n  \"version\": 1,\n  \"diagnostics\": {\n    \"loggingEnabled\": "
      ++ put_bool s.general.logging_enabled (
          codes "\n  },\n  \"general\": {\n    \"keepHomeTabOpen\": "
          ++ put_bool s.general.keep_home_tab_open (
              codes "\n  },\n  \"debugger\": {\n    \"enabled\": "
              ++ put_bool s.general.debugger_enabled (
                  codes ",\n    \"exe\": "
                  ++ esc s.general.debugger_exe (
                      codes "\n  },\n"
                      ++ put_window s.general.window (
                          codes "  \"openTabs\": ["
                          ++ put_array put_tab s.general.open_tabs (
                              codes ",\n  \"selectedTabIndex\": "
                              ++ (show_int s.general.selected_tab_index
                                  ++ (codes ",\n"
                                      ++ put_appearance s.general.appearance (
                                          codes "  \"rdpDefaults\": {\n"
                                          ++ put_rdp_options s.rdp_defaults (codes "    ")
                                              (codes "  },\n" ++ out))))))))))

  unfoldable pub put_maps : Saved Double → Text → Text
  put_maps s out =
      codes "  \"confirmations\": {"
      ++ put_object (put_override s.confirm_overrides) (sort_keys (keys_of s.confirm_overrides)) (
          codes ",\n  \"vmPrefs\": {"
          ++ put_object (put_prefs s.vm_prefs) (sort_keys (keys_of s.vm_prefs))
              (codes ",\n" ++ out))

  unfoldable pub put_lists : ℕ → Saved Double → Text
  put_lists period s =
      codes "  \"remoteHosts\": ["
      ++ put_array put_host s.remote_hosts
          (codes ",\n  \"recents\": [" ++ put_array (put_recent period) s.recents (codes "\n}\n"))

  unfoldable pub save_text : ℕ → Saved Double → Text
  save_text period s = put_values s (put_maps s (put_lists period s))
