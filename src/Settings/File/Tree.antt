-- ===== src/Settings/File/Tree.antt =====
-- The tree that the text of the file stands for, member by member.
use hyprv.Prelude.{ℕ, ◌/◌, Bool, false, not, ◌&&◌, Option, none, some, List, [], ◌∷◌, if◌then◌else◌}
use hyprv.Prelude.Text.{Text, codes}
use hyprv.Prelude.Int.{eq_ℤ}
use hyprv.Settings.Options.{RdpOptions, backdrop_to_string, theme_to_string, audio_mode_to_string}
use hyprv.Settings.Map.{Map, lookup}
use hyprv.Settings.Recents.{Recent}
use hyprv.Settings.RemoteHosts.{RemoteHost}
use hyprv.Settings.VmPrefs.{VmPrefs, no_prefs}
use hyprv.Settings.General.{Window, Appearance, OpenTab}
use hyprv.Settings.File.State.{Numbers, Saved}
use hyprv.Settings.File.Grammar.{
  Json, bool, number, string, array, object, Items, no_items, item, Members, no_members, member,
}
use hyprv.Settings.File.Write.{kind_token}
use hyprv.Settings.File.Parts.{sort_keys, keys_of, at_key, int_min}

module _ (nums : Numbers) where
  open nums use {Double, of_int, of_nat}

  abbrev pub rdp_members : RdpOptions → Members Double
  rdp_members o = member (codes "audioMode") (string (audio_mode_to_string o.audio_mode)) (
      member (codes "redirectClipboard") (bool o.redirect_clipboard) (
        member (codes "redirectDrives") (bool o.redirect_drives) (
          member (codes "redirectDevices") (bool o.redirect_devices) (
            member (codes "redirectSmartCards") (bool o.redirect_smart_cards) (
              member (codes "redirectPorts") (bool o.redirect_ports) (
                member (codes "audioCaptureRedirect") (bool o.audio_capture_redirect) (
                  member (codes "initialDesktopWidth") (number (of_nat o.initial_desktop_width)) (
                    member (codes "initialDesktopHeight") (number (of_nat o.initial_desktop_height))
                      (member (codes "colorDepth") (number (of_nat o.color_depth)) (
                        member (codes "dpiScaleOverridePercent")
                          (number (of_nat o.dpi_scale_override_percent)) no_members))))))))))

  abbrev pub size_members : Window Double → Members Double
  size_members w = member (codes "width") (number (of_int w.width)) (
      member (codes "height") (number (of_int w.height)) (
        member (codes "railWidth") (number w.rail_width) (
          member (codes "flyoutWidth") (number w.flyout_width) (
            member (codes "railVisible") (bool w.rail_visible)
              (member (codes "flyoutVisible") (bool w.flyout_visible) no_members)))))

  abbrev pub window_members : Window Double → Members Double
  window_members w =
      if not (eq_ℤ w.x int_min) && not (eq_ℤ w.y int_min)
      then member (codes "x") (number (of_int w.x))
          (member (codes "y") (number (of_int w.y)) (size_members w))
      else size_members w

  abbrev pub items_of {ℓ} : {A : Type ℓ} → (A → Json Double) → List A → Items Double
  items_of f [] = no_items
  items_of f (a ∷ rest) = item (f a) (items_of f rest)

  abbrev pub members_of : (Text → Json Double) → List Text → Members Double
  members_of f [] = no_members
  members_of f (k ∷ ks) = member k (f k) (members_of f ks)

  abbrev pub tab_object : OpenTab → Json Double
  tab_object t = object (
      member (codes "type") (string t.kind)
        (member (codes "identifier") (string t.identifier) no_members))

  abbrev pub appearance_members : Appearance Double → Members Double
  appearance_members a = member (codes "backdrop") (string (backdrop_to_string a.backdrop)) (
      member (codes "theme") (string (theme_to_string a.theme)) (
        member (codes "acrylicTintOpacity") (number a.acrylic_tint_opacity)
          (member (codes "micaTintOpacity") (number a.mica_tint_opacity) no_members)))

  abbrev pub override_value : Map Bool → Text → Json Double
  override_value m k = bool (at_key false (lookup k m))

  abbrev pub optional_member {ℓ} :
      {A : Type ℓ} → Text → Option A → (A → Json Double) → Members Double → Members Double
  optional_member k none f ms = ms
  optional_member k (some a) f ms = member k (f a) ms

  abbrev pub pref_members : VmPrefs → Members Double
  pref_members p =
      optional_member (codes "enhancedSession") p.enhanced_session (λ b. bool b)
        (optional_member (codes "enhancedSessionSupported") p.enhanced_session_supported
          (λ b. bool b)
          (optional_member (codes "debuggerExe") p.debugger_exe (λ s. string s)
            (optional_member (codes "debuggerArgs") p.debugger_args (λ s. string s)
              (optional_member (codes "rdpOptions") p.rdp_options (λ o. object (rdp_members o))
                no_members))))

  abbrev pub prefs_value : Map VmPrefs → Text → Json Double
  prefs_value m k = object (pref_members (at_key no_prefs (lookup k m)))

  abbrev pub host_object : RemoteHost → Json Double
  host_object h = object (
      member (codes "name") (string h.name) (
        member (codes "address") (string h.address) (
          member (codes "username") (string h.username) (
            member (codes "domain") (string h.domain) (
              member (codes "port") (number (of_nat h.port))
                (member (codes "rdp") (object (rdp_members h.rdp)) no_members))))))

  abbrev pub recent_object : ℕ → Recent → Json Double
  recent_object period r = object (
      member (codes "guid") (string r.guid) (
        member (codes "kind") (string (kind_token r.kind))
          (member (codes "lastOpened") (number (of_nat (r.last_opened / period))) no_members)))

  abbrev pub root_members : ℕ → Saved Double → Members Double
  root_members period s = member (codes "version") (number (of_nat 1)) (
      member (codes "diagnostics")
        (object (member (codes "loggingEnabled") (bool s.general.logging_enabled) no_members))
        (member (codes "general")
          (object (member (codes "keepHomeTabOpen") (bool s.general.keep_home_tab_open) no_members))
          (member (codes "debugger")
            (object (
              member (codes "enabled") (bool s.general.debugger_enabled)
                (member (codes "exe") (string s.general.debugger_exe) no_members)))
            (member (codes "window") (object (window_members s.general.window)) (
              member (codes "openTabs") (array (items_of tab_object s.general.open_tabs)) (
                member (codes "selectedTabIndex") (number (of_int s.general.selected_tab_index)) (
                  member (codes "appearance") (object (appearance_members s.general.appearance)) (
                    member (codes "rdpDefaults") (object (rdp_members s.rdp_defaults)) (
                      member (codes "confirmations")
                        (object (
                          members_of (override_value s.confirm_overrides)
                            (sort_keys (keys_of s.confirm_overrides))))
                        (member (codes "vmPrefs")
                          (object
                            (members_of (prefs_value s.vm_prefs) (sort_keys (keys_of s.vm_prefs))))
                          (member (codes "remoteHosts")
                            (array (items_of host_object s.remote_hosts))
                            (member (codes "recents")
                              (array (items_of (recent_object period) s.recents))
                              no_members))))))))))))
