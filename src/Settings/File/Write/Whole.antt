-- ===== src/Settings/File/Write/Whole.antt =====
-- The finished text of `SaveLocked` stands for the tree of the settings.
use hyprv.Prelude.{ℕ, ◌≡◌, refl, Bool, true, false, ◌∷◌, ◌++◌, if◌then◌else◌, All}
use hyprv.Prelude.Text.{Text, codes}
use hyprv.Prelude.Int.{IsInt32}
use hyprv.Settings.General.{Window, Appearance}
use hyprv.Settings.Options.{Backdrop, Theme, backdrop_to_string, theme_to_string}
use hyprv.Settings.File.State.{Numbers, Saved}
use hyprv.Settings.File.Grammar.{
  number, object, Members, member, separator, numeral, braced, end_object, IsText,
}
use hyprv.Settings.File.Write.{
  put_values, put_maps, put_lists, put_window, put_appearance, put_override, put_prefs, put_recent,
  put_host, put_tab, save_text,
}
use hyprv.Settings.File.Parts.{put_bool}
use hyprv.Settings.File.Write.Pieces.{
  all_writable, IsFields, esc-Value, put_bool-Value, named, Fits16, put_rdp_options-Fields,
}
use hyprv.Settings.File.Write.Entries.{
  sort_keys-All, keys_of-All, put_array-Value, put_object-Value, IsWritableTab, put_tab-Value,
  IsWritableHost, put_host-Value, IsWritableRecent, put_recent-Value, put_override-Fields,
}
use hyprv.Settings.File.Write.Prefs.{IsWritablePrefs, put_prefs-Fields}
use hyprv.Settings.File.Tree.{
  size_members, window_members, tab_object, appearance_members, override_value, prefs_value,
  host_object, recent_object, root_members,
}

backdrop_writable : (b : Backdrop) → all_writable (backdrop_to_string b) ≡ true
unfolding backdrop_to_string
backdrop_writable Backdrop.mica = refl
backdrop_writable Backdrop.acrylic = refl

theme_writable : (t : Theme) → all_writable (theme_to_string t) ≡ true
unfolding theme_to_string
theme_writable Theme.system = refl
theme_writable _ = refl

module _ (nums : Numbers) where
  open nums use {Double, IsNumeral, show_double}

  -- What `%g` writes of the value is read as the value again.
  abbrev pub IsShort : Double → Type 0
  IsShort d = IsNumeral (show_double d) d

  pub record IsWritableWindow (w : Window Double) : Type 0 where
    pub x : IsInt32 w.x
    pub y : IsInt32 w.y
    pub width : IsInt32 w.width
    pub height : IsInt32 w.height
    pub rail_width : IsShort w.rail_width
    pub flyout_width : IsShort w.flyout_width

  -- The values of the types of the fields, and texts and `double`s that the format keeps.
  pub record IsStorable (period : ℕ) (s : Saved Double) : Type 0 where
    pub debugger_exe : all_writable s.general.debugger_exe ≡ true
    pub window : IsWritableWindow s.general.window
    pub open_tabs : All (IsWritableTab nums) s.general.open_tabs
    pub selected_tab_index : IsInt32 s.general.selected_tab_index
    pub acrylic_tint_opacity : IsShort s.general.appearance.acrylic_tint_opacity
    pub mica_tint_opacity : IsShort s.general.appearance.mica_tint_opacity
    pub rdp_defaults : Fits16 nums s.rdp_defaults
    pub confirm_keys : All (λ e. all_writable e.0 ≡ true) s.confirm_overrides
    pub vm_keys : All (λ e. all_writable e.0 ≡ true) s.vm_prefs
    pub vm_prefs : All (λ e. IsWritablePrefs nums e.1) s.vm_prefs
    pub remote_hosts : All (IsWritableHost nums) s.remote_hosts
    pub recents : All (IsWritableRecent nums period) s.recents

  -- What follows the position.
  abbrev put_size : Window Double → Text → Text
  put_size w out =
      codes "    \"width\": "
      ++ (nums.show_int w.width
          ++ (codes ",\n    \"height\": "
              ++ (nums.show_int w.height
                  ++ (codes ",\n    \"railWidth\": "
                      ++ (show_double w.rail_width
                          ++ (codes ",\n    \"flyoutWidth\": "
                              ++ (show_double w.flyout_width
                                  ++ (codes ",\n    \"railVisible\": "
                                      ++ put_bool w.rail_visible (
                                          codes ",\n    \"flyoutVisible\": "
                                          ++ put_bool w.flyout_visible
                                              (codes "\n  },\n" ++ out))))))))))

  size-IsFields :
      (w : Window Double) (first : Bool) (out : Text)
      → IsWritableWindow w
      → IsFields nums first
          (size_members nums w)
          (separator first ++ 10 ∷ put_size w out)
          (codes ",\n" ++ out)
  size-IsFields w first out h =
      named nums (codes "\n    ") (codes "width") refl refl
        (numeral _ (nums.show_int_numeral w.width h.width))
        (named nums (codes "\n    ") (codes "height") refl refl
          (numeral _ (nums.show_int_numeral w.height h.height))
          (named nums (codes "\n    ") (codes "railWidth") refl refl (numeral _ h.rail_width) (
            named nums (codes "\n    ") (codes "flyoutWidth") refl refl (numeral _ h.flyout_width) (
              named nums (codes "\n    ") (codes "railVisible") refl refl (put_bool-Value nums _ _)
                (named nums (codes "\n    ") (codes "flyoutVisible") refl refl
                  (put_bool-Value nums _ _) (end_object (codes "\n  ") refl))))))

  window-IsFields :
      (placed : Bool) (w : Window Double) (out : Text)
      → IsWritableWindow w
      → IsFields nums true
          (if placed
            then member
                (codes "x")
                (number (nums.of_int w.x))
                (member (codes "y") (number (nums.of_int w.y)) (size_members nums w))
            else size_members nums w)
          (10
            ∷ (if placed
                then codes "    \"x\": "
                  ++ (nums.show_int w.x
                      ++ (codes ",\n    \"y\": "
                          ++ (nums.show_int w.y ++ (codes ",\n" ++ put_size w out))))
                else put_size w out))
          (codes ",\n" ++ out)
  window-IsFields true w out h =
      named nums (codes "\n    ") (codes "x") refl refl (numeral _ (nums.show_int_numeral w.x h.x))
        (named nums (codes "\n    ") (codes "y") refl refl
          (numeral _ (nums.show_int_numeral w.y h.y)) (size-IsFields w false out h))
  window-IsFields false w out h = size-IsFields w true out h

  window_member :
      (w : Window Double) (ms : Members Double) (out rest : Text)
      → IsWritableWindow w
      → IsFields nums false ms (codes ",\n" ++ out) rest
      → IsFields nums false
          (member (codes "window") (object (window_members nums w)) ms)
          (codes ",\n" ++ put_window nums w out)
          rest
  unfolding put_window
  window_member w ms out rest h more =
      named nums (codes "\n  ") (codes "window") refl refl (braced (window-IsFields _ w out h)) more

  appearance_member :
      (a : Appearance Double) (ms : Members Double) (out rest : Text)
      → IsShort a.acrylic_tint_opacity
      → IsShort a.mica_tint_opacity
      → IsFields nums false ms (codes ",\n" ++ out) rest
      → IsFields nums false
          (member (codes "appearance") (object (appearance_members nums a)) ms)
          (codes ",\n" ++ put_appearance nums a out)
          rest
  unfolding put_appearance
  appearance_member a ms out rest h g more =
      named nums (codes "\n  ") (codes "appearance") refl refl
        (braced (
          named nums (codes "\n    ") (codes "backdrop") refl refl
            (esc-Value nums _ _ (backdrop_writable a.backdrop))
            (named nums (codes "\n    ") (codes "theme") refl refl
              (esc-Value nums _ _ (theme_writable a.theme))
              (named nums (codes "\n    ") (codes "acrylicTintOpacity") refl refl (numeral _ h) (
                named nums (codes "\n    ") (codes "micaTintOpacity") refl refl (numeral _ g)
                  (end_object (codes "\n  ") refl))))))
        more

  -- The text that `SaveLocked` writes is a JSON text by the grammar, and stands for the tree of all the
  -- settings, if no string holds a control character other than the line feed, the carriage return and the
  -- tab, what `%g` makes of each floating-point number is read as that number, and the whole numbers
  -- have values of their types, with times of at most 2^53 microseconds.
  pub save_text-IsText :
      (period : ℕ) (s : Saved Double)
      → IsStorable period s
      → IsText Double IsNumeral (object (root_members nums period s)) (save_text nums period s)
  unfolding save_text put_values put_maps put_lists
  save_text-IsText period s h = record {
    end = codes "\n";
    end_space = refl;
    value = braced (
        named nums (codes "\n  ") (codes "version") refl refl (numeral (codes "1") nums.one_numeral)
          (named nums (codes "\n  ") (codes "diagnostics") refl refl
            (braced (
              named nums (codes "\n    ") (codes "loggingEnabled") refl refl
                (put_bool-Value nums _ _) (end_object (codes "\n  ") refl)))
            (named nums (codes "\n  ") (codes "general") refl refl
              (braced (
                named nums (codes "\n    ") (codes "keepHomeTabOpen") refl refl
                  (put_bool-Value nums _ _) (end_object (codes "\n  ") refl)))
              (named nums (codes "\n  ") (codes "debugger") refl refl
                (braced (
                  named nums (codes "\n    ") (codes "enabled") refl refl (put_bool-Value nums _ _)
                    (named nums (codes "\n    ") (codes "exe") refl refl
                      (esc-Value nums _ _ h.debugger_exe) (end_object (codes "\n  ") refl))))
                (window_member s.general.window _ _ _ h.window (
                  named nums (codes "\n  ") (codes "openTabs") refl refl
                    (put_array-Value nums put_tab (tab_object nums) (IsWritableTab nums)
                      (put_tab-Value nums) s.general.open_tabs _ h.open_tabs)
                    (named nums (codes "\n  ") (codes "selectedTabIndex") refl refl
                      (numeral _
                        (nums.show_int_numeral s.general.selected_tab_index h.selected_tab_index))
                      (appearance_member s.general.appearance _ _ _ h.acrylic_tint_opacity
                        h.mica_tint_opacity
                        (named nums (codes "\n  ") (codes "rdpDefaults") refl refl
                          (braced (
                            put_rdp_options-Fields nums s.rdp_defaults (codes "    ") (codes "  ") _
                              h.rdp_defaults refl refl))
                          (named nums (codes "\n  ") (codes "confirmations") refl refl
                            (put_object-Value nums (put_override s.confirm_overrides)
                              (override_value nums s.confirm_overrides) (λ k. all_writable k ≡ true)
                              (put_override-Fields nums s.confirm_overrides) _ _
                              (sort_keys-All _ _
                                (keys_of-All _ s.confirm_overrides h.confirm_keys)))
                            (named nums (codes "\n  ") (codes "vmPrefs") refl refl
                              (put_object-Value nums (put_prefs nums s.vm_prefs)
                                (prefs_value nums s.vm_prefs) (λ k. all_writable k ≡ true)
                                (λ first ms k out rest w more.
                                  put_prefs-Fields nums s.vm_prefs first ms k out rest h.vm_prefs w
                                    more)
                                _ _ (sort_keys-All _ _ (keys_of-All _ s.vm_prefs h.vm_keys)))
                              (named nums (codes "\n  ") (codes "remoteHosts") refl refl
                                (put_array-Value nums (put_host nums) (host_object nums)
                                  (IsWritableHost nums) (put_host-Value nums) s.remote_hosts _
                                  h.remote_hosts)
                                (named nums (codes "\n  ") (codes "recents") refl refl
                                  (put_array-Value nums (put_recent nums period)
                                    (recent_object nums period) (IsWritableRecent nums period)
                                    (put_recent-Value nums period) s.recents _ h.recents)
                                  (end_object (codes "\n") refl))))))))))))));
  }
