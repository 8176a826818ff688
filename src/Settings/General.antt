-- ===== src/Settings/General.antt =====
-- The plain values among the settings of src/app/settings/Settings.cpp: the switches, the debugger's path,
-- the window's geometry, the open tabs and the appearance. A setter that finds its value there already
-- changes nothing; it returns the new state, and whether it called `MarkDirty`.
pub mod Writes
use hyprv.Prelude.{ℕ, Bool, true, false, ◌&&◌, List, [], ◌∷◌, ◌==◌, if◌then◌else◌, length}
use hyprv.Prelude.Text.{Text, text_eq}
use hyprv.Prelude.Int.{ℤ, eq_ℤ}
use hyprv.Settings.Options.{Backdrop, mica, acrylic, Theme, system, light, dark, black, bool_eq}

pub record OpenTab : Type 0 where
  pub kind : Text
  pub identifier : Text

abbrev backdrop_eq : Backdrop → Backdrop → Bool
backdrop_eq mica mica = true
backdrop_eq acrylic acrylic = true
backdrop_eq _ _ = false

abbrev theme_eq : Theme → Theme → Bool
theme_eq system system = true
theme_eq light light = true
theme_eq dark dark = true
theme_eq black black = true
theme_eq _ _ = false

-- The loop of `SetOpenTabs` over lists of one length, and the test of the lengths before it.
unfoldable pub tabs_eq : List OpenTab → List OpenTab → Bool
tabs_eq [] [] = true
tabs_eq [] (u ∷ us) = false
tabs_eq (t ∷ ts) [] = false
tabs_eq (t ∷ ts) (u ∷ us) =
    text_eq t.kind u.kind && text_eq t.identifier u.identifier && tabs_eq ts us

-- `double` and its `==` are the compiler's.
module _ (Double : Type 0) where
  pub record Window : Type 0 where
    pub x : ℤ
    pub y : ℤ
    pub width : ℤ
    pub height : ℤ
    pub rail_width : Double
    pub flyout_width : Double
    pub rail_visible : Bool
    pub flyout_visible : Bool

  pub record Appearance : Type 0 where
    pub backdrop : Backdrop
    pub theme : Theme
    pub acrylic_tint_opacity : Double
    pub mica_tint_opacity : Double

  -- The fields of `Settings` that these methods read and write.
  pub record General : Type 0 where
    pub logging_enabled : Bool
    pub keep_home_tab_open : Bool
    pub debugger_enabled : Bool
    pub debugger_exe : Text
    pub window : Window
    pub open_tabs : List OpenTab
    pub selected_tab_index : ℤ
    pub appearance : Appearance

module _ (Double : Type 0) (double_eq : Double → Double → Bool) where
  unfoldable pub set_logging_enabled : Bool → General Double → General Double × Bool
  set_logging_enabled on s =
      if bool_eq s.logging_enabled on then (s, false) else (record s { logging_enabled = on }, true)

  unfoldable pub set_keep_home_tab_open : Bool → General Double → General Double × Bool
  set_keep_home_tab_open on s =
      if bool_eq s.keep_home_tab_open on
      then (s, false)
      else (record s { keep_home_tab_open = on }, true)

  unfoldable pub set_debugger_enabled : Bool → General Double → General Double × Bool
  set_debugger_enabled on s =
      if bool_eq s.debugger_enabled on
      then (s, false)
      else (record s { debugger_enabled = on }, true)

  unfoldable pub set_debugger_exe : Text → General Double → General Double × Bool
  set_debugger_exe exe s =
      if text_eq s.debugger_exe exe then (s, false) else (record s { debugger_exe = exe }, true)

  unfoldable pub window_eq : Window Double → Window Double → Bool
  window_eq a b =
      eq_ℤ a.x b.x
      && eq_ℤ a.y b.y
      && eq_ℤ a.width b.width
      && eq_ℤ a.height b.height
      && double_eq a.rail_width b.rail_width
      && double_eq a.flyout_width b.flyout_width
      && bool_eq a.rail_visible b.rail_visible
      && bool_eq a.flyout_visible b.flyout_visible

  unfoldable pub set_window_geometry : Window Double → General Double → General Double × Bool
  set_window_geometry w s =
      if window_eq s.window w then (s, false) else (record s { window = w }, true)

  unfoldable pub set_open_tabs : List OpenTab → ℤ → General Double → General Double × Bool
  set_open_tabs tabs selected_index s =
      if tabs_eq s.open_tabs tabs && eq_ℤ s.selected_tab_index selected_index
      then (s, false)
      else (record s { open_tabs = tabs; selected_tab_index = selected_index }, true)

  unfoldable pub appearance_eq : Appearance Double → Appearance Double → Bool
  appearance_eq a b =
      backdrop_eq a.backdrop b.backdrop
      && theme_eq a.theme b.theme
      && double_eq a.acrylic_tint_opacity b.acrylic_tint_opacity
      && double_eq a.mica_tint_opacity b.mica_tint_opacity

  unfoldable pub set_appearance : Appearance Double → General Double → General Double × Bool
  set_appearance a s =
      if appearance_eq s.appearance a then (s, false) else (record s { appearance = a }, true)
