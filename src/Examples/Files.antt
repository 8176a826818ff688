-- ===== src/Examples/Files.antt =====
-- The settings' other values, and what is read from and written to the file.
use hyprv.Prelude.{
  ℕ, ◌≡◌, ◌<◌, ◌≤◌, ◌^◌, ◌%◌, refl, inl, inr, Bool, true, false, not, Option, none, some, List, [],
  ◌∷◌, arith, ◌==◌, ltb, All,
}
use hyprv.Prelude.Text.{codes, text_eq}
use hyprv.Prelude.Int.{pos}
use hyprv.Settings.Map.{Map, lookup}
use hyprv.Settings.Options.{
  Backdrop, Theme, AudioMode, RdpOptions, default_options, audio_mode_to_string,
}
use hyprv.Settings.General.{OpenTab, Window, Appearance, General}
use hyprv.Settings.Json.{JsonReader, rdp_options_from_json}
use hyprv.Settings.Json.Usable.{IsUsable, rdp_options_from_json-IsUsable}
use hyprv.Settings.Json.Stored.{Holds, rdp_options_from_json-Holds}
use hyprv.Settings.Saving.{
  SaveStep, sets, marks, tests, times_out, saves, shuts_down, written, save_run, save_step, loaded,
  final_flush, mark_dirty, test_flags, end_debounce, save_in_loop,
}
use hyprv.Settings.Saving.Coverage.{Succeeds, final_flush-saved}

abbrev first_window : Window ℕ
first_window = record {
  x = pos 10;
  y = pos 10;
  width = pos 800;
  height = pos 600;
  rail_width = 190;
  flyout_width = 400;
  rail_visible = false;
  flyout_visible = true;
}

abbrev first_appearance : Appearance ℕ
first_appearance = record {
  backdrop = Backdrop.mica;
  theme = Theme.dark;
  acrylic_tint_opacity = 5;
  mica_tint_opacity = 5;
}

abbrev home_tab : OpenTab
home_tab = record { kind = codes "welcome"; identifier = codes "local" }

abbrev some_settings : General ℕ
some_settings = record {
  logging_enabled = false;
  keep_home_tab_open = false;
  debugger_enabled = false;
  debugger_exe = codes "windbgx";
  window = first_window;
  open_tabs = home_tab ∷ [];
  selected_tab_index = pos 0;
  appearance = first_appearance;
}

-- An object of whole numbers, which a flag reads as zero or not, with one text for every key.
abbrev number_at : Option ℕ → ℕ → ℕ
number_at none fallback = fallback
number_at (some n) fallback = n

abbrev flag_at : Option ℕ → Bool → Bool
flag_at none fallback = fallback
flag_at (some n) fallback = not (n == 0)

abbrev is_there : Option ℕ → Bool
is_there none = false
is_there (some n) = true

pub to_uint16_at :
    (v a b : ℕ)
    → b < 2 ^ 16
    → ltb v a ≡ false
    → ltb b v ≡ false
    → (a ≤ v % 2 ^ 16) × (v % 2 ^ 16 ≤ b)
to_uint16_at v a b h k l = ground arith

abbrev whole_numbers : JsonReader
whole_numbers = record {
  Object = Map ℕ;
  Double = ℕ;
  has_key = λ obj key. is_there (lookup key obj);
  get_named_string = λ obj key fallback. some (codes "none");
  get_named_boolean = λ obj key fallback. some (flag_at (lookup key obj) fallback);
  get_named_number = λ obj key fallback. some (number_at (lookup key obj) fallback);
  of_nat = λ n. n;
  lt = ltb;
  to_uint16 = λ v. v % 2 ^ 16;
  lt_of_nat = λ a b. refl;
  to_uint16_between = to_uint16_at;
}

abbrev stored_object : Map ℕ
stored_object =
    (codes "audioMode", 0)
    ∷ (codes "redirectClipboard", 1)
    ∷ (codes "redirectDrives", 0)
    ∷ (codes "redirectDevices", 0)
    ∷ (codes "redirectSmartCards", 0)
    ∷ (codes "redirectPorts", 0)
    ∷ (codes "audioCaptureRedirect", 0)
    ∷ (codes "initialDesktopWidth", 1024)
    ∷ (codes "initialDesktopHeight", 768)
    ∷ (codes "colorDepth", 32)
    ∷ (codes "dpiScaleOverridePercent", 0)
    ∷ []

abbrev muted : RdpOptions
muted = record default_options { audio_mode = AudioMode.none }

pub default_options-IsUsable : IsUsable default_options
default_options-IsUsable = record {
  width = omega arith;
  height = omega arith;
  depth = inr (inr (inl refl));
  scale = inl refl;
}

muted-IsUsable : IsUsable muted
muted-IsUsable = record {
  width = omega arith;
  height = omega arith;
  depth = inr (inr (inl refl));
  scale = inl refl;
}

stored_object-Holds : Holds whole_numbers stored_object muted
unfolding lookup text_eq audio_mode_to_string
stored_object-Holds = record {
  audio = (refl, λ fallback. refl);
  clipboard = (refl, λ fallback. refl);
  drives = (refl, λ fallback. refl);
  devices = (refl, λ fallback. refl);
  smart_cards = (refl, λ fallback. refl);
  ports = (refl, λ fallback. refl);
  capture = (refl, λ fallback. refl);
  width = (refl, λ fallback. refl);
  height = (refl, λ fallback. refl);
  depth = (refl, λ fallback. refl);
  scale = (refl, λ fallback. refl);
}

rdp_options_from_json-IsUsable_example :
    IsUsable
      (rdp_options_from_json whole_numbers
        ((codes "initialDesktopWidth", 9) ∷ [])
        default_options).0
rdp_options_from_json-IsUsable_example =
    rdp_options_from_json-IsUsable whole_numbers ((codes "initialDesktopWidth", 9) ∷ [])
      default_options default_options-IsUsable

rdp_options_from_json-Holds_example :
    rdp_options_from_json whole_numbers stored_object default_options ≡ (muted, false)
rdp_options_from_json-Holds_example =
    rdp_options_from_json-Holds whole_numbers stored_object default_options muted
      stored_object-Holds muted-IsUsable

abbrev change : List (SaveStep ℕ)
change =
    sets 7
    ∷ marks
    ∷ tests
    ∷ sets 8
    ∷ times_out
    ∷ saves written
    ∷ marks
    ∷ tests
    ∷ shuts_down
    ∷ times_out
    ∷ []

change-Succeeds : All (Succeeds ℕ) change
change-Succeeds = (tt, (tt, (tt, (tt, (tt, (refl, (tt, (tt, (tt, (tt, tt))))))))))

final_flush-saved_example :
    (final_flush ℕ written (save_run ℕ (loaded ℕ 1) change)).file
    ≡ (save_run ℕ (loaded ℕ 1) change).values
unfolding save_run save_step mark_dirty test_flags end_debounce save_in_loop loaded
final_flush-saved_example = final_flush-saved ℕ 1 change change-Succeeds refl refl
