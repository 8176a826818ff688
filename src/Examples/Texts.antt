-- ===== src/Examples/Texts.antt =====
-- Settings that are written to a text and read back from it.
use hyprv.Prelude.{
  Bool, ◌-◌, ◌^◌, ◌≡◌, refl, true, false, Option, none, some, [], ◌∷◌, arith, if◌then◌else◌,
}
use hyprv.Prelude.Text.{Text, codes, text_eq, text_eq_refl, text_eq_right}
use hyprv.Prelude.Int.{ℤ, pos, negsuc, eq_ℤ}
use hyprv.Settings.Options.{Backdrop, Theme, default_options}
use hyprv.Settings.Map.{Map, lookup}
use hyprv.Settings.Recents.{RecentKind}
use hyprv.Settings.VmPrefs.{no_prefs, normalize_guid}
use hyprv.Settings.File.State.{Saved}
use hyprv.Settings.File.Grammar.{object, Members, IsText}
use hyprv.Settings.File.Load.{load}
use hyprv.Settings.File.Read.Whole.{IsRestorable, IsSame, load-save_text}
use hyprv.Settings.File.Write.{save_text}
use hyprv.Settings.File.Parts.{keys_of}
use hyprv.Settings.File.Write.Pieces.{Fits16}
use hyprv.Examples.Files.{default_options-IsUsable}
use hyprv.Settings.File.Write.Whole.{IsStorable, save_text-IsText}
use mathlib.Core.List.{Permᴰ}
use mathlib.Core.List.Permᴰ
use hyprv.Settings.File.Write.Order.{IsSameMap, save_text-order}
use hyprv.Settings.File.Tree.{root_members}
use hyprv.Examples.{ascii}
use hyprv.Examples.Trees.{integers, trees}

abbrev written : Saved ℤ
written = record {
  general = record {
    logging_enabled = true;
    keep_home_tab_open = false;
    debugger_enabled = true;
    debugger_exe = codes "C:\\dbg.exe";
    window = record {
      x = negsuc 7;
      y = pos 10;
      width = pos 800;
      height = pos 600;
      rail_width = pos 190;
      flyout_width = pos 400;
      rail_visible = true;
      flyout_visible = false;
    };
    open_tabs =
        record { kind = codes "vm"; identifier = codes "a1" }
        ∷ record { kind = codes "welcome"; identifier = [] }
        ∷ [];
    selected_tab_index = pos 0;
    appearance = record {
      backdrop = Backdrop.acrylic;
      theme = Theme.dark;
      acrylic_tint_opacity = pos 1;
      mica_tint_opacity = pos 0;
    };
  };
  rdp_defaults = default_options;
  confirm_overrides = (codes "save", true) ∷ (codes "reset", false) ∷ [];
  vm_prefs =
      (
        codes "a1",
        record no_prefs { enhanced_session = some false; debugger_args = some (codes "-k") },
      )
      ∷ (codes "a0", record no_prefs { enhanced_session_supported = some true })
      ∷ [];
  remote_hosts =
      record {
        name = codes "lab";
        address = codes "10.0.0.1";
        username = [];
        domain = [];
        port = 3390;
        rdp = default_options;
      }
      ∷ [];
  recents =
      record { guid = codes "a1"; kind = RecentKind.vm; last_opened = 50 }
      ∷ record { guid = codes "10.0.0.1"; kind = RecentKind.remote; last_opened = 40 }
      ∷ [];
}

-- What the settings were before the file was read.
abbrev before_load : Saved ℤ
before_load = record {
  general = record {
    logging_enabled = false;
    keep_home_tab_open = false;
    debugger_enabled = false;
    debugger_exe = codes "windbgx";
    window = record {
      x = negsuc (2 ^ 31 - 1);
      y = negsuc (2 ^ 31 - 1);
      width = pos 0;
      height = pos 0;
      rail_width = pos 190;
      flyout_width = pos 400;
      rail_visible = false;
      flyout_visible = false;
    };
    open_tabs = [];
    selected_tab_index = negsuc 0;
    appearance = record {
      backdrop = Backdrop.mica;
      theme = Theme.system;
      acrylic_tint_opacity = pos 0;
      mica_tint_opacity = pos 0;
    };
  };
  rdp_defaults = default_options;
  confirm_overrides = [];
  vm_prefs = [];
  remote_hosts = [];
  recents = [];
}

default_options-Fits16 : Fits16 integers default_options
default_options-Fits16 = record {
  width = omega arith;
  height = omega arith;
  depth = omega arith;
  scale = omega arith;
}

written-IsStorable : IsStorable integers 10 written
written-IsStorable = record {
  debugger_exe = refl;
  window = record {
    x = omega arith;
    y = omega arith;
    width = omega arith;
    height = omega arith;
    rail_width = refl;
    flyout_width = refl;
  };
  open_tabs = ((refl, refl), ((refl, refl), tt));
  selected_tab_index = omega arith;
  acrylic_tint_opacity = refl;
  mica_tint_opacity = refl;
  rdp_defaults = default_options-Fits16;
  confirm_keys = (refl, (refl, tt));
  vm_keys = (refl, (refl, tt));
  vm_prefs =
      (record { exe = tt; args = refl; rdp = tt }, (record { exe = tt; args = tt; rdp = tt }, tt));
  remote_hosts = (
    record {
      name = refl;
      address = refl;
      username = refl;
      domain = refl;
      port = omega arith;
      rdp = default_options-Fits16;
    },
    tt,
  );
  recents = ((refl, omega arith), ((refl, omega arith), tt));
}

written-IsRestorable : IsRestorable integers trees ascii 10 before_load written
unfolding normalize_guid eq_ℤ
written-IsRestorable = record {
  storable = written-IsStorable;
  position = λ h. absurd cc;
  acrylic_tint_opacity = (refl, refl);
  mica_tint_opacity = (refl, refl);
  open_tabs = (refl, (refl, tt));
  rdp_defaults = default_options-IsUsable;
  vm_keys = (refl, (refl, tt));
  vm_options = (tt, (tt, tt));
  remote_hosts = (
    record { address = refl; port = (omega arith, omega arith); rdp = default_options-IsUsable },
    tt,
  );
  recents = omega arith;
  times = (
    record { guid = refl; whole = refl; small = omega arith },
    (record { guid = refl; whole = refl; small = omega arith }, tt),
  );
}

abbrev written_root : Members ℤ
written_root = root_members integers 10 written

abbrev written_text : Text
written_text = save_text integers 10 written

-- A parser that knows one text.
abbrev parse : Text → Option (Members ℤ)
parse t = if text_eq t written_text then some written_root else none

parse_written : parse written_text ≡ some written_root
parse_written = rw (text_eq_refl written_text)

names_differ : ascii.wcsicmp_eq (codes "vm") (codes "remote") ≡ false
unfolding text_eq
names_differ = refl

save_text-IsText_example : IsText ℤ integers.IsNumeral (object written_root) written_text
save_text-IsText_example = save_text-IsText integers 10 written written-IsStorable

load-save_text_example :
    (s' : Saved ℤ) × (load integers trees ascii 10 parse written_text before_load ≡ some s')
    × IsSame integers trees ascii 10 s' written
load-save_text_example =
    load-save_text integers trees ascii 10 before_load written names_differ written-IsRestorable
      parse (λ t. parse_written)

swapped_lookup :
    {V : Type 0} (a b : Text) (v w : V)
    → text_eq b a ≡ false
    → (k : Text) → lookup k ((a, v) ∷ (b, w) ∷ []) ≡ lookup k ((b, w) ∷ (a, v) ∷ [])
unfolding lookup
swapped_lookup a b v w h k = ground (arith, h, text_eq_right a k b)

abbrev other_confirms : Map Bool
other_confirms = (codes "reset", false) ∷ (codes "save", true) ∷ []

confirms_same : IsSameMap written.confirm_overrides other_confirms
unfolding keys_of text_eq
confirms_same = record {
  same_keys = Permᴰ.swap refl refl;
  same_values = swapped_lookup (codes "save") (codes "reset") true false refl;
}

prefs_same : IsSameMap written.vm_prefs written.vm_prefs
prefs_same = record { same_keys = Permᴰ.refl (keys_of written.vm_prefs); same_values = λ k. refl }

save_text-order_example :
    save_text integers 10
      (record written { confirm_overrides = other_confirms; vm_prefs = written.vm_prefs })
    ≡ save_text integers 10 written
save_text-order_example =
    save_text-order integers 10 written other_confirms written.vm_prefs confirms_same prefs_same
