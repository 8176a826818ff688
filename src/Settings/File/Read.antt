-- ===== src/Settings/File/Read.antt =====
-- `Load` of src/app/settings/Settings.cpp, from the text on. A throw, `none`, leaves the constructor of
-- `Settings`.
pub mod Values
pub mod Sections
pub mod Prefs
pub mod Maps
pub mod Entries
pub mod Whole
use hyprv.Prelude.{
  ℕ, suc, ◌≡◌, ◌&&◌, ◌||◌, ◌*◌, Bool, true, false, Option, none, some, List, [], ◌∷◌, leb,
  if◌then◌else◌, is_empty, All, some_of, ◌>>=◌,
}
use hyprv.Prelude.Text.{Text, codes, text_eq}
use hyprv.Prelude.Int.{ℤ}
use hyprv.Settings.Crt.{Crt}
use hyprv.Settings.Options.{RdpOptions, backdrop_from_string, theme_from_string}
use hyprv.Settings.Map.{Map, insert}
use hyprv.Settings.Recents.{Recent, RecentKind, max_recents}
use hyprv.Settings.RemoteHosts.{RemoteHost}
use hyprv.Settings.VmPrefs.{VmPrefs, normalize_guid}
use hyprv.Settings.General.{General, Window, Appearance, OpenTab}
use hyprv.Settings.Json.{JsonReader, rdp_options_from_json}
use hyprv.Settings.File.State.{Numbers, Saved}
use hyprv.Settings.File.Grammar.{
  Json, bool, number, string, array, object, Items, no_items, item, Members, no_members, member,
}
use hyprv.Settings.File.Parts.{is_set}
use hyprv.Settings.File.Objects.{JsonLibrary}

module _ (nums : Numbers) (lib : JsonLibrary nums) where
  open nums use {Double, of_nat, lt, le, half, to_int, to_int64, to_uint16}
  open lib use {
    has_key, get_named_boolean, get_named_number, get_named_string, get_named_object,
    get_named_array, lookup_value, get_object, entries,
  }

  abbrev pub reader : JsonReader
  reader = record {
    Object = Members Double;
    Double = Double;
    has_key = has_key;
    get_named_string = get_named_string;
    get_named_boolean = get_named_boolean;
    get_named_number = get_named_number;
    of_nat = of_nat;
    lt = lt;
    to_uint16 = to_uint16;
    lt_of_nat = nums.lt_of_nat;
    to_uint16_between = nums.to_uint16_between;
  }

  abbrev pub read_options : Members Double → RdpOptions → Option RdpOptions
  read_options obj o = let r = rdp_options_from_json reader obj o in if r.1 then none else some r.0

  -- `if (obj.HasKey(key)) { auto sub = obj.GetNamedObject(key); ... }`.
  abbrev pub in_object {ℓ} :
      {S : Type ℓ} → Members Double → Text → (Members Double → S → Option S) → S → Option S
  in_object obj key read s =
      if has_key obj key then (do sub ← get_named_object obj key; read sub s) else some s

  -- `if (obj.HasKey(key)) field = obj.GetNamed...(key, fallback);`.
  abbrev pub if_key {ℓ κ} :
      {V : Type ℓ} {S : Type κ}
      → (Members Double → Text → V → Option V)
      → Members Double
      → Text
      → V
      → (V → S)
      → S
      → Option S
  if_key get obj key fallback put s =
      if has_key obj key then (do v ← get obj key fallback; some (put v)) else some s

  abbrev pub read_flag : Text → Members Double → Bool → Option Bool
  read_flag key obj b = if_key get_named_boolean obj key b (λ c. c) b

  unfoldable pub read_debugger : Members Double → Bool × Text → Option (Bool × Text)
  read_debugger dbg s = do
    enabled ← if_key get_named_boolean dbg (codes "enabled") s.0 (λ b. b) s.0
    exe ← if_key get_named_string dbg (codes "exe") s.1 (λ t. t) s.1
    some (enabled, exe)

  unfoldable pub read_window : Members Double → Window Double → Option (Window Double)
  read_window wnd w = do
    x ← if_key get_named_number wnd (codes "x") (of_nat 0) to_int w.x
    y ← if_key get_named_number wnd (codes "y") (of_nat 0) to_int w.y
    width ← get_named_number wnd (codes "width") (of_nat 0)
    height ← get_named_number wnd (codes "height") (of_nat 0)
    rail_width ← get_named_number wnd (codes "railWidth") w.rail_width
    flyout_width ← get_named_number wnd (codes "flyoutWidth") w.flyout_width
    rail_visible ← if_key get_named_boolean wnd (codes "railVisible") false (λ b. b) w.rail_visible
    flyout_visible ←
        if_key get_named_boolean wnd (codes "flyoutVisible") false (λ b. b) w.flyout_visible
    some record {
      x = x;
      y = y;
      width = to_int width;
      height = to_int height;
      rail_width = rail_width;
      flyout_width = flyout_width;
      rail_visible = rail_visible;
      flyout_visible = flyout_visible;
    }

  -- The loop over an array. A reader's `some none` is its `continue`.
  unfoldable pub read_each :
      {A : Type 0} → (Members Double → Option (Option A)) → Items Double → Option (List A)
  read_each read no_items = some []
  read_each read (item j items) = do
    obj ← get_object j
    found ← read obj
    more ← read_each read items
    elim found [ none ↦ some more | some a ↦ some (a ∷ more) ]

  unfoldable pub read_tab : Members Double → Option (Option OpenTab)
  read_tab tv = do
    kind ← get_named_string tv (codes "type") []
    identifier ← get_named_string tv (codes "identifier") []
    some (if is_empty kind then none else some record { kind = kind; identifier = identifier })

  unfoldable pub read_tabs : Members Double → List OpenTab × ℤ → Option (List OpenTab × ℤ)
  read_tabs root s =
      if has_key root (codes "openTabs")
      then (do
        arr ← get_named_array root (codes "openTabs")
        tabs ← read_each read_tab arr
        selected ←
            if_key get_named_number root (codes "selectedTabIndex") (nums.of_int (ℤ.negsuc 0))
              to_int s.1
        some (tabs, selected))
      else some s

  unfoldable pub clamp_unit : Double → Double
  clamp_unit v =
      let raised = if lt v (of_nat 0) then of_nat 0 else v in
      if lt (of_nat 1) raised then of_nat 1 else raised

  unfoldable pub read_appearance : Members Double → Appearance Double → Option (Appearance Double)
  read_appearance obj a = do
    backdrop ←
        if_key get_named_string obj (codes "backdrop") (codes "mica") backdrop_from_string
          a.backdrop
    theme ← if_key get_named_string obj (codes "theme") (codes "system") theme_from_string a.theme
    acrylic ←
        if_key get_named_number obj (codes "acrylicTintOpacity") half clamp_unit
          a.acrylic_tint_opacity
    mica ← if_key get_named_number obj (codes "micaTintOpacity") half clamp_unit a.mica_tint_opacity
    some record {
      backdrop = backdrop;
      theme = theme;
      acrylic_tint_opacity = acrylic;
      mica_tint_opacity = mica;
    }

  -- The loop over the members of an object.
  unfoldable pub read_entries :
      {V : Type 0}
      → (Text → Text)
      → (Json Double → Option (Option V))
      → List (Text × Json Double)
      → Map V
      → Option (Map V)
  read_entries key read [] m = some m
  read_entries key read ((k, j) ∷ es) m = do
    found ← read j
    elim found [
      | none ↦ read_entries key read es m
      | some v ↦ read_entries key read es (insert (key k) v m)
    ]

  abbrev pub boolean_of : Json Double → Option Bool
  boolean_of (bool b) = some b
  boolean_of _ = none

  abbrev pub read_overrides : Members Double → Map Bool → Option (Map Bool)
  read_overrides obj m = read_entries (λ k. k) (λ j. some (boolean_of j)) (entries obj) []

  abbrev pub string_of : Json Double → Option Text
  string_of (string t) = some t
  string_of _ = none

  abbrev pub options_of : RdpOptions → Json Double → Option (Option RdpOptions)
  options_of defaults (object obj) = do o ← read_options obj defaults; some (some o)
  options_of defaults _ = some none

  -- `if (sub.HasKey(key)) { auto v = sub.Lookup(key); ... }`.
  abbrev pub looked_up :
      {A : Type 0} → Members Double → Text → (Json Double → Option (Option A)) → Option (Option A)
  looked_up sub key read =
      if has_key sub key then (do v ← lookup_value sub key; read v) else some none

  abbrev pub any_set : VmPrefs → Bool
  any_set p =
      is_set p.enhanced_session
      || is_set p.enhanced_session_supported
      || is_set p.rdp_options
      || is_set p.debugger_exe
      || is_set p.debugger_args

  unfoldable pub read_sub : RdpOptions → Members Double → Option VmPrefs
  read_sub defaults sub = do
    enhanced ← looked_up sub (codes "enhancedSession") (λ v. some (boolean_of v))
    supported ← looked_up sub (codes "enhancedSessionSupported") (λ v. some (boolean_of v))
    options ← looked_up sub (codes "rdpOptions") (options_of defaults)
    exe ← looked_up sub (codes "debuggerExe") (λ v. some (string_of v))
    args ← looked_up sub (codes "debuggerArgs") (λ v. some (string_of v))
    some record {
      enhanced_session = enhanced;
      enhanced_session_supported = supported;
      rdp_options = options;
      debugger_exe = exe;
      debugger_args = args;
    }

  unfoldable pub read_prefs : RdpOptions → Json Double → Option (Option VmPrefs)
  read_prefs defaults (object sub) = do
    p ← read_sub defaults sub
    some (if any_set p then some p else none)
  read_prefs defaults _ = some none

  unfoldable pub read_host : RdpOptions → Members Double → Option (Option RemoteHost)
  read_host defaults rv = do
    address ← get_named_string rv (codes "address") []
    if is_empty address then some none else (do
      name ← get_named_string rv (codes "name") []
      username ← get_named_string rv (codes "username") []
      domain ← get_named_string rv (codes "domain") []
      pv ← get_named_number rv (codes "port") (of_nat 3389)
      rdp ← in_object rv (codes "rdp") read_options defaults
      some (
          some record {
            name = name;
            address = address;
            username = username;
            domain = domain;
            port = if le (of_nat 1) pv && le pv (of_nat 65535) then to_uint16 pv else 3389;
            rdp = rdp;
          }))
