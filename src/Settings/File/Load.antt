-- ===== src/Settings/File/Load.antt =====
-- `Load` of src/app/settings/Settings.cpp as a whole, with the loop over the recent machines.
use hyprv.Prelude.{
  ℕ, suc, ◌*◌, Option, none, some, List, [], ◌∷◌, leb, if◌then◌else◌, is_empty, ◌>>=◌,
}
use hyprv.Prelude.Text.{Text, codes}
use hyprv.Settings.Crt.{Crt}
use hyprv.Settings.Options.{RdpOptions}
use hyprv.Settings.Map.{Map}
use hyprv.Settings.Recents.{Recent, RecentKind, max_recents}
use hyprv.Settings.VmPrefs.{VmPrefs, normalize_guid}
use hyprv.Settings.File.State.{Numbers, Saved}
use hyprv.Settings.File.Grammar.{Items, no_items, item, Members}
use hyprv.Settings.File.Objects.{JsonLibrary}
use hyprv.Settings.File.Read.{
  in_object, read_appearance, read_debugger, read_each, read_entries, read_flag, read_host,
  read_options, read_overrides, read_prefs, read_tabs, read_window,
}

module _ (nums : Numbers) (lib : JsonLibrary nums) where
  open nums use {Double, of_nat, lt, le, half, to_int, to_int64, to_uint16}
  open lib use {
    has_key, get_named_boolean, get_named_number, get_named_string, get_named_object,
    get_named_array, lookup_value, get_object, entries,
  }

  module _ (crt : Crt) (period : ℕ) where
    abbrev pub read_vm_prefs : RdpOptions → Members Double → Map VmPrefs → Option (Map VmPrefs)
    read_vm_prefs defaults obj m =
        read_entries nums lib (normalize_guid crt) (read_prefs nums lib defaults) (entries obj) []

    unfoldable pub read_recent : Members Double → Option (Option Recent)
    read_recent rv = do
      guid ← get_named_string rv (codes "guid") []
      if is_empty guid then some none else (do
        kind ← get_named_string rv (codes "kind") (codes "vm")
        ticks ← get_named_number rv (codes "lastOpened") (of_nat 0)
        some (
            some record {
              guid = guid;
              kind =
                  if crt.wcsicmp_eq kind (codes "remote") then RecentKind.remote else RecentKind.vm;
              last_opened = to_int64 ticks * period;
            }))

    -- The loop stops at `kMaxRecents`; the argument is how many are there already.
    unfoldable pub read_recents : Items Double → ℕ → Option (List Recent)
    read_recents no_items n = some []
    read_recents (item j items) n = do
      obj ← get_object j
      found ← read_recent obj
      elim found [
        | none ↦ read_recents items n
        | some r ↦
            if leb max_recents (suc n)
            then some (r ∷ [])
            else (do more ← read_recents items (suc n); some (r ∷ more))
      ]

    -- `Load` behind the parser.
    unfoldable pub load_root : Members Double → Saved Double → Option (Saved Double)
    load_root root s =
        let g = s.general in
        do
          logging ←
              in_object nums lib root (codes "diagnostics")
                (read_flag nums lib (codes "loggingEnabled")) g.logging_enabled
          keep ←
              in_object nums lib root (codes "general")
                (read_flag nums lib (codes "keepHomeTabOpen")) g.keep_home_tab_open
          debugger ←
              in_object nums lib root (codes "debugger") (read_debugger nums lib)
                (g.debugger_enabled, g.debugger_exe)
          window ← in_object nums lib root (codes "window") (read_window nums lib) g.window
          tabs ← read_tabs nums lib root (g.open_tabs, g.selected_tab_index)
          appearance ←
              in_object nums lib root (codes "appearance") (read_appearance nums lib) g.appearance
          defaults ←
              in_object nums lib root (codes "rdpDefaults") (read_options nums lib) s.rdp_defaults
          overrides ←
              in_object nums lib root (codes "confirmations") (read_overrides nums lib)
                s.confirm_overrides
          prefs ← in_object nums lib root (codes "vmPrefs") (read_vm_prefs defaults) s.vm_prefs
          recents ←
              if has_key root (codes "recents")
              then (do arr ← get_named_array root (codes "recents"); read_recents arr 0)
              else some s.recents
          hosts ←
              if has_key root (codes "remoteHosts")
              then (do
                arr ← get_named_array root (codes "remoteHosts")
                read_each nums lib (read_host nums lib defaults) arr)
              else some s.remote_hosts
          some record {
            general = record {
              logging_enabled = logging;
              keep_home_tab_open = keep;
              debugger_enabled = debugger.0;
              debugger_exe = debugger.1;
              window = window;
              open_tabs = tabs.0;
              selected_tab_index = tabs.1;
              appearance = appearance;
            };
            rdp_defaults = defaults;
            confirm_overrides = overrides;
            vm_prefs = prefs;
            remote_hosts = hosts;
            recents = recents;
          }

    -- `Load` of a text: an empty one, or one that does not parse, leaves the settings as they were.
    unfoldable pub load :
        (Text → Option (Members Double)) → Text → Saved Double → Option (Saved Double)
    load try_parse text s =
        if is_empty text
        then some s
        else elim (try_parse text) [ none ↦ some s | some root ↦ load_root root s ]
