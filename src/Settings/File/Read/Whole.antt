-- ===== src/Settings/File/Read/Whole.antt =====
-- The settings that the next start reads from the file are the ones that were saved.
use hyprv.Prelude.{
  ℕ, ◌≤◌, ◌≡◌, refl, ap, ◌∙◌, Bool, false, not, ◌&&◌, Option, some, [], All, length, is_empty,
  arith,
}
use hyprv.Prelude.Text.{Text, codes, text_eq}
use hyprv.Prelude.Int.{eq_ℤ}
use hyprv.Settings.Crt.{Crt}
use hyprv.Settings.Map.{Map, lookup}
use hyprv.Settings.Recents.{max_recents}
use hyprv.Settings.VmPrefs.{VmPrefs, no_prefs, slot_of, normalize_guid}
use hyprv.Settings.General.{Window}
use hyprv.Settings.Json.Usable.{IsUsable}
use hyprv.Settings.File.State.{Numbers, Saved}
use hyprv.Settings.File.Grammar.{object, Members, IsText}
use hyprv.Settings.File.Objects.{find, JsonLibrary}
use hyprv.Settings.File.Read.{
  read_flag, read_debugger, read_appearance, read_options, read_overrides, read_window, read_host,
  read_entries, read_prefs, read_each,
}
use hyprv.Settings.File.Load.{read_vm_prefs, read_recents, load_root, load}
use hyprv.Settings.File.Read.Values.{
  then_some, in_object-found, read_options-rdp_members, read_debugger-stored,
}
use hyprv.Settings.File.Read.Sections.{
  read_window-stored, IsFraction, read_appearance-stored, read_each-items_of, IsTab, IsHost,
  read_host-stored,
}
use hyprv.Settings.File.Read.Prefs.{
  kept_prefs, read_prefs-value, kept_slot, kept_held, IsRecent, read_recents-items_of,
}
use hyprv.Settings.File.Read.Maps.{read_entries-members_of}
use hyprv.Settings.File.Write.{put_values, save_text}
use hyprv.Settings.File.Parts.{at_key, sort_keys, keys_of, int_min}
use hyprv.Settings.File.Write.Prefs.{Each}
use hyprv.Settings.File.Write.Whole.{IsStorable, save_text-IsText}
use hyprv.Settings.File.Tree.{members_of, prefs_value, host_object, root_members}
use hyprv.Settings.File.Read.Entries.{
  array-found, one_flag, read_tabs-stored, read_overrides-stored,
}

module _ (nums : Numbers) (lib : JsonLibrary nums) (crt : Crt) (period : ℕ) where
  open nums use {Double, of_int, to_int}
  open lib use {get_named_boolean, get_named_number}

  -- Whether the position of the window is written.
  abbrev pub is_placed : Window Double → Bool
  is_placed w = not (eq_ℤ w.x int_min) && not (eq_ℤ w.y int_min)

  -- What the reader takes as it is. The settings before the reading count only for a position that the file
  -- leaves out.
  pub record IsRestorable (before s : Saved Double) : Type 0 where
    pub storable : IsStorable nums period s
    pub position :
        is_placed s.general.window ≡ false
        → (before.general.window.x ≡ s.general.window.x)
          × (before.general.window.y ≡ s.general.window.y)
    pub acrylic_tint_opacity : IsFraction nums lib s.general.appearance.acrylic_tint_opacity
    pub mica_tint_opacity : IsFraction nums lib s.general.appearance.mica_tint_opacity
    pub open_tabs : All (IsTab nums lib) s.general.open_tabs
    pub rdp_defaults : IsUsable s.rdp_defaults
    pub vm_keys : All (λ e. normalize_guid crt e.0 ≡ e.0) s.vm_prefs
    pub vm_options : All (λ e. Each IsUsable e.1.rdp_options) s.vm_prefs
    pub remote_hosts : All (IsHost nums lib) s.remote_hosts
    pub recents : length s.recents ≤ max_recents
    pub times : All (IsRecent nums lib period) s.recents

  -- The same settings, as the getters tell: a machine without an entry is one with nothing set.
  pub record IsSame (a b : Saved Double) : Type 0 where
    pub general : a.general ≡ b.general
    pub rdp_defaults : a.rdp_defaults ≡ b.rdp_defaults
    pub confirmation : (k : Text) → lookup k a.confirm_overrides ≡ lookup k b.confirm_overrides
    pub prefs : (k : Text) → slot_of (lookup k a.vm_prefs) ≡ slot_of (lookup k b.vm_prefs)
    pub remote_hosts : a.remote_hosts ≡ b.remote_hosts
    pub recents : a.recents ≡ b.recents

  save_text_nonempty : (n : ℕ) (s : Saved Double) → is_empty (save_text nums n s) ≡ false
  unfolding save_text put_values
  save_text_nonempty n s = refl

  module _ (before s : Saved Double)
      (tokens_differ : crt.wcsicmp_eq (codes "vm") (codes "remote") ≡ false)
      (h : IsRestorable before s) where
    read_vm_prefs-stored :
        (m' : Map VmPrefs) × (read_entries nums lib
            (normalize_guid crt)
            (read_prefs nums lib s.rdp_defaults)
            (lib.entries
              (members_of nums (prefs_value nums s.vm_prefs) (sort_keys (keys_of s.vm_prefs))))
            []
          ≡ some m')
        × ((k : Text) → lookup k m' ≡ kept_prefs nums lib (at_key no_prefs (lookup k s.vm_prefs)))
    read_vm_prefs-stored =
        read_entries-members_of nums lib (normalize_guid crt) (read_prefs nums lib s.rdp_defaults)
          (λ k. kept_prefs nums lib (at_key no_prefs (lookup k s.vm_prefs)))
          (prefs_value nums s.vm_prefs) s.vm_prefs h.vm_keys
          (λ k there. read_prefs-value nums lib s.rdp_defaults s.vm_prefs h.vm_options k)
          (λ k. kept_held nums lib (lookup k s.vm_prefs))

    -- The tree of the settings is read back, whatever the settings were before.
    load_root-root_members :
        (s' : Saved Double) × (load_root nums lib crt period (root_members nums period s) before
          ≡ some s')
        × IsSame s' s
    unfolding load_root find text_eq
    load_root-root_members =
        let root = root_members nums period s in
        let g = before.general in
        let (overrides, o, at_override) = read_overrides-stored nums lib s.confirm_overrides in
        let (prefs, p, at_prefs) = read_vm_prefs-stored in
        (
          record {
            general = s.general;
            rdp_defaults = s.rdp_defaults;
            confirm_overrides = overrides;
            vm_prefs = prefs;
            remote_hosts = s.remote_hosts;
            recents = s.recents;
          },
          then_some _
              (in_object-found nums lib root (codes "diagnostics") _
                  (read_flag nums lib (codes "loggingEnabled")) g.logging_enabled refl
                ∙ one_flag nums lib (codes "loggingEnabled") s.general.logging_enabled
                    g.logging_enabled refl)
              (then_some _
                (in_object-found nums lib root (codes "general") _
                    (read_flag nums lib (codes "keepHomeTabOpen")) g.keep_home_tab_open refl
                  ∙ one_flag nums lib (codes "keepHomeTabOpen") s.general.keep_home_tab_open
                      g.keep_home_tab_open refl)
                (then_some _
                  (in_object-found nums lib root (codes "debugger") _ (read_debugger nums lib)
                      (g.debugger_enabled, g.debugger_exe) refl
                    ∙ read_debugger-stored nums lib s.general.debugger_enabled
                        s.general.debugger_exe _)
                  (then_some _
                    (in_object-found nums lib root (codes "window") _ (read_window nums lib)
                        g.window refl
                      ∙ read_window-stored nums lib (is_placed s.general.window) s.general.window
                          g.window h.storable.window h.position)
                    (then_some _
                      (read_tabs-stored nums lib root s (g.open_tabs, g.selected_tab_index)
                        h.open_tabs h.storable.selected_tab_index refl refl)
                      (then_some _
                        (in_object-found nums lib root (codes "appearance") _
                            (read_appearance nums lib) g.appearance refl
                          ∙ read_appearance-stored nums lib s.general.appearance _
                              h.acrylic_tint_opacity h.mica_tint_opacity)
                        (then_some _
                          (in_object-found nums lib root (codes "rdpDefaults") _
                              (read_options nums lib) before.rdp_defaults refl
                            ∙ read_options-rdp_members nums lib s.rdp_defaults _ h.rdp_defaults)
                          (then_some _
                            (in_object-found nums lib root (codes "confirmations") _
                                (read_overrides nums lib) before.confirm_overrides refl
                              ∙ o)
                            (then_some _
                              (in_object-found nums lib root (codes "vmPrefs") _
                                  (read_vm_prefs nums lib crt period s.rdp_defaults) before.vm_prefs
                                  refl
                                ∙ p)
                              (then_some _
                                (array-found nums lib root (codes "recents") _
                                    (λ arr. read_recents nums lib crt period arr 0) before.recents
                                    refl
                                  ∙ read_recents-items_of nums lib crt period tokens_differ
                                      s.recents 0 h.times (omega (arith, h.recents)))
                                (then_some _
                                  (array-found nums lib root (codes "remoteHosts") _
                                      (read_each nums lib (read_host nums lib s.rdp_defaults))
                                      before.remote_hosts refl
                                    ∙ read_each-items_of nums lib
                                        (read_host nums lib s.rdp_defaults) (host_object nums)
                                        (IsHost nums lib) (read_host-stored nums lib s.rdp_defaults)
                                        s.remote_hosts h.remote_hosts)
                                  refl)))))))))),
          record {
            general = refl;
            rdp_defaults = refl;
            confirmation = at_override;
            prefs = λ k. ap slot_of (at_prefs k) ∙ kept_slot nums lib (lookup k s.vm_prefs);
            remote_hosts = refl;
            recents = refl;
          },
        )

    load_parsed :
        (try_parse : Text → Option (Members Double)) (s' : Saved Double)
        → load_root nums lib crt period (root_members nums period s) before ≡ some s'
        → try_parse (save_text nums period s) ≡ some (root_members nums period s)
        → load nums lib crt period try_parse (save_text nums period s) before ≡ some s'
    unfolding load
    load_parsed try_parse s' e f = rw (save_text_nonempty period s, f, e)

    -- `Load` of the text that `SaveLocked` wrote gives the same settings, whatever the settings were before,
    -- for a parser that reads a JSON text for the tree of the settings as that tree: no section throws, and
    -- every value, the lists in their order, the confirmation of every key and the preferences of every
    -- machine are the saved ones. The settings satisfy what the text needs; besides, opacities are between 0
    -- and 1, options of sessions are usable, tabs have a type, hosts an address and a port other than 0,
    -- at most ten recents a key and a time in whole microseconds, the keys of machines are normalized,
    -- and the position of the window is written or is the one from before. "vm" and "remote" differ.
    pub load-save_text :
        (try_parse : Text → Option (Members Double))
        → (IsText Double nums.IsNumeral
              (object (root_members nums period s))
              (save_text nums period s)
            → try_parse (save_text nums period s) ≡ some (root_members nums period s))
        → (s' : Saved Double) × (load nums lib crt period try_parse (save_text nums period s) before
            ≡ some s')
          × IsSame s' s
    load-save_text try_parse parses =
        let (s', e, same) = load_root-root_members in
        (s', load_parsed try_parse s' e (parses (save_text-IsText nums period s h.storable)), same)
