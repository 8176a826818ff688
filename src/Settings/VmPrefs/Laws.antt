-- ===== src/Settings/VmPrefs/Laws.antt =====
-- What the readers of a machine's preferences answer after a write.
use hyprv.Prelude.{
  ◌≡◌, refl, ap, Bool, true, false, Option, none, some, arith, if◌then◌else◌, is_empty,
}
use hyprv.Prelude.Text.{Text, text_eq, eq_of_text_eq}
use hyprv.Settings.Crt.{Crt}
use hyprv.Settings.Map.{lookup-insert, lookup-class}
use hyprv.Settings.Options.{RdpOptions, rdp_options_eq, rdp_options_eq_iff, bool_eq}
use hyprv.Settings.VmPrefs.{
  VmPrefs, Prefs, slot_of, equals, option_eq, unless_empty, normalize_guid, slot, put,
  set_rdp_options_override, clear_rdp_options_override, rdp_options_for, set_vm_debugger,
  effective_debugger_exe, set_enhanced_session_pref, enhanced_session_pref,
}

-- A stored value that the setter takes for the new one is the new one.
set-same :
    (stored : Option RdpOptions) (opts : RdpOptions)
    → equals rdp_options_eq stored opts ≡ true
    → stored ≡ some opts
set-same none opts h = ground arith
set-same (some o) opts h = ap some ((rdp_options_eq_iff o opts).0 h)

set-same_bool :
    (stored : Option Bool) (on : Bool) → equals bool_eq stored on ≡ true → stored ≡ some on
set-same_bool none on h = ground arith
set-same_bool (some b) on h = ground arith

set-same_text : (stored new : Option Text) → option_eq text_eq stored new ≡ true → stored ≡ new
set-same_text none none h = refl
set-same_text none (some t) h = ground arith
set-same_text (some t) none h = ground arith
set-same_text (some t) (some u) h = ap some (eq_of_text_eq t u h)

module _ (crt : Crt) where
  -- Whether two texts name one machine.
  abbrev pub same_vm : Text → Text → Bool
  same_vm a b = text_eq (normalize_guid crt a) (normalize_guid crt b)

  slot-put :
      (guid other : Text) (p : VmPrefs) (s : Prefs)
      → slot crt other (put crt guid p s) ≡ (if same_vm guid other then p else slot crt other s)
  slot-put guid other p s =
      ground
        (arith, lookup-insert (normalize_guid crt guid) (normalize_guid crt other) p s.vm_prefs)

  slot-same :
      (guid other : Text) (s : Prefs)
      → same_vm guid other ≡ true
      → slot crt other s ≡ slot crt guid s
  slot-same guid other s h =
      ap slot_of (lookup-class (normalize_guid crt guid) (normalize_guid crt other) s.vm_prefs h)

  -- After an override is set, its machine connects with it, and every other machine with the options
  -- that it had. No machine has an empty name.
  pub rdp_options_for-set :
      (guid other : Text) (opts : RdpOptions) (s : Prefs)
      → is_empty guid ≡ false
      → is_empty other ≡ false
      → rdp_options_for crt other (set_rdp_options_override crt guid opts s).0
        ≡ (if same_vm guid other then opts else rdp_options_for crt other s)
  unfolding rdp_options_for set_rdp_options_override
  rdp_options_for-set guid other opts s g o = ground (
    arith,
    slot-put guid other (slot crt guid s) s,
    slot-put guid other (record (slot crt guid s) { rdp_options = some opts }) s,
    slot-same guid other s,
    set-same (slot crt guid s).rdp_options opts,
  )

  -- After the override of a machine is cleared, it connects with the defaults, and every other
  -- machine with the options that it had. No machine has an empty name.
  pub rdp_options_for-clear :
      (guid other : Text) (s : Prefs)
      → is_empty guid ≡ false
      → is_empty other ≡ false
      → rdp_options_for crt other (clear_rdp_options_override crt guid s).0
        ≡ (if same_vm guid other then s.rdp_defaults else rdp_options_for crt other s)
  unfolding rdp_options_for clear_rdp_options_override
  rdp_options_for-clear guid other s g o = ground (
    arith,
    slot-put guid other (record (slot crt guid s) { rdp_options = none }) s,
    slot-same guid other s,
  )

  -- After the choice between an enhanced and a basic session is set, its machine has that choice,
  -- and every other machine the one that it had. No machine has an empty name.
  pub enhanced_session_pref-set :
      (guid other : Text) (on : Bool) (s : Prefs)
      → is_empty guid ≡ false
      → is_empty other ≡ false
      → enhanced_session_pref crt other (set_enhanced_session_pref crt guid on s).0
        ≡ (if same_vm guid other then on else enhanced_session_pref crt other s)
  unfolding enhanced_session_pref set_enhanced_session_pref
  enhanced_session_pref-set guid other on s g o = ground (
    arith,
    slot-put guid other (slot crt guid s) s,
    slot-put guid other (record (slot crt guid s) { enhanced_session = some on }) s,
    slot-same guid other s,
    set-same_bool (slot crt guid s).enhanced_session on,
  )

  -- After a debugger is set for a machine, that machine is debugged with it, or with the one of the
  -- application where the text is empty, and every other machine as before.
  pub effective_debugger_exe-set :
      (guid other exe args : Text) (s : Prefs)
      → effective_debugger_exe crt other (set_vm_debugger crt guid exe args s).0 ≡ (
          if same_vm guid other
          then (if is_empty exe then s.debugger_exe else exe)
          else effective_debugger_exe crt other s)
  unfolding effective_debugger_exe set_vm_debugger
  effective_debugger_exe-set guid other exe args s = ground (
    arith,
    slot-put guid other (slot crt guid s) s,
    slot-put guid other
        (record (slot crt guid s) {
          debugger_exe = unless_empty exe;
          debugger_args = unless_empty args;
        })
        s,
    slot-same guid other s,
    set-same_text (slot crt guid s).debugger_exe (unless_empty exe),
  )
