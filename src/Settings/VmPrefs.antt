-- ===== src/Settings/VmPrefs.antt =====
-- The preferences of each machine in src/app/settings/Settings.cpp: enhanced sessions, options of the
-- remote desktop session, and the debugger. `m_vmPrefs[key]` puts an empty entry in where there is
-- none, also in a setter that then finds nothing to change. A method that writes returns the new
-- state, and whether it called `MarkDirty`.
pub mod Laws
use hyprv.Prelude.{
  value_or, ℕ, ◌≡◌, Bool, true, false, not, ◌&&◌, Option, none, some, List, [], map, if◌then◌else◌,
  is_empty,
}
use hyprv.Prelude.Text.{Text, text_eq}
use hyprv.Settings.Crt.{Crt}
use hyprv.Settings.Map.{Map, lookup, insert, erase}
use hyprv.Settings.Options.{RdpOptions, rdp_options_eq, bool_eq}

pub record VmPrefs : Type 0 where
  pub enhanced_session : Option Bool
  pub enhanced_session_supported : Option Bool
  pub rdp_options : Option RdpOptions
  pub debugger_exe : Option Text
  pub debugger_args : Option Text

abbrev pub no_prefs : VmPrefs
no_prefs = record {
  enhanced_session = none;
  enhanced_session_supported = none;
  rdp_options = none;
  debugger_exe = none;
  debugger_args = none;
}

-- The part of the settings that these methods read and write.
pub record Prefs : Type 0 where
  pub vm_prefs : Map VmPrefs
  pub rdp_defaults : RdpOptions
  pub debugger_exe : Text

abbrev pub slot_of : Option VmPrefs → VmPrefs
slot_of none = no_prefs
slot_of (some p) = p

abbrev pub equals {ℓ} : {A : Type ℓ} → (A → A → Bool) → Option A → A → Bool
equals eq none a = false
equals eq (some b) a = eq b a

abbrev pub option_eq {ℓ} : {A : Type ℓ} → (A → A → Bool) → Option A → Option A → Bool
option_eq eq none none = true
option_eq eq none (some b) = false
option_eq eq (some a) none = false
option_eq eq (some a) (some b) = eq a b

-- An empty text is stored as no text.
abbrev pub unless_empty : Text → Option Text
unless_empty t = if is_empty t then none else some t

module _ (crt : Crt) where
  unfoldable pub normalize_guid : Text → Text
  normalize_guid = map crt.towlower

  -- The entry of a machine as a reader sees it, and as `operator[]` hands it out.
  abbrev pub slot : Text → Prefs → VmPrefs
  slot guid s = slot_of (lookup (normalize_guid guid) s.vm_prefs)

  abbrev pub put : Text → VmPrefs → Prefs → Prefs
  put guid p s = record s { vm_prefs = insert (normalize_guid guid) p s.vm_prefs }

  unfoldable pub enhanced_session_pref : Text → Prefs → Bool
  enhanced_session_pref guid s =
      if is_empty guid then true else value_or true (slot guid s).enhanced_session

  unfoldable pub set_enhanced_session_pref : Text → Bool → Prefs → Prefs × Bool
  set_enhanced_session_pref guid on s =
      if is_empty guid
      then (s, false)
      else if equals bool_eq (slot guid s).enhanced_session on
      then (put guid (slot guid s) s, false)
      else (put guid (record (slot guid s) { enhanced_session = some on }) s, true)

  unfoldable pub enhanced_session_ever_supported : Text → Prefs → Bool
  enhanced_session_ever_supported guid s =
      if is_empty guid then true else value_or true (slot guid s).enhanced_session_supported

  unfoldable pub observe_enhanced_support : Text → Prefs → Prefs × Bool
  observe_enhanced_support guid s =
      if is_empty guid
      then (s, false)
      else if equals bool_eq (slot guid s).enhanced_session_supported true
      then (put guid (slot guid s) s, false)
      else (put guid (record (slot guid s) { enhanced_session_supported = some true }) s, true)

  unfoldable pub clear_vm_prefs : Text → Prefs → Prefs × Bool
  clear_vm_prefs guid s =
      if is_empty guid then (s, false) else elim (lookup (normalize_guid guid) s.vm_prefs) [
        | none ↦ (s, false)
        | some _ ↦ (record s { vm_prefs = erase (normalize_guid guid) s.vm_prefs }, true)
      ]

  unfoldable pub set_rdp_defaults : RdpOptions → Prefs → Prefs × Bool
  set_rdp_defaults opts s =
      if rdp_options_eq s.rdp_defaults opts
      then (s, false)
      else (record s { rdp_defaults = opts }, true)

  abbrev is_some {ℓ} : {A : Type ℓ} → Option A → Bool
  is_some none = false
  is_some (some a) = true

  unfoldable pub has_rdp_options_override : Text → Prefs → Bool
  has_rdp_options_override guid s =
      if is_empty guid then false else is_some (slot guid s).rdp_options

  unfoldable pub set_rdp_options_override : Text → RdpOptions → Prefs → Prefs × Bool
  set_rdp_options_override guid opts s =
      if is_empty guid
      then (s, false)
      else if equals rdp_options_eq (slot guid s).rdp_options opts
      then (put guid (slot guid s) s, false)
      else (put guid (record (slot guid s) { rdp_options = some opts }) s, true)

  -- This one looks the entry up, and makes none.
  unfoldable pub clear_rdp_options_override : Text → Prefs → Prefs × Bool
  clear_rdp_options_override guid s =
      if is_empty guid
      then (s, false)
      else if is_some (slot guid s).rdp_options
      then (put guid (record (slot guid s) { rdp_options = none }) s, true)
      else (s, false)

  unfoldable pub rdp_options_for : Text → Prefs → RdpOptions
  rdp_options_for guid s =
      if is_empty guid then s.rdp_defaults else value_or s.rdp_defaults (slot guid s).rdp_options

  unfoldable pub set_vm_debugger : Text → Text → Text → Prefs → Prefs × Bool
  set_vm_debugger guid exe_override args s =
      let p = slot guid s in
      if option_eq text_eq p.debugger_exe (unless_empty exe_override)
        && option_eq text_eq p.debugger_args (unless_empty args)
      then (put guid p s, false)
      else (
        put guid
            (record p {
              debugger_exe = unless_empty exe_override;
              debugger_args = unless_empty args;
            })
            s,
        true,
      )

  unfoldable pub vm_debugger_args : Text → Prefs → Text
  vm_debugger_args guid s = value_or [] (slot guid s).debugger_args

  unfoldable pub effective_debugger_exe : Text → Prefs → Text
  effective_debugger_exe guid s = elim (slot guid s).debugger_exe [
    | none ↦ s.debugger_exe
    | some exe ↦ if is_empty exe then s.debugger_exe else exe
  ]
