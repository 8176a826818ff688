-- ===== src/Settings/File/State.antt =====
-- The fields of `Settings` that the file keeps (src/app/settings/Settings.h), and the numbers that are
-- written to it and read from it.
use hyprv.Prelude.{ℕ, ◌^◌, ◌<◌, ◌≤◌, ◌≡◌, Bool, false, List, ltb, leb}
use hyprv.Prelude.Text.{Text, codes}
use hyprv.Prelude.Int.{ℤ, IsInt32}
use hyprv.Settings.Options.{RdpOptions}
use hyprv.Settings.Map.{Map}
use hyprv.Settings.Recents.{Recent}
use hyprv.Settings.RemoteHosts.{RemoteHost}
use hyprv.Settings.VmPrefs.{VmPrefs}
use hyprv.Settings.General.{General}

-- `double`, its conversions, and the texts that `std::to_wstring` and `swprintf_s` with `%g` make.
-- `IsNumeral w d` is that a JSON parser reads the text `w` as `d`. A conversion is any value where the
-- language leaves it open.
pub record Numbers : Type 1 where
  pub Double : Type 0
  pub of_int : ℤ → Double
  pub of_nat : ℕ → Double
  pub half : Double
  pub lt : Double → Double → Bool
  pub le : Double → Double → Bool
  pub to_int : Double → ℤ
  pub to_int64 : Double → ℕ
  pub to_uint16 : Double → ℕ
  pub show_int : ℤ → Text
  pub show_nat : ℕ → Text
  pub show_double : Double → Text
  pub IsNumeral : Text → Double → Type 0
  pub lt_of_nat : (a b : ℕ) → lt (of_nat a) (of_nat b) ≡ ltb a b
  pub le_of_nat : (a b : ℕ) → le (of_nat a) (of_nat b) ≡ leb a b
  pub to_uint16_between :
      (v : Double) (a b : ℕ)
      → b < 2 ^ 16
      → lt v (of_nat a) ≡ false
      → lt (of_nat b) v ≡ false
      → (a ≤ to_uint16 v) × (to_uint16 v ≤ b)
  pub to_int_of_int : (z : ℤ) → IsInt32 z → to_int (of_int z) ≡ z
  pub to_int64_of_nat : (n : ℕ) → n ≤ 2 ^ 53 → to_int64 (of_nat n) ≡ n
  pub show_int_numeral : (z : ℤ) → IsInt32 z → IsNumeral (show_int z) (of_int z)
  pub show_nat_numeral : (n : ℕ) → n ≤ 2 ^ 53 → IsNumeral (show_nat n) (of_nat n)
  pub one_numeral : IsNumeral (codes "1") (of_nat 1)

pub record Saved (Double : Type 0) : Type 0 where
  pub general : General Double
  pub rdp_defaults : RdpOptions
  pub confirm_overrides : Map Bool
  pub vm_prefs : Map VmPrefs
  pub remote_hosts : List RemoteHost
  pub recents : List Recent
