-- ===== src/Settings/Crt.antt =====
-- What src/app/settings/Settings.cpp takes from the C runtime: `towlower`, and whether `_wcsicmp` of
-- two texts is 0. That the texts which it finds equal form classes is what its documentation says.
use hyprv.Prelude.{ℕ, ◌≡◌, Bool, true, arith}
use hyprv.Prelude.Text.{Text}

pub record Crt : Type 0 where
  pub towlower : ℕ → ℕ
  pub wcsicmp_eq : Text → Text → Bool
  pub wcsicmp_refl : (a : Text) → wcsicmp_eq a a ≡ true
  pub wcsicmp_sym : (a b : Text) → wcsicmp_eq a b ≡ wcsicmp_eq b a
  pub wcsicmp_trans :
      (a b c : Text) → wcsicmp_eq a b ≡ true → wcsicmp_eq b c ≡ true → wcsicmp_eq a c ≡ true

-- Two texts in one class are told from a third alike.
pub wcsicmp_class :
    (crt : Crt) (a b c : Text) → crt.wcsicmp_eq a b ≡ true → crt.wcsicmp_eq a c ≡ crt.wcsicmp_eq b c
wcsicmp_class crt a b c h =
    ground (arith, crt.wcsicmp_sym a b, crt.wcsicmp_trans a b c h, crt.wcsicmp_trans b a c)
