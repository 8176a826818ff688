-- ===== src/Settings/Recents.antt =====
-- The list of recently opened machines in src/app/settings/Settings.cpp: `BumpRecent` and
-- `ForgetRecent`. The time of the call is an argument. A method returns the new list, and whether it
-- called `MarkDirty`.
pub mod Mru
use hyprv.Prelude.{
  ℕ, ◌≡◌, Bool, true, false, List, [], ◌∷◌, if◌then◌else◌, ltb, length, take, is_empty, remove_if,
  some_of,
}
use hyprv.Prelude.Text.{Text}
use hyprv.Settings.Crt.{Crt}

pub data RecentKind : Type 0 where
  vm remote : RecentKind

pub record Recent : Type 0 where
  pub guid : Text
  pub kind : RecentKind
  pub last_opened : ℕ

abbrev pub max_recents : ℕ
max_recents = 10

module _ (crt : Crt) where
  -- `_wcsicmp(r.guid.c_str(), key.c_str()) == 0`.
  abbrev pub has_key : Text → Recent → Bool
  has_key key r = crt.wcsicmp_eq r.guid key

  abbrev pub trim : List Recent → List Recent
  trim rs = if ltb max_recents (length rs) then take max_recents rs else rs

  unfoldable pub bump_recent : ℕ → Text → RecentKind → List Recent → List Recent × Bool
  bump_recent now key kind rs = if is_empty key then (rs, false) else (
    trim (record { guid = key; kind = kind; last_opened = now } ∷ remove_if (has_key key) rs),
    true,
  )

  unfoldable pub forget_recent : Text → List Recent → List Recent × Bool
  forget_recent key rs =
      if is_empty key
      then (rs, false)
      else if some_of (has_key key) rs
      then (remove_if (has_key key) rs, true)
      else (rs, false)
