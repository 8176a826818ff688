-- ===== src/Settings/RemoteHosts.antt =====
-- The saved remote hosts: `FindRemoteHost`, `AddOrUpdateRemoteHost` and `RemoveRemoteHost` in
-- src/app/settings/Settings.cpp, and the check that the dialog makes before it saves
-- (`RemoteHostDialog`, src/app/RemoteHostDialog.xaml.cpp). A method that writes returns the new list, and
-- whether it called `MarkDirty`.
pub mod Laws
use hyprv.Prelude.{
  ℕ, ◌≡◌, Bool, true, false, not, ◌&&◌, Option, none, some, List, [], ◌∷◌, if◌then◌else◌, is_empty,
  remove_if, some_of,
}
use hyprv.Prelude.Text.{Text}
use hyprv.Settings.Crt.{Crt}
use hyprv.Settings.Options.{RdpOptions}

pub record RemoteHost : Type 0 where
  pub name : Text
  pub address : Text
  pub username : Text
  pub domain : Text
  pub port : ℕ
  pub rdp : RdpOptions

module _ (crt : Crt) where
  -- `_wcsicmp(h.address.c_str(), key.c_str()) == 0`.
  abbrev pub at_address : Text → RemoteHost → Bool
  at_address key h = crt.wcsicmp_eq h.address key

  -- The loop of `FindRemoteHost` and the `std::find_if` of the others: the first fit.
  unfoldable pub first_at : Text → List RemoteHost → Option RemoteHost
  first_at key [] = none
  first_at key (h ∷ hs) = if at_address key h then some h else first_at key hs

  unfoldable pub find_remote_host : Text → List RemoteHost → Option RemoteHost
  find_remote_host address hs = if is_empty address then none else first_at address hs

  -- `*it = host` at the first fit, or `push_back`.
  unfoldable pub put_at : Text → RemoteHost → List RemoteHost → List RemoteHost
  put_at key host [] = host ∷ []
  put_at key host (h ∷ hs) = if at_address key h then host ∷ hs else h ∷ put_at key host hs

  unfoldable pub add_or_update_remote_host :
      Text → RemoteHost → List RemoteHost → List RemoteHost × Bool
  add_or_update_remote_host original host hs =
      if is_empty host.address
      then (hs, false)
      else (put_at (if is_empty original then host.address else original) host hs, true)

  unfoldable pub remove_remote_host : Text → List RemoteHost → List RemoteHost × Bool
  remove_remote_host address hs =
      if is_empty address
      then (hs, false)
      else if some_of (at_address address) hs
      then (remove_if (at_address address) hs, true)
      else (hs, false)

  is_some : Option RemoteHost → Bool
  is_some none = false
  is_some (some h) = true

  -- The dialog's primary button: an empty address is refused, and so is an address that is not the
  -- original one and that a saved host has. `none` is `args.Cancel(true)`.
  unfoldable pub dialog_save : Text → RemoteHost → List RemoteHost → Option (List RemoteHost)
  unfolding is_some
  dialog_save original host hs =
      if is_empty host.address
      then none
      else if not (crt.wcsicmp_eq host.address original)
          && is_some (find_remote_host host.address hs)
      then none
      else some (add_or_update_remote_host original host hs).0
