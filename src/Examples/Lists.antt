-- ===== src/Examples/Lists.antt =====
-- The lists and maps of the settings.
use hyprv.Prelude.{ℕ, ◌≡◌, refl, some, List, [], ◌∷◌, take}
use hyprv.Prelude.Text.{Text, codes, text_eq}
use hyprv.Settings.Recents.{RecentKind, Recent}
use hyprv.Settings.Recents.Mru.{newest, recents_after, recents_after-newest}
use hyprv.Settings.Options.{default_options}
use hyprv.Settings.RemoteHosts.{
  RemoteHost, find_remote_host, add_or_update_remote_host, remove_remote_host, dialog_save,
  at_address, first_at, put_at,
}
use hyprv.Settings.RemoteHosts.Laws.{
  find-add, dialog_save-Distinct, add_or_update-not_Distinct, remove_remote_host_lem,
}
use hyprv.Settings.RemoteHosts.Laws
use hyprv.Settings.VmPrefs.{no_prefs, Prefs}
use hyprv.Examples.{ascii}

abbrev opened_vm : Text → ℕ → Recent
opened_vm guid time = record { guid = guid; kind = RecentKind.vm; last_opened = time }

abbrev history : List Recent
history = opened_vm (codes "A") 3 ∷ opened_vm (codes "b") 2 ∷ opened_vm (codes "a") 1 ∷ []

recents_after-newest_example : recents_after ascii history ≡ take 10 (newest ascii history)
recents_after-newest_example = recents_after-newest ascii history (refl, (refl, (refl, tt)))

abbrev host_at : Text → Text → RemoteHost
host_at name address = record {
  name = name;
  address = address;
  username = [];
  domain = [];
  port = 3389;
  rdp = default_options;
}

abbrev two_hosts : List RemoteHost
two_hosts = host_at (codes "one") (codes "alpha") ∷ host_at (codes "two") (codes "beta") ∷ []

dialog_save-Distinct_example :
    hyprv.Settings.RemoteHosts.Laws.Distinct ascii
      (host_at (codes "new") (codes "gamma") ∷ host_at (codes "two") (codes "beta") ∷ [])
unfolding dialog_save find_remote_host add_or_update_remote_host text_eq first_at put_at
dialog_save-Distinct_example =
    dialog_save-Distinct ascii (codes "ALPHA") (host_at (codes "new") (codes "gamma")) two_hosts
      (host_at (codes "new") (codes "gamma") ∷ host_at (codes "two") (codes "beta") ∷ [])
      (refl, (refl, tt)) refl

add_or_update-not_Distinct_example :
    ¬ hyprv.Settings.RemoteHosts.Laws.Distinct ascii
      (add_or_update_remote_host ascii
        (codes "alpha")
        (host_at (codes "one") (codes "BETA"))
        two_hosts).0
unfolding text_eq
add_or_update-not_Distinct_example =
    add_or_update-not_Distinct ascii (codes "alpha") (host_at (codes "one") (codes "BETA")) []
      (host_at (codes "two") (codes "beta") ∷ []) (host_at (codes "one") (codes "alpha")) refl refl
      refl refl refl

abbrev stored : Prefs
stored = record {
  vm_prefs = (codes "a", record no_prefs { rdp_options = some default_options }) ∷ [];
  rdp_defaults = record default_options { color_depth = 24 };
  debugger_exe = codes "windbg";
}
