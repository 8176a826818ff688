-- ===== src/Remote/Runs/Whole.antt =====
-- A remote host's page is sound after every run.
use hyprv.Prelude.{◌≡◌, refl, Bool, true, ◌||◌, List, [], ◌∷◌, All}
use hyprv.Prelude.Text.{Text}
use hyprv.Remote.{
  Surroundings, RemoteTab, on_rdp_host_size_changed, on_child_exited, on_placeholder_action_click,
  reapply_connection_settings,
}
use hyprv.Remote.Sound.{may_show, attended, IsSound, if-IsSound, bounds-IsSound, resolve-IsSound}
use hyprv.Remote.Runs.{RemoteEvent, remote_step, remote_run, new_remote_tab}
use hyprv.Remote.Runs.Steps.{
  show_popup-IsSound, hide_popup-IsSound, suppressed-IsSound, shutdown-IsSound, restart-IsSound,
  loaded-IsSound, connected-IsSound, desktop_resized-IsSound, disconnected-IsSound, error-IsSound,
}

-- What a handler finds has the placeholder's elements.
abbrev pub HasElements : Surroundings × RemoteEvent → Type 0
HasElements (w, e) = w.has_elements ≡ true

remote_step-IsSound :
    (e : Surroundings × RemoteEvent) (t : RemoteTab)
    → HasElements e
    → IsSound t
    → IsSound (remote_step e t)
unfolding remote_step on_rdp_host_size_changed on_child_exited on_placeholder_action_click
    reapply_connection_settings
remote_step-IsSound (w, RemoteEvent.shows) t e p = show_popup-IsSound w t p
remote_step-IsSound (w, RemoteEvent.hides) t e p = hide_popup-IsSound t p
remote_step-IsSound (w, RemoteEvent.suppresses b) t e p = suppressed-IsSound w b t p
remote_step-IsSound (w, RemoteEvent.loads) t e p = loaded-IsSound w t e p
remote_step-IsSound (w, RemoteEvent.resizes) t e p = resolve-IsSound _ (bounds-IsSound w t p)
remote_step-IsSound (w, RemoteEvent.acts) t e p = restart-IsSound w t e p
remote_step-IsSound (w, RemoteEvent.reapplies) t e p =
    if-IsSound t.has_client _ t (restart-IsSound w t e p) p
remote_step-IsSound (w, RemoteEvent.shuts_down) t e p = shutdown-IsSound t p
remote_step-IsSound (w, RemoteEvent.connects width height) t e p =
    connected-IsSound w width height t p
remote_step-IsSound (w, RemoteEvent.desktop_resizes width height) t e p =
    desktop_resized-IsSound w width height t p
remote_step-IsSound (w, RemoteEvent.disconnects desc) t e p = disconnected-IsSound w desc t e p
remote_step-IsSound (w, RemoteEvent.fails code) t e p = error-IsSound w code t e p
remote_step-IsSound (w, RemoteEvent.exits) t e p = p

run_of :
    (es : List (Surroundings × RemoteEvent)) (t : RemoteTab)
    → All HasElements es
    → IsSound t
    → IsSound (remote_run es t)
unfolding remote_run
run_of [] t h p = p
run_of (e ∷ es) t h p = run_of es (remote_step e t) h.1 (remote_step-IsSound e t h.0 p)

-- In every run of a remote host's page, whatever its handlers find, provided that the placeholder's elements are there:
-- the child's window is shown only while the page has a client, takes it for connected, is
-- selected and not below a dialog; and a page that is loaded or has a client takes itself for connected, is
-- connecting, or offers a button.
pub remote_run-IsSound :
    (es : List (Surroundings × RemoteEvent)) (address : Text) (auto_connect : Bool)
    → All HasElements es
    → ((remote_run es (new_remote_tab address auto_connect)).popup_shown ≡ true
        → may_show (remote_run es (new_remote_tab address auto_connect)) ≡ true)
      × (((remote_run es (new_remote_tab address auto_connect)).is_loaded
              || (remote_run es (new_remote_tab address auto_connect)).has_client)
            ≡ true
          → attended (remote_run es (new_remote_tab address auto_connect)) ≡ true)
remote_run-IsSound es address auto_connect h =
    let sound =
      run_of es (new_remote_tab address auto_connect) h
        record { windowed = refl; shown = λ k. absurd cc; told = λ k. absurd cc } in
    (sound.shown, sound.told)
