-- ===== src/Remote/Runs/Steps.antt =====
-- Every handler of a remote host's page keeps it sound.
use hyprv.Prelude.{
  ℕ, ◌≡◌, refl, sym, subst, ◌∙◌, Bool, true, false, not, ◌&&◌, ◌||◌, Option, none, some, [],
  if◌then◌else◌, arith, ltb,
}
use hyprv.Prelude.Text.{Text}
use hyprv.Remote.Options.{Size}
use hyprv.Remote.{
  Surroundings, hidden, RemoteTab, show_client, update_rdphost_bounds, render_placeholder,
  idle_placeholder, disconnected_placeholder, tear_down_client, start_connection, show_popup,
  hide_popup, hide_client, set_popup_suppressed, shutdown_client, on_loaded, resized_session,
  on_connected, on_desktop_resized, on_disconnected, error_text, on_error,
}
use hyprv.Remote.Sound.{
  IsSound, if-IsSound, if_then-IsSound, bounds-IsSound, bounds_may_show, show-IsSound, hide-IsSound,
  resolve-IsSound, IsIdle, IsSound-IsIdle, failure-IsSound, rendered, start-IsSound, start_again,
}

pub wanted-IsSound : (t : RemoteTab) → IsSound t → IsSound (record t { wants_visible = true })
wanted-IsSound t p = record {
  windowed = p.windowed;
  shown = ground (arith, p.shown);
  told = p.told;
}

pub show_popup-IsSound : (w : Surroundings) (t : RemoteTab) → IsSound t → IsSound (show_popup w t)
unfolding show_popup
show_popup-IsSound w t p =
    let q = wanted-IsSound t p in
    if_then-IsSound t.popup_suppressed _ _ (λ e. q)
      λ e.
        if_then-IsSound (not t.has_client || not t.connected) _ _ (λ f. q)
          λ f. of_border w.border e f q
  where
    of_border :
        (o : Option Size)
        → t.popup_suppressed ≡ false
        → (not t.has_client || not t.connected) ≡ false
        → IsSound (record t { wants_visible = true })
        → IsSound (elim o [
          | none ↦ record t { wants_visible = true; deferred_show = true }
          | some b ↦
              record (show_client (update_rdphost_bounds w (record t { wants_visible = true }))) {
                deferred_show = false;
              }
        ])
    of_border none e f q = record { windowed = q.windowed; shown = q.shown; told = q.told }
    of_border (some b) e f q =
        let wanted : RemoteTab = record t { wants_visible = true } in
        let r =
          show-IsSound (update_rdphost_bounds w wanted) (bounds_may_show w wanted ∙ (ground arith))
            (bounds-IsSound w wanted q) in
        record { windowed = r.windowed; shown = r.shown; told = r.told }

pub hide_popup-IsSound : (t : RemoteTab) → IsSound t → IsSound (hide_popup t)
unfolding hide_popup
hide_popup-IsSound t p = hide-IsSound _ p.windowed p.told

pub suppressed-IsSound :
    (w : Surroundings) (b : Bool) (t : RemoteTab) → IsSound t → IsSound (set_popup_suppressed w b t)
unfolding set_popup_suppressed
suppressed-IsSound w true t p = hide-IsSound _ p.windowed p.told
suppressed-IsSound w false t p =
    let freed : IsSound (record t { popup_suppressed = false }) = record {
      windowed = p.windowed;
      shown = ground (arith, p.shown);
      told = p.told;
    } in
    if-IsSound t.wants_visible _ _ (show_popup-IsSound w _ freed) freed

pub shutdown-IsSound : (t : RemoteTab) → IsSound t → IsSound (shutdown_client t)
unfolding shutdown_client
shutdown-IsSound t p =
    if-IsSound t.has_client _ t
      record { windowed = p.windowed; shown = λ h. absurd cc; told = λ h. p.told (ground arith) } p

torn_down-IsIdle : (t : RemoteTab) → IsSound t → IsIdle (tear_down_client t)
unfolding tear_down_client
torn_down-IsIdle t p = of_client t.has_client refl
  where
    of_client :
        (b : Bool)
        → t.has_client ≡ b
        → IsIdle (
            if b
            then record t {
              has_client = false;
              popup_shown = false;
              popup = none;
              connected = false;
              deferred_show = false;
            }
            else t)
    of_client true e = record { windowed = p.windowed; clientless = refl; hidden = refl }
    of_client false e = IsSound-IsIdle t p e

pub restart-IsSound :
    (w : Surroundings) (t : RemoteTab)
    → w.has_elements ≡ true
    → IsSound t
    → IsSound (
        start_connection w
          (tear_down_client (record t { had_connect_error = false; last_error_text = [] })))
restart-IsSound w t e p = start-IsSound w _ e (
    torn_down-IsIdle (record t { had_connect_error = false; last_error_text = [] })
      record { windowed = p.windowed; shown = p.shown; told = p.told })

pub loaded-IsSound :
    (w : Surroundings) (t : RemoteTab) → w.has_elements ≡ true → IsSound t → IsSound (on_loaded w t)
unfolding on_loaded
loaded-IsSound w t e p =
    let loaded : RemoteTab = record t { is_loaded = true } in
    if-IsSound t.is_loaded t _ p (
      resolve-IsSound _
        (bounds-IsSound w _ (if-IsSound t.auto_connect _ _ (started t.has_client refl) idle)))
  where
    started :
        (b : Bool) → t.has_client ≡ b → IsSound (start_connection w (record t { is_loaded = true }))
    started true h =
        subst IsSound (sym (start_again w (record t { is_loaded = true }) h))
          record { windowed = p.windowed; shown = p.shown; told = λ k. p.told (ground arith) }
    started false h =
        start-IsSound w _ e
          record { windowed = p.windowed; clientless = h; hidden = ground (arith, p.shown) }

    idle : IsSound (render_placeholder w idle_placeholder (record t { is_loaded = true }))
    idle =
        rendered IsSound w idle_placeholder _ e
          record { windowed = p.windowed; shown = p.shown; told = λ h. ground arith }

pub resized-IsSound :
    (width height : ℕ) (t : RemoteTab) → IsSound t → IsSound (resized_session width height t)
unfolding resized_session
resized-IsSound width height t p =
    if-IsSound (ltb 0 width && ltb 0 height) _ t
      record { windowed = p.windowed; shown = p.shown; told = p.told } p

resized_connected :
    (width height : ℕ) (t : RemoteTab) → (resized_session width height t).connected ≡ t.connected
unfolding resized_session
resized_connected width height t = ground arith

pub connected-IsSound :
    (w : Surroundings) (width height : ℕ) (t : RemoteTab)
    → IsSound t
    → IsSound (on_connected w width height t)
unfolding on_connected
connected-IsSound w width height t p =
    if_then-IsSound (clear.wants_visible && clear.has_client && not clear.popup_suppressed) _ _
      (λ h.
        show-IsSound (update_rdphost_bounds w clear)
          (bounds_may_show w clear ∙ (ground (arith, still_connected)))
          (bounds-IsSound w clear clear-IsSound))
      (λ h. clear-IsSound)
  where
    up : RemoteTab
    up =
        resized_session width height
          record t { connected = true; connecting = false; had_connect_error = false }

    clear : RemoteTab
    clear = if w.has_elements then record up { placeholder = hidden } else up

    up_connected : up.connected ≡ true
    up_connected = resized_connected width height _

    up-IsSound : IsSound up
    up-IsSound =
        resized-IsSound width height _
          record { windowed = p.windowed; shown = ground (arith, p.shown); told = λ h. refl }

    still_connected : clear.connected ≡ true
    still_connected = ground (arith, up_connected)

    clear-IsSound : IsSound clear
    clear-IsSound =
        if-IsSound w.has_elements _ up
          record {
            windowed = up-IsSound.windowed;
            shown = up-IsSound.shown;
            told = λ h. ground (arith, up_connected);
          }
          up-IsSound

pub desktop_resized-IsSound :
    (w : Surroundings) (width height : ℕ) (t : RemoteTab)
    → IsSound t
    → IsSound (on_desktop_resized w width height t)
unfolding on_desktop_resized
desktop_resized-IsSound w width height t p =
    if-IsSound (ltb 0 width && ltb 0 height) _ t
      (bounds-IsSound w _ (resized-IsSound width height t p)) p

pub disconnected-IsSound :
    (w : Surroundings) (desc : Text) (t : RemoteTab)
    → w.has_elements ≡ true
    → IsSound t
    → IsSound (on_disconnected w desc t)
unfolding on_disconnected hide_client
disconnected-IsSound w desc t e p =
    if-IsSound t.connected _ _
      (rendered IsSound w (disconnected_placeholder [] false) _ e
        record { windowed = p.windowed; shown = λ h. absurd cc; told = λ h. ground arith })
      (failure-IsSound w _ _ e p.windowed (λ h. absurd cc))

pub error-IsSound :
    (w : Surroundings) (code : ℕ) (t : RemoteTab)
    → w.has_elements ≡ true
    → IsSound t
    → IsSound (on_error w code t)
unfolding on_error
error-IsSound w code t e p =
    failure-IsSound w (error_text code) (record t { connecting = false }) e p.windowed p.shown
