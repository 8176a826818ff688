-- ===== src/Tab/Runs/Popup.antt =====
-- The child's window is only ever shown on a connected tab that is selected and not below a dialog.
use hyprv.Prelude.{
  ℕ, ◌≡◌, refl, Bool, true, false, not, ◌&&◌, ◌||◌, Option, none, some, List, [], ◌∷◌,
  if◌then◌else◌, arith,
}
use hyprv.Prelude.Text.{Text}
use hyprv.Tab.{World, Tab, show_client, hide_client, running_in, update_placeholder_and_client}
use hyprv.Tab.Handlers.{
  update_vm_tab_header, show_popup, hide_popup, set_popup_suppressed, schedule_reconnect,
  on_vm_manager_changed, respawn, do_reconnect, reapply_connection_settings,
  on_placeholder_start_click, on_placeholder_retry_click, show_connect_error, shutdown_client,
  resolve_deferred, on_loaded, on_connected, on_enhanced_ready, after_drop, on_disconnected,
}
use hyprv.Tab.Runs.{Event, tick, tab_step, tab_run, new_tab}
use hyprv.Tab.Proper.{
  IsProper, if-IsProper, tear_down-IsProper, render_error-IsProper, state-IsProper, update-IsProper,
  update_connected,
}

header-IsProper : (w : World) (t : Tab) → IsProper t → IsProper (update_vm_tab_header w t)
unfolding update_vm_tab_header
header-IsProper w t p = if-IsProper w.has_elements _ t record { shown = p.shown } p

if_then-IsProper :
    (b : Bool) (s t : Tab)
    → (b ≡ true → IsProper s)
    → (b ≡ false → IsProper t)
    → IsProper (if b then s else t)
if_then-IsProper true s t p q = p refl
if_then-IsProper false s t p q = q refl

show_popup-IsProper : (w : World) (t : Tab) → IsProper t → IsProper (show_popup w t)
unfolding show_popup show_client
show_popup-IsProper w t p =
    if_then-IsProper t.popup_suppressed (record t { wants_visible = true }) _
      (λ e. record { shown = ground (arith, p.shown) })
      λ e.
        if_then-IsProper (not t.has_client || not t.connected) (record t { wants_visible = true }) _
          (λ f. record { shown = ground (arith, p.shown) })
          λ f.
            if-IsProper w.measured _ _ record { shown = ground (arith, e, f) }
              record { shown = ground (arith, p.shown) }

hide_client-IsProper : (t : Tab) → IsProper (hide_client t)
unfolding hide_client
hide_client-IsProper t = record { shown = λ h. absurd cc }

hide_popup-IsProper : (t : Tab) → IsProper (hide_popup t)
unfolding hide_popup
hide_popup-IsProper t = hide_client-IsProper _

suppressed-IsProper :
    (w : World) (b : Bool) (t : Tab) → IsProper t → IsProper (set_popup_suppressed w b t)
unfolding set_popup_suppressed
suppressed-IsProper w true t p = hide_client-IsProper _
suppressed-IsProper w false t p =
    let freed : IsProper (record t { popup_suppressed = false }) = record {
      shown = ground (arith, p.shown);
    } in
    if-IsProper t.wants_visible _ _ (show_popup-IsProper w _ freed) freed

schedule-IsProper : (n : ℕ) (t : Tab) → IsProper t → IsProper (schedule_reconnect n t)
unfolding schedule_reconnect
schedule-IsProper n t p = record { shown = p.shown }

changed-IsProper : (w w' : World) (t : Tab) → IsProper t → IsProper (on_vm_manager_changed w w' t)
unfolding on_vm_manager_changed
changed-IsProper w w' t p =
    let named = header-IsProper w t p in
    update-IsProper w' _ (if-IsProper _ _ _ (schedule-IsProper 250 _ named) named)

respawn-IsProper : (w : World) (t : Tab) → IsProper t → IsProper (respawn w t)
unfolding respawn
respawn-IsProper w t p = update-IsProper w _ (state-IsProper _ _ (tear_down-IsProper t p))

reconnect-IsProper : (w w' : World) (t : Tab) → IsProper t → IsProper (do_reconnect w w' t)
unfolding do_reconnect
reconnect-IsProper w w' t p = if-IsProper _ _ _ (update-IsProper w' t p) (respawn-IsProper w' t p)

tick-IsProper : (w w' : World) (t : Tab) → IsProper t → IsProper (tick w w' t)
unfolding tick
tick-IsProper w w' t p = by_timer t.reconnect_after
  where
    by_timer :
        (o : Option ℕ)
        → IsProper (elim o [
          | none ↦ t
          | some delay ↦ do_reconnect w w' (record t { reconnect_after = none })
        ])
    by_timer none = p
    by_timer (some delay) = reconnect-IsProper w w' _ record { shown = p.shown }

reapply-IsProper : (w : World) (t : Tab) → IsProper t → IsProper (reapply_connection_settings w t)
unfolding reapply_connection_settings
reapply-IsProper w t p = if-IsProper t.has_client _ t (respawn-IsProper w t p) p

start_click-IsProper :
    (w : World) (t : Tab) → IsProper t → IsProper (on_placeholder_start_click w t)
unfolding on_placeholder_start_click
start_click-IsProper w t p = update-IsProper w _ record { shown = p.shown }

retry_click-IsProper :
    (w : World) (t : Tab) → IsProper t → IsProper (on_placeholder_retry_click w t)
unfolding on_placeholder_retry_click
retry_click-IsProper w t p = update-IsProper w _ record { shown = p.shown }

connect_error-IsProper :
    (w : World) (detail : Text) (t : Tab) → IsProper t → IsProper (show_connect_error w detail t)
unfolding show_connect_error
connect_error-IsProper w detail t p =
    render_error-IsProper w _ _ (tear_down-IsProper _ record { shown = p.shown })

shutdown-IsProper : (t : Tab) → IsProper t → IsProper (shutdown_client t)
unfolding shutdown_client
shutdown-IsProper t p = if-IsProper t.has_client _ t record { shown = λ h. absurd cc } p

resolve-IsProper : (t : Tab) → IsProper t → IsProper (resolve_deferred t)
unfolding resolve_deferred show_client
resolve-IsProper t p =
    if_then-IsProper
      (t.has_client && t.wants_visible && t.connected && t.deferred_show && not t.popup_suppressed)
      _ t (λ e. record { shown = ground (arith, e) }) (λ e. p)

loaded-IsProper : (w : World) (t : Tab) → IsProper t → IsProper (on_loaded w t)
unfolding on_loaded
loaded-IsProper w t p =
    if-IsProper t.is_loaded t _ p
      (resolve-IsProper _ (update-IsProper w _ (header-IsProper w _ record { shown = p.shown })))

connected-IsProper :
    (w : World) (enhanced : Bool) (t : Tab) → IsProper t → IsProper (on_connected w enhanced t)
unfolding on_connected show_client
connected-IsProper w enhanced t p =
    let marked = record t {
      connected = true;
      ever_connected = true;
      ever_enhanced = t.ever_enhanced || enhanced;
      connect_failures = 0;
      had_connect_error = false;
    } in
    let updated = update_placeholder_and_client w marked in
    let safe = update-IsProper w marked record { shown = ground (arith, p.shown) } in
    let live = update_connected w marked refl in
    if_then-IsProper (updated.wants_visible && updated.has_client && not updated.popup_suppressed)
      (show_client updated) updated (λ e. record { shown = ground (arith, e, live) }) (λ e. safe)

readied-IsProper : (r : Bool) (t : Tab) → IsProper t → IsProper (on_enhanced_ready r t)
unfolding on_enhanced_ready
readied-IsProper r t p = if-IsProper r _ t record { shown = p.shown } p

dropped-IsProper :
    (w w' : World) (fatal : Bool) (detail : Text) (t : Tab)
    → IsProper t
    → IsProper (on_disconnected w w' fatal detail t)
unfolding on_disconnected after_drop hide_client
dropped-IsProper w w' fatal detail t p =
    let hidden : IsProper (after_drop w t) = record { shown = λ h. absurd cc } in
    if-IsProper (running_in w.vm) _ _
      (if-IsProper (t.connected || t.ever_connected) _ _
        (schedule-IsProper _ _ record { shown = λ h. absurd cc })
        (if-IsProper _ _ _ (connect_error-IsProper w' detail _ record { shown = λ h. absurd cc })
          (schedule-IsProper _ _ record { shown = λ h. absurd cc })))
      (if-IsProper t.pending_connect _ _ (schedule-IsProper 700 _ hidden)
        (update-IsProper w' _ hidden))

step-IsProper : (e : Event) (t : Tab) → IsProper t → IsProper (tab_step e t)
unfolding tab_step
step-IsProper (Event.shows w) t p = show_popup-IsProper w t p
step-IsProper Event.hides t p = hide_popup-IsProper t
step-IsProper (Event.suppresses w b) t p = suppressed-IsProper w b t p
step-IsProper (Event.changes w w') t p = changed-IsProper w w' t p
step-IsProper (Event.reconnects w w') t p = tick-IsProper w w' t p
step-IsProper (Event.reapplies w) t p = reapply-IsProper w t p
step-IsProper (Event.starts w) t p = start_click-IsProper w t p
step-IsProper (Event.retries w) t p = retry_click-IsProper w t p
step-IsProper (Event.loads w) t p = loaded-IsProper w t p
step-IsProper Event.resizes t p = resolve-IsProper t p
step-IsProper (Event.connects w enhanced) t p = connected-IsProper w enhanced t p
step-IsProper (Event.readies r) t p = readied-IsProper r t p
step-IsProper (Event.drops w w' fatal detail) t p = dropped-IsProper w w' fatal detail t p
step-IsProper (Event.fails w detail) t p = connect_error-IsProper w detail t p
step-IsProper Event.shuts_down t p = shutdown-IsProper t p

run-IsProper : (es : List Event) (t : Tab) → IsProper t → IsProper (tab_run es t)
unfolding tab_run
run-IsProper [] t p = p
run-IsProper (e ∷ es) t p = run-IsProper es _ (step-IsProper e t p)

-- In every run of the page's handlers from its start, in any order and whatever they find, the child's window
-- is shown only while the page has its client and is connected, its tab is the selected one, and no
-- dialog suppresses the window.
pub tab_run-IsProper : (es : List Event) → IsProper (tab_run es new_tab)
tab_run-IsProper es = run-IsProper es new_tab record { shown = λ h. absurd cc }
