-- ===== src/Remote/Runs/Exit.antt =====
-- What becomes of a remote host's page whose child ends without a word.
use hyprv.Prelude.{◌≡◌, refl, ◌∙◌, Bool, true, List, [], ◌∷◌, arith, All}
use hyprv.Remote.{
  Surroundings, hidden, RemoteTab, show_client, hide_client, update_rdphost_bounds, show_popup,
  hide_popup, set_popup_suppressed, resolve_deferred, on_rdp_host_size_changed, on_child_exited,
}
use hyprv.Remote.Runs.{RemoteEvent, remote_step, remote_run}

-- Events of the window: the tab is selected or not, a dialog opens or closes, the page is resized.
abbrev pub OfWindow : Surroundings × RemoteEvent → Type 0
OfWindow (w, RemoteEvent.shows) = Unit {0}
OfWindow (w, RemoteEvent.hides) = Unit {0}
OfWindow (w, RemoteEvent.suppresses b) = Unit {0}
OfWindow (w, RemoteEvent.resizes) = Unit {0}
OfWindow (w, RemoteEvent.exits) = Unit {0}
OfWindow e = ⊥

bounds-placeholder :
    (w : Surroundings) (t : RemoteTab) → (update_rdphost_bounds w t).placeholder ≡ t.placeholder
unfolding update_rdphost_bounds
bounds-placeholder w t = ground arith

show_popup-placeholder :
    (w : Surroundings) (t : RemoteTab) → (show_popup w t).placeholder ≡ t.placeholder
unfolding show_popup show_client
show_popup-placeholder w t =
    ground (arith, bounds-placeholder w (record t { wants_visible = true }))

suppress-placeholder :
    (w : Surroundings) (b : Bool) (t : RemoteTab)
    → (set_popup_suppressed w b t).placeholder ≡ t.placeholder
unfolding set_popup_suppressed hide_client
suppress-placeholder w b t =
    ground (arith, show_popup-placeholder w (record t { popup_suppressed = b }))

resize-placeholder :
    (w : Surroundings) (t : RemoteTab) → (on_rdp_host_size_changed w t).placeholder ≡ t.placeholder
unfolding on_rdp_host_size_changed resolve_deferred show_client
resize-placeholder w t = ground (arith, bounds-placeholder w t)

step-placeholder :
    (e : Surroundings × RemoteEvent) (t : RemoteTab)
    → OfWindow e
    → (remote_step e t).placeholder ≡ t.placeholder
unfolding remote_step hide_popup hide_client on_child_exited
step-placeholder (w, RemoteEvent.shows) t h = show_popup-placeholder w t
step-placeholder (w, RemoteEvent.hides) t h = refl
step-placeholder (w, RemoteEvent.suppresses b) t h = suppress-placeholder w b t
step-placeholder (w, RemoteEvent.resizes) t h = resize-placeholder w t
step-placeholder (w, RemoteEvent.exits) t h = refl
step-placeholder (w, RemoteEvent.loads) t h = absurd h
step-placeholder (w, RemoteEvent.acts) t h = absurd h
step-placeholder (w, RemoteEvent.reapplies) t h = absurd h
step-placeholder (w, RemoteEvent.shuts_down) t h = absurd h
step-placeholder (w, RemoteEvent.connects a b) t h = absurd h
step-placeholder (w, RemoteEvent.desktop_resizes a b) t h = absurd h
step-placeholder (w, RemoteEvent.disconnects d) t h = absurd h
step-placeholder (w, RemoteEvent.fails c) t h = absurd h

-- When the child of a page over a live session ends and nothing but events of the window follows, the
-- page keeps its placeholder hidden, so that it has no button to connect again.
pub remote_run-exited :
    (es : List (Surroundings × RemoteEvent)) (t : RemoteTab)
    → All OfWindow es
    → t.placeholder ≡ hidden
    → (remote_run es (on_child_exited t)).placeholder ≡ hidden
unfolding remote_run on_child_exited
remote_run-exited [] t h e = e
remote_run-exited (k ∷ es) t h e =
    remote_run-exited es (remote_step k t) h.1 (step-placeholder k t h.0 ∙ e)
