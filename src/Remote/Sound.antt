-- ===== src/Remote/Sound.antt =====
-- When the window of a remote session may be shown, and that a page is never left without a session, an
-- attempt or a button; what the parts of the handlers keep.
use hyprv.Prelude.{
  ◌≡◌, refl, Bool, true, false, not, ◌&&◌, ◌||◌, Option, none, some, if◌then◌else◌, arith, is_empty,
}
use hyprv.Prelude.Text.{Text, codes}
use hyprv.Settings.RemoteHosts.{RemoteHost}
use hyprv.Remote.Options.{Size, fitted, wire_options}
use hyprv.Remote.{
  Surroundings, Placeholder, hidden, told, RemoteTab, named, show_client, hide_client,
  update_rdphost_bounds, render_placeholder, connecting_placeholder, show_failure, session_of,
  connect_client, start_connection, resolve_deferred,
}

abbrev pub may_show : RemoteTab → Bool
may_show t = t.has_client && t.connected && t.wants_visible && not t.popup_suppressed

-- Whether the placeholder is there with its button.
abbrev pub offers : Placeholder → Bool
offers hidden = false
offers (told state hint action spinner is_error) = not (is_empty action)

abbrev pub attended : RemoteTab → Bool
attended t = t.connected || t.connecting || offers t.placeholder

-- The window is shown only where it may be; a page that is loaded or has a client is attended.
pub record IsSound (t : RemoteTab) : Type 0 where
  pub windowed : t.has_window ≡ true
  pub shown : t.popup_shown ≡ true → may_show t ≡ true
  pub told : (t.is_loaded || t.has_client) ≡ true → attended t ≡ true

pub if-IsSound : (b : Bool) (s t : RemoteTab) → IsSound s → IsSound t → IsSound (if b then s else t)
if-IsSound true s t p q = p
if-IsSound false s t p q = q

pub if_then-IsSound :
    (b : Bool) (s t : RemoteTab)
    → (b ≡ true → IsSound s)
    → (b ≡ false → IsSound t)
    → IsSound (if b then s else t)
if_then-IsSound true s t p q = p refl
if_then-IsSound false s t p q = q refl

pub bounds-IsSound :
    (w : Surroundings) (t : RemoteTab) → IsSound t → IsSound (update_rdphost_bounds w t)
unfolding update_rdphost_bounds
bounds-IsSound w t p = of_border w.border
  where
    of_border :
        (o : Option Size)
        → IsSound (elim o [
          | none ↦ t
          | some b ↦ if t.has_client then record t { popup = some (fitted t.session b) } else t
        ])
    of_border none = p
    of_border (some b) =
        if-IsSound t.has_client _ t record { windowed = p.windowed; shown = p.shown; told = p.told }
          p

-- The bounds leave what the window's being shown depends on.
pub bounds_may_show :
    (w : Surroundings) (t : RemoteTab) → may_show (update_rdphost_bounds w t) ≡ may_show t
unfolding update_rdphost_bounds
bounds_may_show w t = ground arith

pub show-IsSound : (t : RemoteTab) → may_show t ≡ true → IsSound t → IsSound (show_client t)
unfolding show_client
show-IsSound t h p = record { windowed = p.windowed; shown = λ e. h; told = p.told }

pub hide-IsSound :
    (t : RemoteTab)
    → t.has_window ≡ true
    → ((t.is_loaded || t.has_client) ≡ true → attended t ≡ true)
    → IsSound (hide_client t)
unfolding hide_client
hide-IsSound t h k = record { windowed = h; shown = λ e. absurd cc; told = k }

pub resolve-IsSound : (t : RemoteTab) → IsSound t → IsSound (resolve_deferred t)
unfolding resolve_deferred
resolve-IsSound t p =
    if_then-IsSound
      (t.has_client && t.wants_visible && t.connected && t.deferred_show && not t.popup_suppressed)
      (record (show_client t) { deferred_show = false }) t
      (λ h.
        let q = show-IsSound t (ground arith) p in
        record { windowed = q.windowed; shown = q.shown; told = q.told })
      (λ h. p)

-- A page without a client whose window is not shown, but for its words: what `start_connection` begins with.
pub record IsIdle (t : RemoteTab) : Type 0 where
  pub windowed : t.has_window ≡ true
  pub clientless : t.has_client ≡ false
  pub hidden : t.popup_shown ≡ false

pub failure-IsSound :
    (w : Surroundings) (text : Text) (t : RemoteTab)
    → w.has_elements ≡ true
    → t.has_window ≡ true
    → (t.popup_shown ≡ true → may_show t ≡ true)
    → IsSound (show_failure w text t)
unfolding show_failure render_placeholder
failure-IsSound w text t e h s = rw e (record { windowed = h; shown = s; told = λ k. ground arith })

-- A page without a client is idle.
pub IsSound-IsIdle : (t : RemoteTab) → IsSound t → t.has_client ≡ false → IsIdle t
IsSound-IsIdle t p h = record {
  windowed = p.windowed;
  clientless = h;
  hidden = ground (arith, p.shown);
}

-- Where the elements are there, the placeholder is what is rendered.
pub rendered {ℓ} :
    (P : RemoteTab → Type ℓ) (w : Surroundings) (p : Placeholder) (t : RemoteTab)
    → w.has_elements ≡ true
    → P (record t { placeholder = p })
    → P (render_placeholder w p t)
unfolding render_placeholder
rendered P w p t e h = rw e h

connect_client-IsSound :
    (w : Surroundings) (s : Size) (t : RemoteTab)
    → w.has_elements ≡ true
    → IsIdle t
    → IsSound (connect_client w s t)
unfolding connect_client
connect_client-IsSound w s t e i =
    if-IsSound w.starts _ _
      (rendered IsSound w connecting_placeholder _ e
        record { windowed = i.windowed; shown = λ h. absurd cc; told = λ h. ground arith })
      (rendered
        (λ b. IsSound (
          show_failure w (codes "Couldn't start the remote session host.")
            (record b { has_client = false; popup = none; connecting = false })))
        w connecting_placeholder _ e
        (failure-IsSound w (codes "Couldn't start the remote session host.") _ e i.windowed
          (λ h. absurd cc)))

pub start-IsSound :
    (w : Surroundings) (t : RemoteTab)
    → w.has_elements ≡ true
    → IsIdle t
    → IsSound (start_connection w t)
unfolding start_connection
start-IsSound w t e i =
    if_then-IsSound t.has_client t _ (λ h. let k = i.clientless in absurd cc)
      (λ h.
        if_then-IsSound (not t.has_window) t _ (λ k. let o = i.windowed in absurd (ground arith))
          (λ k. of_host w.host))
  where
    never : t.popup_shown ≡ true → may_show t ≡ true
    never h = let k = i.hidden in absurd cc

    of_host :
        (o : Option RemoteHost)
        → IsSound (elim o [
          | none ↦ show_failure w (codes "This remote host is no longer in your saved list.") t
          | some host ↦
              if not w.has_rdphost
              then show_failure w
                  (codes "hyprv-rdphost.exe was not found next to hyprv.exe.")
                  (record t { display_name = named host })
              else connect_client w
                  (session_of (wire_options host w.border w.dpi))
                  (record t { display_name = named host })
        ])
    of_host none = failure-IsSound w _ t e i.windowed never
    of_host (some host) =
        if-IsSound (not w.has_rdphost) _ _ (failure-IsSound w _ _ e i.windowed never) (
          connect_client-IsSound w _ _ e
            record { windowed = i.windowed; clientless = i.clientless; hidden = i.hidden })

-- With a client there is nothing to start.
pub start_again :
    (w : Surroundings) (t : RemoteTab) → t.has_client ≡ true → start_connection w t ≡ t
unfolding start_connection
start_again w t h = rw h refl
