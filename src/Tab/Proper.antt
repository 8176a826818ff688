-- ===== src/Tab/Proper.antt =====
-- When the child's window may be shown, and that updating the placeholder and the client keeps to it.
use hyprv.Prelude.{
  ◌+◌, ◌≡◌, Bool, true, false, not, ◌&&◌, ◌||◌, Option, none, some, [], if◌then◌else◌, ltb, arith,
  is_empty,
}
use hyprv.Prelude.Text.{Text, codes}
use hyprv.Tab.{
  VmState, VirtualMachine, World, Tab, tear_down_client, show_placeholder, hide_placeholder,
  render_error_placeholder, name_of, is_running, start_connection, age_pending, keep_error,
  clear_error, want_client, age_start, not_running, with_machine, without_machine,
  update_placeholder_and_client,
}

abbrev pub may_show : Tab → Bool
may_show t = t.has_client && t.connected && t.wants_visible && not t.popup_suppressed

-- If the window is shown, it may be.
pub record IsProper (t : Tab) : Type 0 where
  pub shown : t.popup_shown ≡ true → may_show t ≡ true

pub if-IsProper : (b : Bool) (s t : Tab) → IsProper s → IsProper t → IsProper (if b then s else t)
if-IsProper true s t p q = p
if-IsProper false s t p q = q

pub tear_down-IsProper : (t : Tab) → IsProper t → IsProper (tear_down_client t)
unfolding tear_down_client
tear_down-IsProper t p = if-IsProper t.has_client _ t record { shown = λ h. absurd cc } p

start_connection-IsProper : (w : World) (t : Tab) → IsProper t → IsProper (start_connection w t)
unfolding start_connection
start_connection-IsProper w t p = if-IsProper t.has_client t _ p (
    if-IsProper (not t.has_window) t _ p
      (if-IsProper (not w.has_rdphost) t _ p record { shown = λ h. absurd cc }))

show_placeholder-IsProper :
    (name line hint : Text) (start spinner : Bool) (t : Tab)
    → IsProper t
    → IsProper (show_placeholder name line hint start spinner t)
unfolding show_placeholder
show_placeholder-IsProper name line hint start spinner t p = record { shown = p.shown }

hide_placeholder-IsProper : (t : Tab) → IsProper t → IsProper (hide_placeholder t)
unfolding hide_placeholder
hide_placeholder-IsProper t p = record { shown = p.shown }

want_client-IsProper :
    (w : World) (vm : VirtualMachine) (t : Tab) → IsProper t → IsProper (want_client w vm t)
unfolding want_client
want_client-IsProper w vm t p =
    let waiting : (line : Text) → IsProper (show_placeholder (name_of vm) line [] false false t) =
      λ line. show_placeholder-IsProper (name_of vm) line [] false false t p in
    let hidden = hide_placeholder-IsProper t p in
    if-IsProper _ _ _
      (start_connection-IsProper w _ (if-IsProper _ _ _ hidden (waiting (codes "Starting..."))))
      (if-IsProper _ _ _ hidden
        (if-IsProper _ _ _ (waiting (codes "Connecting...")) (waiting (codes "Starting..."))))

pub render_error-IsProper :
    (w : World) (name : Text) (t : Tab) → IsProper t → IsProper (render_error_placeholder w name t)
unfolding render_error_placeholder
render_error-IsProper w name t p = if-IsProper w.has_elements _ t record { shown = p.shown } p

age_start-IsProper :
    (w : World) (vm : VirtualMachine) (t : Tab) → IsProper t → IsProper (age_start w vm t)
unfolding age_start
age_start-IsProper w vm t p =
    if-IsProper
      (t.start_requested
        && (not (is_empty vm.status_text) || ltb (5000 + t.start_requested_at) w.now))
      (record t { start_requested = false }) t record { shown = p.shown } p

not_running-IsProper :
    (w : World) (vm : VirtualMachine) (t : Tab) → IsProper t → IsProper (not_running w vm t)
unfolding not_running
not_running-IsProper w vm t p =
    show_placeholder-IsProper _ _ _ _ _ _ (age_start-IsProper w vm _ (tear_down-IsProper t p))

age_pending-IsProper :
    (w : World) (vm : VirtualMachine) (t : Tab) → IsProper t → IsProper (age_pending w vm t)
unfolding age_pending
age_pending-IsProper w vm t p =
    if-IsProper (t.pending_connect && (is_running vm || ltb (25000 + t.pending_connect_at) w.now))
      (record t { pending_connect = false }) t record { shown = p.shown } p

clear_error-IsProper : (t : Tab) → IsProper t → IsProper (clear_error t)
unfolding clear_error
clear_error-IsProper t p = if-IsProper t.had_connect_error _ t record { shown = p.shown } p

pub state-IsProper : (s : VmState) (t : Tab) → IsProper t → IsProper (record t { last_state = s })
state-IsProper s t p = record { shown = p.shown }

with_machine-IsProper :
    (w : World) (vm : VirtualMachine) (t : Tab) → IsProper t → IsProper (with_machine w vm t)
unfolding with_machine keep_error
with_machine-IsProper w vm t p =
    let aged = age_pending-IsProper w vm t p in
    let cleared = clear_error-IsProper _ aged in
    if-IsProper _ _ _ (state-IsProper _ _ (render_error-IsProper w _ _ (tear_down-IsProper _ aged)))
      (state-IsProper _ _ (
        if-IsProper _ _ _ (want_client-IsProper w vm _ cleared)
          (not_running-IsProper w vm _ cleared)))

without_machine-IsProper : (w : World) (t : Tab) → IsProper t → IsProper (without_machine w t)
unfolding without_machine
without_machine-IsProper w t p =
    let ended = tear_down-IsProper t p in
    state-IsProper _ _ (
      if-IsProper _ _ _ (show_placeholder-IsProper _ _ _ _ _ _ ended)
        (show_placeholder-IsProper _ _ _ _ _ _ ended))

pub update-IsProper :
    (w : World) (t : Tab) → IsProper t → IsProper (update_placeholder_and_client w t)
unfolding update_placeholder_and_client
update-IsProper w t p = if-IsProper w.has_elements _ t (by_machine w.vm) p
  where
    by_machine :
        (o : Option VirtualMachine)
        → IsProper (elim o [ none ↦ without_machine w t | some vm ↦ with_machine w vm t ])
    by_machine none = without_machine-IsProper w t p
    by_machine (some vm) = with_machine-IsProper w vm t p

-- A page that is connected stays so through an update that leaves it a client.
tear_down_ends : (t : Tab) → (tear_down_client t).has_client ≡ false
unfolding tear_down_client
tear_down_ends t = ground arith

want_client_connected :
    (w : World) (vm : VirtualMachine) (t : Tab) → (want_client w vm t).connected ≡ t.connected
unfolding want_client start_connection show_placeholder hide_placeholder
want_client_connected w vm t = ground arith

not_running_ends :
    (w : World) (vm : VirtualMachine) (t : Tab) → (not_running w vm t).has_client ≡ false
unfolding not_running age_start show_placeholder
not_running_ends w vm t = ground (arith, tear_down_ends t)

keep_error_ends :
    (w : World) (vm : VirtualMachine) (t : Tab) → (keep_error w vm t).has_client ≡ false
unfolding keep_error render_error_placeholder
keep_error_ends w vm t = ground (arith, tear_down_ends t)

cleared_connected :
    (w : World) (vm : VirtualMachine) (t : Tab)
    → (clear_error (age_pending w vm t)).connected ≡ t.connected
unfolding clear_error age_pending
cleared_connected w vm t = ground arith

with_machine_connected :
    (w : World) (vm : VirtualMachine) (t : Tab)
    → t.connected ≡ true
    → (with_machine w vm t).has_client ≡ true
    → (with_machine w vm t).connected ≡ true
unfolding with_machine
with_machine_connected w vm t h k =
    let cleared = clear_error (age_pending w vm t) in
    ground (
      arith,
      keep_error_ends w vm (age_pending w vm t),
      want_client_connected w vm cleared,
      cleared_connected w vm t,
      not_running_ends w vm cleared,
      h,
      k,
    )

without_machine_ends : (w : World) (t : Tab) → (without_machine w t).has_client ≡ false
unfolding without_machine show_placeholder
without_machine_ends w t = ground (arith, tear_down_ends t)

pub update_connected :
    (w : World) (t : Tab)
    → t.connected ≡ true
    → (update_placeholder_and_client w t).has_client ≡ true
    → (update_placeholder_and_client w t).connected ≡ true
unfolding update_placeholder_and_client
update_connected w t h = by_elements w.has_elements w.vm
  where
    by_elements :
        (b : Bool) (o : Option VirtualMachine)
        → (if b
            then elim o [ none ↦ without_machine w t | some vm ↦ with_machine w vm t ]
            else t).has_client
          ≡ true
        → (if b
            then elim o [ none ↦ without_machine w t | some vm ↦ with_machine w vm t ]
            else t).connected
          ≡ true
    by_elements false o k = h
    by_elements true none k = let gone = without_machine_ends w t in absurd cc
    by_elements true (some vm) k = with_machine_connected w vm t h k
