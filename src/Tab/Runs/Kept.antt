-- ===== src/Tab/Runs/Kept.antt =====
-- What timers and polls leave of the page's counts while the machine runs.
use hyprv.Prelude.{
  ℕ, ◌≡◌, refl, ◌∙◌, Bool, true, false, ◌&&◌, Option, none, some, arith, if◌then◌else◌,
}
use hyprv.Tab.{
  VirtualMachine, VmState, World, without_machine, Tab, tear_down_client, running_in, is_running,
  age_pending, clear_error, hide_placeholder, show_placeholder, start_connection, want_client,
  with_machine, update_placeholder_and_client,
}
use hyprv.Tab.Handlers.{
  schedule_reconnect, update_vm_tab_header, on_vm_manager_changed, respawn, do_reconnect,
}
use hyprv.Tab.Runs.{Event, tick}

-- A drop, a timer or a poll that finds the machine running.
abbrev pub ongoing : Event → Bool
ongoing (Event.drops w w' fatal detail) = running_in w.vm
ongoing (Event.reconnects w w') = running_in w.vm && running_in w'.vm
ongoing (Event.changes w w') = running_in w'.vm
ongoing _ = false

-- What these leave of the counts, while no error is latched.
pub record Kept (a b : Tab) : Type 0 where
  pub ever : b.ever_connected ≡ a.ever_connected
  pub no_error : b.had_connect_error ≡ false
  pub failures : b.connect_failures ≡ a.connect_failures
  pub window : b.has_window ≡ a.has_window
  pub unconnected : a.connected ≡ false → b.connected ≡ false

Kept-trans : (a b c : Tab) → Kept a b → Kept b c → Kept a c
Kept-trans a b c p q = record {
  ever = q.ever ∙ p.ever;
  no_error = q.no_error;
  failures = q.failures ∙ p.failures;
  window = q.window ∙ p.window;
  unconnected = λ h. q.unconnected (p.unconnected h);
}

want-Kept :
    (w : World) (vm : VirtualMachine) (t : Tab)
    → is_running vm ≡ true
    → t.had_connect_error ≡ false
    → Kept t (want_client w vm t)
unfolding want_client start_connection hide_placeholder show_placeholder
want-Kept w vm t r h = ground arith

pub age-Kept :
    (w : World) (vm : VirtualMachine) (t : Tab)
    → t.had_connect_error ≡ false
    → Kept t (age_pending w vm t)
unfolding age_pending
age-Kept w vm t h = ground arith

-- What is done for a running machine.
pub with_machine_lem :
    (w : World) (vm : VirtualMachine) (t : Tab)
    → is_running vm ≡ true
    → t.had_connect_error ≡ false
    → with_machine w vm t ≡ record (want_client w vm (age_pending w vm t)) { last_state = vm.state }
unfolding with_machine clear_error
with_machine_lem w vm t r h = rw ((age-Kept w vm t h).no_error, r) refl

stamped-Kept : (a b : Tab) (state : VmState) → Kept a b → Kept a (record b { last_state = state })
stamped-Kept a b state p = record {
  ever = p.ever;
  no_error = p.no_error;
  failures = p.failures;
  window = p.window;
  unconnected = p.unconnected;
}

with_machine-Kept :
    (w : World) (vm : VirtualMachine) (t : Tab)
    → is_running vm ≡ true
    → t.had_connect_error ≡ false
    → Kept t (with_machine w vm t)
with_machine-Kept w vm t r h =
    let aged = age_pending w vm t in
    let p = age-Kept w vm t h in
    rw (with_machine_lem w vm t r h) (
      stamped-Kept t (want_client w vm aged) vm.state
        (Kept-trans t aged (want_client w vm aged) p (want-Kept w vm aged r p.no_error)))

update-Kept :
    (w : World) (t : Tab)
    → running_in w.vm ≡ true
    → t.had_connect_error ≡ false
    → Kept t (update_placeholder_and_client w t)
unfolding update_placeholder_and_client
update-Kept w t r h = of_parts w.vm w.has_elements r
  where
    of_parts :
        (o : Option VirtualMachine) (b : Bool)
        → running_in o ≡ true
        → Kept t
            (if b then elim o [ none ↦ without_machine w t | some vm ↦ with_machine w vm t ] else t)
    of_parts none b r = absurd cc
    of_parts (some vm) true r = with_machine-Kept w vm t r h
    of_parts (some vm) false r = ground arith

pub torn-Kept :
    (t : Tab)
    → t.had_connect_error ≡ false
    → Kept t (record (tear_down_client t) { last_state = VmState.unknown })
unfolding tear_down_client
torn-Kept t h = ground arith

then_update :
    (w : World) (a b : Tab)
    → running_in w.vm ≡ true
    → Kept a b
    → Kept a (update_placeholder_and_client w b)
then_update w a b r p =
    Kept-trans a b (update_placeholder_and_client w b) p (update-Kept w b r p.no_error)

respawn-Kept :
    (w : World) (t : Tab)
    → running_in w.vm ≡ true
    → t.had_connect_error ≡ false
    → Kept t (respawn w t)
unfolding respawn
respawn-Kept w t r h =
    then_update w t (record (tear_down_client t) { last_state = VmState.unknown }) r (torn-Kept t h)

unfoldable pub fired : Tab → Tab
fired t = record t { reconnect_after = none }

pub do_reconnect_lem :
    (w w' : World) (t : Tab) → running_in w.vm ≡ true → do_reconnect w w' t ≡ respawn w' t
unfolding do_reconnect
do_reconnect_lem w w' t r = rw r refl

pub tick-Kept :
    (w w' : World) (t : Tab)
    → (running_in w.vm && running_in w'.vm) ≡ true
    → t.had_connect_error ≡ false
    → Kept t (tick w w' t)
unfolding tick fired
tick-Kept w w' t r h = of_timer t.reconnect_after
  where
    of_timer :
        (o : Option ℕ) → Kept t (elim o [ none ↦ t | some delay ↦ do_reconnect w w' (fired t) ])
    of_timer none = ground arith
    of_timer (some delay) = rw (do_reconnect_lem w w' (fired t) (ground arith)) (
        Kept-trans t (fired t) (respawn w' (fired t)) (ground arith)
          (respawn-Kept w' (fired t) (ground arith) h))

named-Kept :
    (w : World) (t : Tab) (b : Bool)
    → t.had_connect_error ≡ false
    → Kept t
        (if b then schedule_reconnect 250 (update_vm_tab_header w t) else update_vm_tab_header w t)
unfolding schedule_reconnect update_vm_tab_header
named-Kept w t b h = ground arith

pub poll-Kept :
    (w w' : World) (t : Tab)
    → running_in w'.vm ≡ true
    → t.had_connect_error ≡ false
    → Kept t (on_vm_manager_changed w w' t)
unfolding on_vm_manager_changed
poll-Kept w w' t r h = then_update w' t _ r (named-Kept w t _ h)
