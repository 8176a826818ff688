-- ===== src/Tab/Start.antt =====
-- When the placeholder has the Start button.
use hyprv.Prelude.{
  ◌≡◌, refl, Bool, true, false, not, Option, none, some, [], if◌then◌else◌, arith, is_empty,
}
use hyprv.Prelude.Text.{Text, codes}
use hyprv.Tab.{
  VmState, VirtualMachine, World, View, Tab, render_error_placeholder, name_of, keep_error,
  with_machine, update_placeholder_and_client, is_stable, show_placeholder, hide_placeholder,
  start_connection, want_client, not_running, without_machine, shows_start,
}

abbrev pub has_start : View → Bool
has_start (View.status line hint start spinner) = start
has_start (View.failure detail) = false
has_start View.live = false

-- The machine can be started, as the page knows.
pub record CanStart (vm : VirtualMachine) (t : Tab) : Type 0 where
  pub stable : is_stable vm ≡ true
  pub no_job : is_empty vm.status_text ≡ true
  pub no_request : t.start_requested ≡ false

not_running-CanStart :
    (w : World) (vm : VirtualMachine) (t : Tab)
    → has_start (not_running w vm t).view ≡ true
    → CanStart vm (not_running w vm t)
unfolding not_running show_placeholder shows_start
not_running-CanStart w vm t h = record {
  stable = ground (arith, h);
  no_job = ground (arith, h);
  no_request = ground (arith, h);
}

-- The views of a page, for one that has no Start button.
record IsPlain (t : Tab) : Type 0 where
  plain : has_start t.view ≡ false

if-IsPlain : (b : Bool) (s t : Tab) → IsPlain s → IsPlain t → IsPlain (if b then s else t)
if-IsPlain true s t p q = p
if-IsPlain false s t p q = q

waiting-IsPlain :
    (name line hint : Text) (spinner : Bool) (t : Tab)
    → IsPlain (show_placeholder name line hint false spinner t)
unfolding show_placeholder
waiting-IsPlain name line hint spinner t = record { plain = refl }

hidden-IsPlain : (t : Tab) → IsPlain (hide_placeholder t)
unfolding hide_placeholder
hidden-IsPlain t = record { plain = refl }

start_connection-IsPlain : (w : World) (t : Tab) → IsPlain t → IsPlain (start_connection w t)
unfolding start_connection
start_connection-IsPlain w t p = if-IsPlain t.has_client t _ p (
    if-IsPlain (not t.has_window) t _ p
      (if-IsPlain (not w.has_rdphost) t _ p record { plain = p.plain }))

want_client-IsPlain : (w : World) (vm : VirtualMachine) (t : Tab) → IsPlain (want_client w vm t)
unfolding want_client
want_client-IsPlain w vm t =
    let waiting : (line : Text) → IsPlain (show_placeholder (name_of vm) line [] false false t) =
      λ line. waiting-IsPlain (name_of vm) line [] false t in
    let hidden = hidden-IsPlain t in
    if-IsPlain _ _ _
      (start_connection-IsPlain w _ (if-IsPlain _ _ _ hidden (waiting (codes "Starting..."))))
      (if-IsPlain _ _ _ hidden
        (if-IsPlain _ _ _ (waiting (codes "Connecting...")) (waiting (codes "Starting..."))))

keep_error-IsPlain :
    (w : World) (vm : VirtualMachine) (t : Tab)
    → w.has_elements ≡ true
    → IsPlain (keep_error w vm t)
unfolding keep_error render_error_placeholder
keep_error-IsPlain w vm t h = rw h record { plain = refl }

state-IsPlain : (s : VmState) (t : Tab) → IsPlain t → IsPlain (record t { last_state = s })
state-IsPlain s t p = record { plain = p.plain }

without_machine-IsPlain : (w : World) (t : Tab) → IsPlain (without_machine w t)
unfolding without_machine
without_machine-IsPlain w t =
    state-IsPlain _ _
      (if-IsPlain w.has_first_snapshot _ _ (waiting-IsPlain _ _ _ _ _) (waiting-IsPlain _ _ _ _ _))

-- The Start button, if it is there, fits the machine.
record Fits (vm : VirtualMachine) (t : Tab) : Type 0 where
  fits : has_start t.view ≡ true → CanStart vm t

plain-Fits : (vm : VirtualMachine) (t : Tab) → IsPlain t → Fits vm t
plain-Fits vm t p = record { fits = λ h. let none_there = p.plain in absurd cc }

if-Fits :
    (vm : VirtualMachine) (b : Bool) (s t : Tab)
    → Fits vm s
    → Fits vm t
    → Fits vm (if b then s else t)
if-Fits vm true s t p q = p
if-Fits vm false s t p q = q

state-Fits :
    (vm : VirtualMachine) (s : VmState) (t : Tab)
    → Fits vm t
    → Fits vm (record t { last_state = s })
state-Fits vm s t p = record {
  fits = λ h.
      let can = p.fits h in
      record { stable = can.stable; no_job = can.no_job; no_request = can.no_request };
}

with_machine-Fits :
    (w : World) (vm : VirtualMachine) (t : Tab)
    → w.has_elements ≡ true
    → Fits vm (with_machine w vm t)
unfolding with_machine
with_machine-Fits w vm t h = if-Fits vm _ _ _ (plain-Fits vm _ (keep_error-IsPlain w vm _ h)) (
    state-Fits vm _ _ (
      if-Fits vm _ _ _ (plain-Fits vm _ (want_client-IsPlain w vm _))
        record { fits = not_running-CanStart w vm _ }))

abbrev at_machine : World → Tab → Option VirtualMachine → Tab
at_machine w t o = elim o [ none ↦ without_machine w t | some vm ↦ with_machine w vm t ]

-- Once the placeholder is updated it has the Start button only if the cache has the machine, which is off, saved
-- or paused with no job in flight, and no start that the user requested is still awaited.
pub update-CanStart :
    (w : World) (t : Tab)
    → w.has_elements ≡ true
    → has_start (update_placeholder_and_client w t).view ≡ true
    → (vm : VirtualMachine) × (w.vm ≡ some vm) × CanStart vm (update_placeholder_and_client w t)
unfolding update_placeholder_and_client
update-CanStart w t h = rw h (by_machine w.vm refl)
  where
    by_machine :
        (o : Option VirtualMachine)
        → w.vm ≡ o
        → has_start (at_machine w t o).view ≡ true
        → (vm : VirtualMachine) × (w.vm ≡ some vm) × CanStart vm (at_machine w t o)
    by_machine none e k = let none_there = (without_machine-IsPlain w t).plain in absurd cc
    by_machine (some vm) e k = (vm, e, (with_machine-Fits w vm t h).fits k)
