-- ===== src/Tab/Runs/Errors.antt =====
-- A page that has given up keeps the error while the machine runs.
use hyprv.Prelude.{
  ℕ, ◌+◌, ◌≡◌, refl, ap, ◌∙◌, Bool, true, false, ◌&&◌, ◌||◌, Option, none, some, List, [], ◌∷◌,
  if◌then◌else◌, ltb, arith, All,
}
use hyprv.Prelude.Text.{Text}
use hyprv.Tab.{
  VirtualMachine, World, View, Tab, tear_down_client, render_error_placeholder, running_in,
  is_running, keep_error, age_pending, with_machine, update_placeholder_and_client, without_machine,
}
use hyprv.Tab.Handlers.{schedule_reconnect, on_vm_manager_changed, header_of, update_vm_tab_header}
use hyprv.Tab.Runs.{Event, tab_step, tab_run}
use hyprv.Tab.Runs.Drops.{HasGivenUp}

-- A poll that finds the machine running, with the page's elements there.
abbrev pub running_poll : Event → Bool
running_poll (Event.changes w w') = running_in w'.vm && w'.has_elements
running_poll _ = false

-- A page that has given up, with the message it shows.
record IsStuck (message : Text) (t : Tab) : Type 0 where
  stuck : HasGivenUp t
  says : t.last_error_text ≡ message

header-IsStuck :
    (w : World) (message : Text) (t : Tab)
    → IsStuck message t
    → IsStuck message (update_vm_tab_header w t)
unfolding update_vm_tab_header
header-IsStuck w message t p = record {
  stuck = record {
    latched = ground (arith, p.stuck.latched);
    ended = ground (arith, p.stuck.ended);
  };
  says = by_elements w.has_elements;
}
  where
    by_elements :
        (b : Bool) → (if b then record t { vm_name = header_of w } else t).last_error_text ≡ message
    by_elements true = p.says
    by_elements false = p.says

aged_same :
    (w : World) (vm : VirtualMachine) (t : Tab)
    → ((age_pending w vm t).had_connect_error ≡ t.had_connect_error)
      × ((age_pending w vm t).has_client ≡ t.has_client)
      × ((age_pending w vm t).last_error_text ≡ t.last_error_text)
unfolding age_pending
aged_same w vm t =
    by_age (t.pending_connect && (is_running vm || ltb (25000 + t.pending_connect_at) w.now))
  where
    by_age :
        (b : Bool)
        → ((if b then record t { pending_connect = false } else t).had_connect_error
            ≡ t.had_connect_error)
          × ((if b then record t { pending_connect = false } else t).has_client ≡ t.has_client)
          × ((if b then record t { pending_connect = false } else t).last_error_text
              ≡ t.last_error_text)
    by_age true = (refl, refl, refl)
    by_age false = (refl, refl, refl)

-- The page shows the error, with nothing but the Retry button.
record IsShown (message : Text) (t : Tab) : Type 0 where
  kept : IsStuck message t
  shown : t.view ≡ View.failure message

keep_error-IsShown :
    (w : World) (vm : VirtualMachine) (message : Text) (t : Tab)
    → w.has_elements ≡ true
    → IsStuck message t
    → IsShown message (keep_error w vm t)
unfolding keep_error render_error_placeholder tear_down_client
keep_error-IsShown w vm message t h p =
    rw (h, p.stuck.ended)
      record {
        kept = record { stuck = record { latched = p.stuck.latched; ended = refl }; says = p.says };
        shown = ap View.failure p.says;
      }

with_machine-IsShown :
    (w : World) (vm : VirtualMachine) (message : Text) (t : Tab)
    → w.has_elements ≡ true
    → is_running vm ≡ true
    → IsStuck message t
    → IsShown message (with_machine w vm t)
unfolding with_machine
with_machine-IsShown w vm message t h r p =
    let (latched, ended, text) = aged_same w vm t in
    let aged : IsStuck message (age_pending w vm t) = record {
      stuck = record { latched = latched ∙ p.stuck.latched; ended = ended ∙ p.stuck.ended };
      says = text ∙ p.says;
    } in
    let wanted : ((age_pending w vm t).had_connect_error
          && (is_running vm || (age_pending w vm t).pending_connect))
        ≡ true =
      ground (arith, r, aged.stuck.latched) in
    rw wanted (keep_error-IsShown w vm message (age_pending w vm t) h aged)

update-IsShown :
    (w : World) (message : Text) (t : Tab)
    → (running_in w.vm && w.has_elements) ≡ true
    → IsStuck message t
    → IsShown message (update_placeholder_and_client w t)
unfolding update_placeholder_and_client
update-IsShown w message t h p =
    let there : w.has_elements ≡ true = ground (arith, h) in
    rw there (by_machine w.vm (ground (arith, h)))
  where
    by_machine :
        (o : Option VirtualMachine)
        → running_in o ≡ true
        → IsShown message (elim o [ none ↦ without_machine w t | some vm ↦ with_machine w vm t ])
    by_machine none e = absurd cc
    by_machine (some vm) e = with_machine-IsShown w vm message t (ground (arith, h)) e p

if-IsStuck :
    (b : Bool) (message : Text) (s t : Tab)
    → IsStuck message s
    → IsStuck message t
    → IsStuck message (if b then s else t)
if-IsStuck true message s t p q = p
if-IsStuck false message s t p q = q

schedule-IsStuck :
    (n : ℕ) (message : Text) (t : Tab)
    → IsStuck message t
    → IsStuck message (schedule_reconnect n t)
unfolding schedule_reconnect
schedule-IsStuck n message t p = record {
  stuck = record { latched = p.stuck.latched; ended = p.stuck.ended };
  says = p.says;
}

poll-IsShown :
    (w w' : World) (message : Text) (t : Tab)
    → (running_in w'.vm && w'.has_elements) ≡ true
    → IsStuck message t
    → IsShown message (on_vm_manager_changed w w' t)
unfolding on_vm_manager_changed
poll-IsShown w w' message t h p =
    let named = header-IsStuck w message t p in
    update-IsShown w' message _ h
      (if-IsStuck _ message _ _ (schedule-IsStuck 250 message _ named) named)

step-IsShown :
    (e : Event) (message : Text) (t : Tab)
    → running_poll e ≡ true
    → IsStuck message t
    → IsShown message (tab_step e t)
unfolding tab_step
step-IsShown (Event.changes w w') message t h p = poll-IsShown w w' message t h p
step-IsShown _ message t h p = absurd cc

run-IsStuck :
    (es : List Event) (message : Text) (t : Tab)
    → All (λ e. running_poll e ≡ true) es
    → IsStuck message t
    → IsStuck message (tab_run es t)
unfolding tab_run
run-IsStuck [] message t h p = p
run-IsStuck (e ∷ es) message t (h, more) p =
    run-IsStuck es message _ more (step-IsShown e message t h p).kept

-- A page that has given up stays so over any number of polls that find the machine running: the error is still latched,
-- no poll spawns a client, and the placeholder shows the message of the failure.
pub run-stuck :
    (es : List Event) (e : Event) (t : Tab)
    → All (λ d. running_poll d ≡ true) es
    → running_poll e ≡ true
    → t.had_connect_error ≡ true
    → t.has_client ≡ false
    → ((tab_step e (tab_run es t)).had_connect_error ≡ true)
      × ((tab_step e (tab_run es t)).has_client ≡ false)
      × ((tab_step e (tab_run es t)).view ≡ View.failure t.last_error_text)
run-stuck es e t all last a b =
    let before =
      run-IsStuck es t.last_error_text t all
        record { stuck = record { latched = a; ended = b }; says = refl } in
    let after = step-IsShown e t.last_error_text (tab_run es t) last before in
    (after.kept.stuck.latched, after.kept.stuck.ended, after.shown)
