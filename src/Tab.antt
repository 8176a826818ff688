-- ===== src/Tab.antt =====
-- The page of a machine's tab, src/app/VmTabPage.xaml.cpp and .h: when it spawns and ends the child process,
-- when the child's window is shown, and what the placeholder says. The machine as src/app/vm/VirtualMachine.h
-- gives it. The geometry of the window is not part of the state, nor is the log.
pub mod Proper
pub mod Start
pub mod Handlers
pub mod Runs
use hyprv.Prelude.{
  ℕ, ◌+◌, Bool, true, false, not, ◌&&◌, ◌||◌, Option, none, some, [], ltb, if◌then◌else◌, is_empty,
}
use hyprv.Prelude.Text.{Text, codes}

pub data VmState : Type 0 where
  unknown other running off stopping saved paused starting reset saving pausing resuming fast_saved
        fast_saving hibernated :
      VmState

pub record VirtualMachine : Type 0 where
  pub element_name : Text
  pub state : VmState
  pub status_text : Text
  pub enhanced_session_available : Bool

abbrev pub is_running : VirtualMachine → Bool
is_running vm = elim vm.state [ VmState.running ↦ true | _ ↦ false ]

abbrev pub is_stable : VirtualMachine → Bool
is_stable vm = elim vm.state [
  | VmState.off ↦ true
  | VmState.saved ↦ true
  | VmState.paused ↦ true
  | _ ↦ false
]

unfoldable pub stable_status_label : VmState → Text
stable_status_label VmState.running = codes "Running"
stable_status_label VmState.off = codes "Off"
stable_status_label VmState.paused = codes "Paused"
stable_status_label VmState.saved = codes "Saved"
stable_status_label VmState.hibernated = codes "Hibernated"
stable_status_label _ = []

unfoldable pub transition_state_label : VmState → Text
transition_state_label VmState.starting = codes "Starting..."
transition_state_label VmState.stopping = codes "Stopping..."
transition_state_label VmState.saving = codes "Saving..."
transition_state_label VmState.fast_saving = codes "Saving..."
transition_state_label VmState.pausing = codes "Pausing..."
transition_state_label VmState.resuming = codes "Resuming..."
transition_state_label VmState.reset = codes "Resetting..."
transition_state_label _ = []

-- What a handler reads: the machine in the cache, whether there was a poll, the clock in milliseconds,
-- whether the border is measured, the user's preference, whether the child's program is found, and
-- whether the page's elements are there.
pub record World : Type 0 where
  pub vm : Option VirtualMachine
  pub has_first_snapshot : Bool
  pub now : ℕ
  pub measured : Bool
  pub enhanced_pref : Bool
  pub has_rdphost : Bool
  pub has_elements : Bool

-- What is drawn below the machine's name: the status line with its hint, the Start button and the spinner;
-- the error with the Retry button; nothing over a live session.
pub data View : Type 0 where
  status : Text → Text → Bool → Bool → View
  failure : Text → View
  live : View

-- `has_client` is that `m_client` is there, `popup_shown` the last of its `Show` and `Hide`.
pub record Tab : Type 0 where
  pub has_client : Bool
  pub popup_shown : Bool
  pub has_window : Bool
  pub is_loaded : Bool
  pub connected : Bool
  pub wants_visible : Bool
  pub deferred_show : Bool
  pub popup_suppressed : Bool
  pub start_requested : Bool
  pub start_requested_at : ℕ
  pub pending_connect : Bool
  pub pending_connect_at : ℕ
  pub had_connect_error : Bool
  pub last_error_text : Text
  pub connect_failures : ℕ
  pub ever_connected : Bool
  pub ever_enhanced : Bool
  pub wanted_enhanced : Bool
  pub enhanced_ready : Bool
  pub enhanced_cooldown_until : ℕ
  pub last_state : VmState
  pub reconnect_after : Option ℕ
  pub vm_name : Text
  pub view : View

unfoldable pub show_client : Tab → Tab
show_client t = record t { popup_shown = t.has_client }

unfoldable pub hide_client : Tab → Tab
hide_client t = record t { popup_shown = false }

unfoldable pub tear_down_client : Tab → Tab
tear_down_client t =
    if t.has_client
    then record t {
      has_client = false;
      popup_shown = false;
      connected = false;
      deferred_show = false;
    }
    else t

unfoldable pub show_placeholder : Text → Text → Text → Bool → Bool → Tab → Tab
show_placeholder name line hint start spinner t = record t {
  vm_name = name;
  view = View.status line hint start spinner;
}

unfoldable pub hide_placeholder : Tab → Tab
hide_placeholder t = record t { view = View.live }

unfoldable pub render_error_placeholder : World → Text → Tab → Tab
render_error_placeholder w name t =
    if w.has_elements then record t { vm_name = name; view = View.failure t.last_error_text } else t

abbrev pub running_in : Option VirtualMachine → Bool
running_in none = false
running_in (some vm) = is_running vm

abbrev pub available_in : Option VirtualMachine → Bool
available_in none = false
available_in (some vm) = vm.enhanced_session_available

abbrev pub name_of : VirtualMachine → Text
name_of vm = if is_empty vm.element_name then codes "(no name)" else vm.element_name

abbrev pub name_in : Option VirtualMachine → Text
name_in none = codes "(no name)"
name_in (some vm) = name_of vm

abbrev pub wants_enhanced : World → Tab → Bool
wants_enhanced w t =
    available_in w.vm && w.enhanced_pref && not (ltb w.now t.enhanced_cooldown_until)

unfoldable pub start_connection : World → Tab → Tab
start_connection w t =
    if t.has_client
    then t
    else if not t.has_window
    then t
    else if not w.has_rdphost
    then t
    else record t {
      has_client = true;
      popup_shown = false;
      wanted_enhanced = wants_enhanced w t;
      enhanced_ready = false;
    }

-- `m_pendingConnect` is dropped once the machine runs, or after 25 seconds.
unfoldable pub age_pending : World → VirtualMachine → Tab → Tab
age_pending w vm t =
    if t.pending_connect && (is_running vm || ltb (25000 + t.pending_connect_at) w.now)
    then record t { pending_connect = false }
    else t

unfoldable pub keep_error : World → VirtualMachine → Tab → Tab
keep_error w vm t = record (render_error_placeholder w (name_of vm) (tear_down_client t)) {
  last_state = vm.state;
}

unfoldable pub clear_error : Tab → Tab
clear_error t =
    if t.had_connect_error
    then record t { had_connect_error = false; connect_failures = 0; last_error_text = [] }
    else t

unfoldable pub want_client : World → VirtualMachine → Tab → Tab
want_client w vm t =
    let starting = show_placeholder (name_of vm) (codes "Starting...") [] false false t in
    if not t.has_client
    then start_connection w (if is_running vm then hide_placeholder t else starting)
    else if t.connected
    then hide_placeholder t
    else if is_running vm
    then show_placeholder (name_of vm) (codes "Connecting...") [] false false t
    else starting

abbrev first_nonempty : Text → Text → Text
first_nonempty a b = if is_empty a then b else a

unfoldable pub state_line : VirtualMachine → Text
state_line vm = first_nonempty vm.status_text (
    first_nonempty (stable_status_label vm.state)
      (first_nonempty (transition_state_label vm.state) (codes "Not running")))

-- `m_startRequested` is dropped once a job is seen, or after 5 seconds.
unfoldable pub age_start : World → VirtualMachine → Tab → Tab
age_start w vm t =
    if t.start_requested
      && (not (is_empty vm.status_text) || ltb (5000 + t.start_requested_at) w.now)
    then record t { start_requested = false }
    else t

unfoldable pub shows_start : VirtualMachine → Tab → Bool
shows_start vm t = is_stable vm && not t.start_requested && is_empty vm.status_text

unfoldable pub not_running : World → VirtualMachine → Tab → Tab
not_running w vm t =
    let aged = age_start w vm (tear_down_client t) in
    show_placeholder (name_of vm)
      (if aged.start_requested then codes "Starting..." else state_line vm)
      (if shows_start vm aged then codes "Start this VM to connect." else []) (shows_start vm aged)
      false aged

unfoldable pub with_machine : World → VirtualMachine → Tab → Tab
with_machine w vm t =
    let aged = age_pending w vm t in
    let wanted = is_running vm || aged.pending_connect in
    if aged.had_connect_error && wanted
    then keep_error w vm aged
    else (let cleared = clear_error aged in
        record (if wanted then want_client w vm cleared else not_running w vm cleared) {
          last_state = vm.state;
        })

unfoldable pub without_machine : World → Tab → Tab
without_machine w t =
    let ended = tear_down_client t in
    record (if w.has_first_snapshot
      then show_placeholder (codes "(missing VM)")
          (codes "This VM is no longer registered with Hyper-V.") [] false false ended
      else show_placeholder (if is_empty t.vm_name then codes "Loading..." else t.vm_name) [] []
          false true ended) { last_state = VmState.unknown }

unfoldable pub update_placeholder_and_client : World → Tab → Tab
update_placeholder_and_client w t =
    if w.has_elements
    then elim w.vm [ none ↦ without_machine w t | some vm ↦ with_machine w vm t ]
    else t
