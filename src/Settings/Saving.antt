-- ===== src/Settings/Saving.antt =====
-- When the settings are written, in src/app/settings/Settings.cpp: `MarkDirty`, `SaveLoop` on its thread,
-- `SaveNow`, and the destructor. `data` is what the fields of `Settings` hold, `file` what settings.json
-- holds. The parts of the methods between two points at which the other threads can act are the
-- steps; any order of them is a run.
pub mod Coverage
use hyprv.Prelude.{
  ℕ, zero, suc, ◌+◌, ◌-◌, ◌≡◌, Bool, true, false, ◌||◌, List, [], ◌∷◌, if◌then◌else◌, ◌==◌,
}

-- Where the save thread is: before its next test of the two flags, past a test that found both
-- clear and not yet asleep, asleep, in the debounce window, between clearing the flag and the write, or
-- past the loop.
pub data SavePhase : Type 0 where
  testing about_to_sleep asleep debouncing saving ended : SavePhase

-- How `SaveLocked` ends: the file is replaced, or it returns without, or it throws.
pub data Outcome : Type 0 where
  written skipped thrown : Outcome

module _ {ℓ} (Data : Type ℓ) where
  pub record Store : Type ℓ where
    pub values : Data
    pub file : Data
    pub unmarked : ℕ  -- setters that have stored a value and not yet called `MarkDirty`
    pub dirty : Bool
    pub shutdown : Bool
    pub phase : SavePhase

  pub data SaveStep : Type ℓ where
    sets : Data → SaveStep
    marks : SaveStep
    tests : SaveStep
    sleeps : SaveStep
    wakes : SaveStep
    times_out : SaveStep
    saves : Outcome → SaveStep
    saves_now : Outcome → SaveStep
    shuts_down : SaveStep

  abbrev write_file : Outcome → Store → Store
  write_file written s = record s { file = s.values }
  write_file skipped s = s
  write_file thrown s = s

  -- `notify_one` and `notify_all`: a thread that is not yet asleep misses them.
  abbrev notified : SavePhase → SavePhase
  notified asleep = testing
  notified testing = testing
  notified about_to_sleep = about_to_sleep
  notified debouncing = debouncing
  notified saving = saving
  notified ended = ended

  unfoldable pub mark_dirty : Store → Store
  mark_dirty s = elim s.unmarked [
    | zero ↦ s
    | suc n ↦ record s { unmarked = n; dirty = true; phase = notified s.phase }
  ]

  -- The tests of the loop and of its first wait.
  unfoldable pub test_flags : Store → Store
  test_flags s =
      if s.shutdown
      then record s { phase = ended }
      else if s.dirty
      then record s { phase = debouncing }
      else record s { phase = about_to_sleep }

  -- The end of the debounce window.
  unfoldable pub end_debounce : Store → Store
  end_debounce s =
      if s.shutdown then record s { phase = ended } else record s { phase = saving; dirty = false }

  unfoldable pub save_in_loop : Outcome → Store → Store
  save_in_loop outcome s = record (write_file outcome s) { phase = testing }

  unfoldable pub save_now : Outcome → Store → Store
  save_now thrown s = s
  save_now written s = record (write_file written s) { dirty = false }
  save_now skipped s = record s { dirty = false }

  -- A step of the save thread that is elsewhere does nothing.
  unfoldable pub save_step : Store → SaveStep → Store
  save_step s (sets d) = record s { values = d; unmarked = s.unmarked + 1 }
  save_step s marks = mark_dirty s
  save_step s tests = elim s.phase [ testing ↦ test_flags s | _ ↦ s ]
  save_step s sleeps = elim s.phase [ about_to_sleep ↦ record s { phase = asleep } | _ ↦ s ]
  save_step s wakes = elim s.phase [ asleep ↦ record s { phase = testing } | _ ↦ s ]
  save_step s times_out = elim s.phase [ debouncing ↦ end_debounce s | _ ↦ s ]
  save_step s (saves outcome) = elim s.phase [ saving ↦ save_in_loop outcome s | _ ↦ s ]
  save_step s (saves_now outcome) = save_now outcome s
  save_step s shuts_down = record s { shutdown = true; phase = notified s.phase }

  unfoldable pub save_run : Store → List SaveStep → Store
  save_run s [] = s
  save_run s (k ∷ ks) = save_run (save_step s k) ks

  -- The rest of the destructor, once the thread is joined.
  unfoldable pub final_flush : Outcome → Store → Store
  final_flush outcome s = if s.dirty then write_file outcome (record s { dirty = false }) else s

  -- After `Load`, with the thread started.
  unfoldable pub loaded : Data → Store
  loaded d = record {
    values = d;
    file = d;
    unmarked = 0;
    dirty = false;
    shutdown = false;
    phase = testing;
  }
