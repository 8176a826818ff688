-- ===== src/Vm/Poll.antt =====
-- The poll thread of src/app/vm/VMManager.cpp, `PollLoop`, and those who wait for it in
-- `KickPollAndWait`. What the host holds is a number that every edit raises; a cycle reads it after it
-- has noted the requests. The parts of the two functions between which other threads can act are the
-- steps; any order of them is a run.
pub mod Sound
pub mod Fresh
use hyprv.Prelude.{ℕ, ◌+◌, ◌%◌, ◌^◌, Bool, true, false, List, [], ◌∷◌, ltb, if◌then◌else◌, not}

-- Where the poll thread is: in its wait, past it, reading with the requests it services and the host
-- as it was at the start, past the reading, or past the loop.
pub data PollPhase : Type 0 where
  asleep woken : PollPhase
  updating updated : ℕ → ℕ → PollPhase
  ended : PollPhase

-- A call of `KickPollAndWait` that has its request, and the host as it was then.
pub record Waiter : Type 0 where
  pub request : ℕ
  pub asked_at : ℕ

-- `cached` is the host at the start of the cycle that last replaced `m_vms`.
pub record Poller : Type 0 where
  pub host : ℕ
  pub poll_req : ℕ
  pub poll_serviced : ℕ
  pub poll_gen : ℕ
  pub kick_poll : Bool
  pub stop : Bool
  pub cached : ℕ
  pub phase : PollPhase
  pub waiters : List Waiter

pub data PollStep : Type 0 where
  edits registers kicks wakes begins publishes stops : PollStep
  updates : Bool → PollStep

abbrev next_of : ℕ → ℕ
next_of n = (n + 1) % 2 ^ 64

unfoldable pub register : Poller → Poller
register s = record s {
  poll_req = next_of s.poll_req;
  waiters = record { request = next_of s.poll_req; asked_at = s.host } ∷ s.waiters;
}

-- The end of the wait, by a kick, the interval or the stop.
unfoldable pub wake : Poller → Poller
wake s =
    if s.stop then record s { phase = ended } else record s { phase = woken; kick_poll = false }

unfoldable pub update_all : Bool → ℕ → ℕ → Poller → Poller
update_all done servicing since s =
    let past = record s { phase = updated servicing since } in
    if done then record past { cached = since } else past

unfoldable pub publish : ℕ → Poller → Poller
publish servicing s = record s {
  poll_gen = next_of s.poll_gen;
  poll_serviced = servicing;
  phase = if s.stop then ended else asleep;
}

-- A step of the poll thread that is elsewhere does nothing.
unfoldable pub poll_step : Poller → PollStep → Poller
poll_step s edits = record s { host = s.host + 1 }
poll_step s registers = register s
poll_step s kicks = record s { kick_poll = true }
poll_step s wakes = elim s.phase [ asleep ↦ wake s | _ ↦ s ]
poll_step s begins = elim s.phase [
  | woken ↦ record s { phase = updating s.poll_req s.host }
  | _ ↦ s
]
poll_step s (updates done) = elim s.phase [ updating q since ↦ update_all done q since s | _ ↦ s ]
poll_step s publishes = elim s.phase [ updated q since ↦ publish q s | _ ↦ s ]
poll_step s stops = record s { stop = true }

unfoldable pub poll_run : Poller → List PollStep → Poller
poll_run s [] = s
poll_run s (k ∷ ks) = poll_run (poll_step s k) ks

-- Whether the loop of `KickPollAndWait` ends before its time is up.
unfoldable pub is_served : Poller → Waiter → Bool
is_served s w = not (ltb s.poll_serviced w.request)

-- The thread as it starts, before the initial refresh.
abbrev pub new_poller : Poller
new_poller = record {
  host = 0;
  poll_req = 0;
  poll_serviced = 0;
  poll_gen = 0;
  kick_poll = false;
  stop = false;
  cached = 0;
  phase = woken;
  waiters = [];
}
