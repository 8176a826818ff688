-- ===== src/Vm/Poll/Sound.antt =====
-- What the poll thread and the waiters owe each other between two steps, and each step alone.
use hyprv.Prelude.{ℕ, suc, ◌+◌, ◌%◌, ◌^◌, ◌≤◌, ◌<◌, ◌≡◌, Bool, true, List, [], ◌∷◌, All, arith}
use hyprv.Vm.Poll.{
  PollPhase, asleep, woken, updating, updated, ended, Waiter, Poller, PollStep, updates, register,
}

-- A refresh that begins ends without an exception.
abbrev pub Succeeds : PollStep → Type 0
Succeeds (updates done) = done ≡ true
Succeeds _ = Unit {0}

-- What a cycle that services the requests up to `q` owes a waiter, if it began at `since`.
abbrev pub Owes : ℕ → ℕ → Waiter → Type 0
Owes q since w = w.request ≤ q → w.asked_at ≤ since

-- The cycle that is under way.
abbrev pub UnderWay : Poller → PollPhase → Type 0
UnderWay s asleep = Unit {0}
UnderWay s woken = Unit {0}
UnderWay s (updating q since) = (q ≤ s.poll_req) × (s.cached ≤ since) × (since ≤ s.host)
UnderWay s (updated q since) = (q ≤ s.poll_req) × (since ≤ s.cached)
UnderWay s ended = Unit {0}

abbrev pub OwedIn : PollPhase → Waiter → Type 0
OwedIn asleep w = Unit {0}
OwedIn woken w = Unit {0}
OwedIn (updating q since) w = Owes q since w
OwedIn (updated q since) w = Owes q since w
OwedIn ended w = Unit {0}

abbrev pub WaiterSound : Poller → Waiter → Type 0
WaiterSound s w =
    (w.request ≤ s.poll_req)
    × (w.asked_at ≤ s.host)
    × Owes s.poll_serviced s.cached w
    × OwedIn s.phase w

pub record IsSound (n : ℕ) (s : Poller) : Type 0 where
  pub few : s.poll_req ≤ n
  pub behind : s.poll_serviced ≤ s.poll_req
  pub past : s.cached ≤ s.host
  pub under_way : UnderWay s s.phase
  pub waiting : All (WaiterSound s) s.waiters

pub All-map :
    {P Q : Waiter → Type 0} (ws : List Waiter) → ((w : Waiter) → P w → Q w) → All P ws → All Q ws
All-map [] f p = tt
All-map (w ∷ ws) f p = (f w p.0, All-map ws f p.1)

abbrev pub at : ℕ → ℕ → ℕ → ℕ → Bool → Bool → ℕ → PollPhase → List Waiter → Poller
at host req serviced gen kick stop cached phase ws = record {
  host = host;
  poll_req = req;
  poll_serviced = serviced;
  poll_gen = gen;
  kick_poll = kick;
  stop = stop;
  cached = cached;
  phase = phase;
  waiters = ws;
}

module _ (h r v g : ℕ) (k st : Bool) (c : ℕ) (ws : List Waiter) where
  -- A phase without a cycle under way owes nothing.
  pub no_cycle_of :
      (n g' : ℕ) (k' st' : Bool) (ph ph' : PollPhase)
      → ((w : Waiter) → OwedIn ph' w)
      → UnderWay (at h r v g' k' st' c ph' ws) ph'
      → IsSound n (at h r v g k st c ph ws)
      → IsSound (suc n) (at h r v g' k' st' c ph' ws)
  no_cycle_of n g' k' st' ph ph' owed way s = record {
    few = omega (arith, s.few);
    behind = s.behind;
    past = s.past;
    under_way = way;
    waiting = All-map ws (λ w p. (p.0, p.1, p.2, owed w)) s.waiting;
  }

  pub edits_of :
      (n : ℕ) (ph : PollPhase)
      → IsSound n (at h r v g k st c ph ws)
      → IsSound (suc n) (at (h + 1) r v g k st c ph ws)
  edits_of n ph s = record {
    few = omega (arith, s.few);
    behind = s.behind;
    past = omega (arith, s.past);
    under_way = way ph s.under_way;
    waiting = All-map ws (λ w p. (p.0, omega (arith, p.1), p.2, p.3)) s.waiting;
  }
    where
      way :
          (ph : PollPhase)
          → UnderWay (at h r v g k st c ph ws) ph
          → UnderWay (at (h + 1) r v g k st c ph ws) ph
      way asleep u = tt
      way woken u = tt
      way (updating q since) u = (u.0, u.1, omega arith)
      way (updated q since) u = u
      way ended u = tt

  pub flags_of :
      (n : ℕ) (k' st' : Bool) (ph : PollPhase)
      → IsSound n (at h r v g k st c ph ws)
      → IsSound (suc n) (at h r v g k' st' c ph ws)
  flags_of n k' st' ph s = record {
    few = omega (arith, s.few);
    behind = s.behind;
    past = s.past;
    under_way = s.under_way;
    waiting = s.waiting;
  }

  pub register_of :
      (n : ℕ) (ph : PollPhase)
      → suc n < 2 ^ 64
      → IsSound n (at h r v g k st c ph ws)
      → IsSound (suc n) (register (at h r v g k st c ph ws))
  unfolding register
  register_of n ph small s = record {
    few = omega (arith, s.few);
    behind = omega (arith, s.few, s.behind);
    past = s.past;
    under_way = way ph s.few s.under_way;
    waiting = (
      (
        omega arith,
        omega arith,
        λ (e : (r + 1) % 2 ^ 64 ≤ v). absurd (omega (arith, s.few, s.behind)),
        owed ph s.few s.under_way,
      ),
      All-map ws (λ w p. (omega (arith, s.few, p.0), p.1, p.2, p.3)) s.waiting,
    );
  }
    where
      way :
          (ph : PollPhase)
          → r ≤ n
          → UnderWay (at h r v g k st c ph ws) ph
          → UnderWay (register (at h r v g k st c ph ws)) ph
      way asleep few u = tt
      way woken few u = tt
      way (updating q since) few u = (omega arith, u.1, u.2)
      way (updated q since) few u = (omega arith, u.1)
      way ended few u = tt

      owed :
          (ph : PollPhase)
          → r ≤ n
          → UnderWay (at h r v g k st c ph ws) ph
          → OwedIn ph (record { request = (r + 1) % 2 ^ 64; asked_at = h })
      owed asleep few u = tt
      owed woken few u = tt
      owed (updating q since) few u = λ (e : (r + 1) % 2 ^ 64 ≤ q). absurd (omega arith)
      owed (updated q since) few u = λ (e : (r + 1) % 2 ^ 64 ≤ q). absurd (omega arith)
      owed ended few u = tt

  pub begins_of :
      (n : ℕ)
      → IsSound n (at h r v g k st c woken ws)
      → IsSound (suc n) (at h r v g k st c (updating r h) ws)
  begins_of n s = record {
    few = omega (arith, s.few);
    behind = s.behind;
    past = s.past;
    under_way = (omega arith, s.past, omega arith);
    waiting = All-map ws (λ w p. (p.0, p.1, p.2, λ e. p.1)) s.waiting;
  }

  pub updates_of :
      (n q since : ℕ)
      → IsSound n (at h r v g k st c (updating q since) ws)
      → IsSound (suc n) (at h r v g k st since (updated q since) ws)
  updates_of n q since s = record {
    few = omega (arith, s.few);
    behind = s.behind;
    past = s.under_way.2;
    under_way = (s.under_way.0, omega arith);
    waiting =
        All-map ws (λ w p. (p.0, p.1, λ e. omega (arith, p.2 e, s.under_way.1), p.3)) s.waiting;
  }

  pub publishes_of :
      (n q since g' : ℕ) (ph : PollPhase)
      → ((w : Waiter) → OwedIn ph w)
      → UnderWay (at h r q g' k st c ph ws) ph
      → IsSound n (at h r v g k st c (updated q since) ws)
      → IsSound (suc n) (at h r q g' k st c ph ws)
  publishes_of n q since g' ph owed way s = record {
    few = omega (arith, s.few);
    behind = s.under_way.0;
    past = s.past;
    under_way = way;
    waiting =
        All-map ws (λ w p. (p.0, p.1, λ e. omega (arith, p.3 e, s.under_way.1), owed w)) s.waiting;
  }
