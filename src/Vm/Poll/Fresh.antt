-- ===== src/Vm/Poll/Fresh.antt =====
-- What a caller of `KickPollAndWait` finds in the cache when its wait ends.
use hyprv.Prelude.{
  ℕ, suc, ◌+◌, ◌^◌, ◌≤◌, ◌<◌, ◌≡◌, ◌≢◌, refl, sym, subst, Bool, true, false, List, [], ◌∷◌, All,
  length, arith,
}
use hyprv.Vm.Poll.{
  PollPhase, asleep, woken, updating, updated, ended, Waiter, Poller, PollStep, edits, registers,
  kicks, wakes, begins, publishes, stops, updates, register, wake, update_all, publish, poll_step,
  poll_run, is_served, new_poller,
}
use hyprv.Vm.Poll.Sound.{
  Succeeds, All-map, IsSound, at, no_cycle_of, edits_of, flags_of, register_of, begins_of,
  updates_of, publishes_of,
}

step_of :
    (n h r v g : ℕ) (k st : Bool) (c : ℕ) (ph : PollPhase) (ws : List Waiter) (e : PollStep)
    → suc n < 2 ^ 64
    → Succeeds e
    → IsSound n (at h r v g k st c ph ws)
    → IsSound (suc n) (poll_step (at h r v g k st c ph ws) e)
unfolding poll_step wake update_all publish
step_of n h r v g k st c ph ws edits small ok s = edits_of h r v g k st c ws n ph s
step_of n h r v g k st c ph ws registers small ok s = register_of h r v g k st c ws n ph small s
step_of n h r v g k st c ph ws kicks small ok s = flags_of h r v g k st c ws n true st ph s
step_of n h r v g k st c ph ws stops small ok s = flags_of h r v g k st c ws n k true ph s
step_of n h r v g k true c asleep ws wakes small ok s =
    no_cycle_of h r v g k true c ws n g k true asleep ended (λ w. tt) tt s
step_of n h r v g k false c asleep ws wakes small ok s =
    no_cycle_of h r v g k false c ws n g false false asleep woken (λ w. tt) tt s
step_of n h r v g k st c woken ws begins small ok s = begins_of h r v g k st c ws n s
step_of n h r v g k st c (updating q since) ws (updates true) small ok s =
    updates_of h r v g k st c ws n q since s
step_of n h r v g k st c (updating q since) ws (updates false) small ok s = absurd cc
step_of n h r v g k true c (updated q since) ws publishes small ok s =
    publishes_of h r v g k true c ws n q since _ ended (λ w. tt) tt s
step_of n h r v g k false c (updated q since) ws publishes small ok s =
    publishes_of h r v g k false c ws n q since _ asleep (λ w. tt) tt s
step_of n h r v g k st c woken ws wakes small ok s = flags_of h r v g k st c ws n k st woken s
step_of n h r v g k st c (updating q b) ws wakes small ok s = flags_of h r v g k st c ws n k st _ s
step_of n h r v g k st c (updated q b) ws wakes small ok s = flags_of h r v g k st c ws n k st _ s
step_of n h r v g k st c ended ws wakes small ok s = flags_of h r v g k st c ws n k st ended s
step_of n h r v g k st c asleep ws begins small ok s = flags_of h r v g k st c ws n k st asleep s
step_of n h r v g k st c (updating q b) ws begins small ok s = flags_of h r v g k st c ws n k st _ s
step_of n h r v g k st c (updated q b) ws begins small ok s = flags_of h r v g k st c ws n k st _ s
step_of n h r v g k st c ended ws begins small ok s = flags_of h r v g k st c ws n k st ended s
step_of n h r v g k st c asleep ws publishes small ok s = flags_of h r v g k st c ws n k st asleep s
step_of n h r v g k st c woken ws publishes small ok s = flags_of h r v g k st c ws n k st woken s
step_of n h r v g k st c (updating q b) ws publishes small ok s =
    flags_of h r v g k st c ws n k st _ s
step_of n h r v g k st c ended ws publishes small ok s = flags_of h r v g k st c ws n k st ended s
step_of n h r v g k st c asleep ws (updates d) small ok s =
    flags_of h r v g k st c ws n k st asleep s
step_of n h r v g k st c woken ws (updates d) small ok s = flags_of h r v g k st c ws n k st woken s
step_of n h r v g k st c (updated q b) ws (updates d) small ok s =
    flags_of h r v g k st c ws n k st _ s
step_of n h r v g k st c ended ws (updates d) small ok s = flags_of h r v g k st c ws n k st ended s

run_of :
    (n : ℕ) (s : Poller) (ks : List PollStep)
    → n + length ks < 2 ^ 64
    → All Succeeds ks
    → IsSound n s
    → (m : ℕ) × IsSound m (poll_run s ks)
unfolding poll_run
run_of n s [] small ok h = (n, h)
run_of n s (k ∷ ks) small ok h = run_of (suc n) (poll_step s k) ks (omega arith) ok.1 (
    step_of n s.host s.poll_req s.poll_serviced s.poll_gen s.kick_poll s.stop s.cached s.phase
      s.waiters k (omega arith) ok.0 h)

start-IsSound : IsSound 0 new_poller
start-IsSound = record {
  few = omega arith;
  behind = omega arith;
  past = omega arith;
  under_way = tt;
  waiting = tt;
}

served-le : (s : Poller) (w : Waiter) → is_served s w ≡ true → w.request ≤ s.poll_serviced
unfolding is_served
served-le s w h = ground arith

-- However the poll thread, those who wait for it and the changes of the host interleave, in fewer
-- than 2^64 steps in which every refresh succeeds: whoever's wait is served finds in the cache a
-- reading that began when the host was at least as it was when the wait began.
pub poll_run-fresh :
    (ks : List PollStep)
    → length ks < 2 ^ 64
    → All Succeeds ks
    → All
        (λ w.
          is_served (poll_run new_poller ks) w ≡ true
          → w.asked_at ≤ (poll_run new_poller ks).cached)
        (poll_run new_poller ks).waiters
poll_run-fresh ks small ok =
    let end = poll_run new_poller ks in
    let sound = run_of 0 new_poller ks (omega arith) ok start-IsSound in
    All-map end.waiters (λ w p e. p.2 (served-le end w e)) sound.1.waiting

-- The rest of a cycle that is under way, and one whole cycle.
abbrev pub two_cycles : Bool → Bool → List PollStep
two_cycles b b' = begins ∷ updates b ∷ publishes ∷ wakes ∷ begins ∷ updates b' ∷ publishes ∷ []

served_of :
    (h r v g : ℕ) (k : Bool) (c : ℕ) (ph : PollPhase) (ws : List Waiter) (b b' : Bool)
    → ph ≢ ended
    → (poll_run (register (at h r v g k false c ph ws)) (two_cycles b b')).poll_serviced
      ≡ (register (at h r v g k false c ph ws)).poll_req
unfolding poll_run poll_step register wake update_all publish
served_of h r v g k c asleep ws b true n = refl
served_of h r v g k c asleep ws b false n = refl
served_of h r v g k c woken ws true true n = refl
served_of h r v g k c woken ws true false n = refl
served_of h r v g k c woken ws false true n = refl
served_of h r v g k c woken ws false false n = refl
served_of h r v g k c (updating q since) ws true true n = refl
served_of h r v g k c (updating q since) ws true false n = refl
served_of h r v g k c (updating q since) ws false true n = refl
served_of h r v g k c (updating q since) ws false false n = refl
served_of h r v g k c (updated q since) ws b true n = refl
served_of h r v g k c (updated q since) ws b false n = refl
served_of h r v g k c ended ws b b' n = absurd (n refl)

-- Wherever the poll thread is when a request is registered: while it is not stopped, what is left of the
-- cycle under way and one more cycle serve the request, whether or not the refreshes throw.
pub register-served :
    (s : Poller) (b b' : Bool)
    → s.stop ≡ false
    → s.phase ≢ ended
    → (poll_run (register s) (two_cycles b b')).poll_serviced ≡ (register s).poll_req
register-served s b b' h n =
    subst
      (λ (st : Bool).
        (poll_run (register (record s { stop = st })) (two_cycles b b')).poll_serviced
        ≡ (register (record s { stop = st })).poll_req)
      (sym h)
      (served_of s.host s.poll_req s.poll_serviced s.poll_gen s.kick_poll s.cached s.phase s.waiters
        b b' n)
