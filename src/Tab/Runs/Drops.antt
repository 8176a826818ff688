-- ===== src/Tab/Runs/Drops.antt =====
-- When the page gives up after drops of the session, and when it does not.
use hyprv.Prelude.{
  ℕ, ◌+◌, ◌≤◌, ◌≡◌, ◌∙◌, subst, Bool, true, false, ◌&&◌, List, [], ◌∷◌, arith, All, if◌then◌else◌,
}
use hyprv.Prelude.Text.{Text}
use hyprv.Tab.{World, Tab, hide_client, tear_down_client, render_error_placeholder, running_in}
use hyprv.Tab.Handlers.{
  schedule_reconnect, show_connect_error, after_drop, on_disconnected, on_vm_manager_changed,
}
use hyprv.Tab.Runs.{Event, tick, tab_step, tab_run}
use hyprv.Tab.Runs.Kept.{ongoing, Kept, tick-Kept, poll-Kept}

-- A page that has reached its machine before.
record IsReached (t : Tab) : Type 0 where
  reached : t.ever_connected ≡ true
  no_error : t.had_connect_error ≡ false
  window : t.has_window ≡ true

-- What a timer needs to spawn a client.
abbrev pub is_ready : World → Bool
is_ready w = w.has_elements && w.has_rdphost && running_in w.vm

-- The fatal drops of a run.
abbrev pub fatal_drop : Event → ℕ
fatal_drop (Event.drops w w' fatal detail) = if fatal then 1 else 0
fatal_drop _ = 0

abbrev pub fatal_drops : List Event → ℕ
fatal_drops [] = 0
fatal_drops (e ∷ es) = fatal_drop e + fatal_drops es

-- A page that never reached its machine, after a number of fatal drops.
record IsFailing (n : ℕ) (t : Tab) : Type 0 where
  unconnected : t.connected ≡ false
  unreached : t.ever_connected ≡ false
  no_error : t.had_connect_error ≡ false
  failures : t.connect_failures ≡ n

Kept-IsFailing : (n m : ℕ) (a b : Tab) → n ≡ m → Kept a b → IsFailing n a → IsFailing m b
Kept-IsFailing n m a b e k p = record {
  unconnected = k.unconnected p.unconnected;
  unreached = k.ever ∙ p.unreached;
  no_error = k.no_error;
  failures = k.failures ∙ p.failures ∙ e;
}

drop-IsFailing :
    (w w' : World) (fatal : Bool) (detail : Text) (n : ℕ) (t : Tab)
    → running_in w.vm ≡ true
    → n + (if fatal then 1 else 0) ≤ 3
    → IsFailing n t
    → IsFailing (n + (if fatal then 1 else 0)) (on_disconnected w w' fatal detail t)
unfolding on_disconnected after_drop hide_client schedule_reconnect
drop-IsFailing w w' fatal detail n t h b p =
    let fewer = p.failures in
    record {
      unconnected = ground (arith, h, b, fewer, p.unconnected, p.unreached);
      unreached = ground (arith, h, b, fewer, p.unconnected, p.unreached);
      no_error = ground (arith, h, b, fewer, p.unconnected, p.unreached, p.no_error);
      failures = ground (arith, h, b, fewer, p.unconnected, p.unreached);
    }

step-IsFailing :
    (e : Event) (n : ℕ) (t : Tab)
    → ongoing e ≡ true
    → n + fatal_drop e ≤ 3
    → IsFailing n t
    → IsFailing (n + fatal_drop e) (tab_step e t)
unfolding tab_step
step-IsFailing (Event.drops w w' fatal detail) n t h b p =
    drop-IsFailing w w' fatal detail n t h b p
step-IsFailing (Event.reconnects w w') n t h b p =
    Kept-IsFailing n (n + 0) t (tick w w' t) (omega arith) (tick-Kept w w' t h p.no_error) p
step-IsFailing (Event.changes w w') n t h b p =
    Kept-IsFailing n (n + 0) t (on_vm_manager_changed w w' t) (omega arith)
      (poll-Kept w w' t h p.no_error) p
step-IsFailing _ n t h b p = absurd cc

run-IsFailing :
    (es : List Event) (n m : ℕ) (t : Tab)
    → All (λ e. ongoing e ≡ true) es
    → n + fatal_drops es ≡ m
    → m ≤ 3
    → IsFailing n t
    → IsFailing m (tab_run es t)
unfolding tab_run
run-IsFailing [] n m t h e b p =
    let same : n ≡ m = omega (arith, e) in subst (λ k. IsFailing k t) same p
run-IsFailing (d ∷ es) n m t (h, more) e b p =
    run-IsFailing es (n + fatal_drop d) m _ more (omega (arith, e)) b
      (step-IsFailing d n t h (omega (arith, e, b)) p)

-- What is there once the page has given up.
pub record HasGivenUp (t : Tab) : Type 0 where
  pub latched : t.had_connect_error ≡ true
  pub ended : t.has_client ≡ false

show_connect_error-HasGivenUp :
    (w : World) (detail : Text) (t : Tab) → HasGivenUp (show_connect_error w detail t)
unfolding show_connect_error render_error_placeholder tear_down_client
show_connect_error-HasGivenUp w detail t = record { latched = ground arith; ended = ground arith }

drop-HasGivenUp :
    (w w' : World) (detail : Text) (t : Tab)
    → running_in w.vm ≡ true
    → IsFailing 3 t
    → HasGivenUp (on_disconnected w w' true detail t)
unfolding on_disconnected after_drop hide_client schedule_reconnect show_connect_error
    render_error_placeholder tear_down_client
drop-HasGivenUp w w' detail t h p = record {
  latched = ground (arith, h, p.failures, p.unconnected, p.unreached);
  ended = ground (arith, h, p.failures, p.unconnected, p.unreached);
}

-- A page that never reached its machine and has counted no failure gives up at the fourth fatal drop, and not before,
-- whatever timers, polls and drops that are not fatal come between, all with the machine running: after three fatal
-- drops the error is not latched, and a fourth latches it and ends the client.
pub run-failing :
    (es : List Event) (w w' : World) (detail : Text) (t : Tab)
    → All (λ d. ongoing d ≡ true) es
    → fatal_drops es ≡ 3
    → running_in w.vm ≡ true
    → (t.connected ≡ false)
      × (t.ever_connected ≡ false)
      × (t.had_connect_error ≡ false)
      × (t.connect_failures ≡ 0)
    → ((tab_run es t).had_connect_error ≡ false)
      × ((tab_step (Event.drops w w' true detail) (tab_run es t)).had_connect_error ≡ true)
      × ((tab_step (Event.drops w w' true detail) (tab_run es t)).has_client ≡ false)
unfolding tab_step
run-failing es w w' detail t all three r (a, b, c, d) =
    let after =
      run-IsFailing es 0 3 t all (omega (arith, three)) (omega arith)
        record { unconnected = a; unreached = b; no_error = c; failures = d } in
    let final = drop-HasGivenUp w w' detail (tab_run es t) r after in
    (after.no_error, final.latched, final.ended)
