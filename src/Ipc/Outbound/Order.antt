-- ===== src/Ipc/Outbound/Order.antt =====
-- Nothing that is queued is lost, doubled or put out of order, whatever is logged in between.
use hyprv.Prelude.{
  ℕ, ◌≡◌, refl, sym, ap, ◌∙◌, subst, Bool, true, false, Option, List, [], ◌∷◌, ◌++◌, map, arith,
  All,
}
use mathlib.Core.Path.{ap₂}
use mathlib.Core.List.{append_assoc, append-nil}
use hyprv.Prelude.Text.{Text}
use hyprv.Ipc.Frames.{Message, frame, frames, IsFrame, Sender, send_raw}
use hyprv.Ipc.Frames.Delivery.{TakesAll, write_all-TakesAll}
use hyprv.Ipc.Outbound.{
  Printing, Phase, starting, looping, waiting, stopping, leaving, exited, holding, sending,
  reporting, Outbound, Step, queues, logs, advances, stops, queue_outbound, take_front, hyprv_log,
  send_held, advance, outbound_step, outbound_run,
}
use hyprv.Ipc.Outbound.Log.{
  is_log, events, events-append, frames-append, All-append, hyprv_log-Lines,
}

-- The messages that a run queues.
abbrev pub queued : List Step → List Message
queued [] = []
queued (queues m ∷ ks) = m ∷ queued ks
queued (logs text ∷ ks) = queued ks
queued (advances ∷ ks) = queued ks
queued (stops ∷ ks) = queued ks

-- A framed message that is not a log line.
abbrev pub IsEvent : Message → Type 0
IsEvent m = IsFrame m × (is_log m ≡ false)

-- The message that the thread has taken and not sent yet.
abbrev pub Hand : Phase → List Message → Type 0
Hand (holding msg) hand = (m : Message) × (msg ≡ frame m) × (hand ≡ m ∷ [])
Hand (sending msg) hand = (m : Message) × (msg ≡ frame m) × (hand ≡ m ∷ [])
Hand _ hand = hand ≡ []

-- An open pipe and what it holds.
abbrev pub holds : List ℕ → Sender
holds b = record { is_open = true; sent = b }

abbrev extended : List ℕ → Sender → Sender
extended b p = record p { sent = p.sent ++ b }

-- The pipe holds, after what it held before, whole frames; those that are not log lines, the message in hand and the
-- queue are together what was asked for, in this order.
pub record Accounts (before : List ℕ) (asked : List Message) (s : Outbound) : Type 0 where
  pub written : List Message
  pub in_hand : List Message
  pub waits : List Message
  pub pipe : s.pipe ≡ holds (before ++ frames written)
  pub hand : Hand s.phase in_hand
  pub queue : s.out_queue ≡ map frame waits
  pub order : events written ++ (in_hand ++ waits) ≡ asked
  pub framed : All IsFrame written
  pub hand_events : All IsEvent in_hand
  pub queue_events : All IsEvent waits

abbrev at : List (List ℕ) → Bool → Phase → Sender → Outbound
at q running ph pipe = record { out_queue = q; out_running = running; phase = ph; pipe = pipe }

module _ (before : List ℕ) (asked : List Message) where
  -- A step that leaves the pipe and the queue alone, and the message in hand.
  rephased :
      (s : Outbound) (running : Bool) (ph : Phase)
      → ((hand : List Message) → Hand s.phase hand → Hand ph hand)
      → Accounts before asked s
      → Accounts before asked (at s.out_queue running ph s.pipe)
  rephased s running ph f v = record {
    written = v.written;
    in_hand = v.in_hand;
    waits = v.waits;
    pipe = v.pipe;
    hand = f v.in_hand v.hand;
    queue = v.queue;
    order = v.order;
    framed = v.framed;
    hand_events = v.hand_events;
    queue_events = v.queue_events;
  }

  -- A step that logs as well.
  logged :
      (io : Printing) (write : List ℕ → List ℕ → Option ℕ) (text : Text) (s : Outbound) (ph : Phase)
      → TakesAll write
      → ((hand : List Message) → Hand s.phase hand → Hand ph hand)
      → Accounts before asked s
      → Accounts before asked (at s.out_queue s.out_running ph (hyprv_log io write text s.pipe))
  logged io write text s ph t f v =
      let l = hyprv_log-Lines io write text s.pipe t (ap (λ p. p.is_open) v.pipe) in
      record {
        written = v.written ++ l.lines;
        in_hand = v.in_hand;
        waits = v.waits;
        pipe =
            l.written
            ∙ ap (extended (frames l.lines)) v.pipe
            ∙ ap holds (
                append_assoc before (frames v.written) (frames l.lines)
                ∙ ap (◌++◌ before) (sym (frames-append v.written l.lines)));
        hand = f v.in_hand v.hand;
        queue = v.queue;
        order =
            ap (λ es. es ++ (v.in_hand ++ v.waits))
              (events-append v.written l.lines
                ∙ ap (◌++◌ (events v.written)) l.only_logs
                ∙ append-nil (events v.written))
            ∙ v.order;
        framed = All-append IsFrame v.written l.lines v.framed l.framed;
        hand_events = v.hand_events;
        queue_events = v.queue_events;
      }

  taken :
      (q : List (List ℕ)) (running : Bool) (pipe : Sender)
      → Accounts before asked (at q running waiting pipe)
      → Accounts before asked (take_front (at q running waiting pipe))
  unfolding take_front
  taken q false pipe v = rephased (at q false waiting pipe) false stopping (λ hand e. e) v
  taken q true pipe v = of_waits v.waits v.queue v.order v.queue_events
    where
      of_waits :
          (waits : List Message)
          → q ≡ map frame waits
          → events v.written ++ (v.in_hand ++ waits) ≡ asked
          → All IsEvent waits
          → Accounts before asked (take_front (at q true waiting pipe))
      of_waits [] e o g = rw e record {
        written = v.written;
        in_hand = v.in_hand;
        waits = [];
        pipe = v.pipe;
        hand = v.hand;
        queue = e;
        order = o;
        framed = v.framed;
        hand_events = v.hand_events;
        queue_events = tt;
      }
      of_waits (m ∷ waits) e o g = rw e record {
        written = v.written;
        in_hand = m ∷ [];
        waits = waits;
        pipe = v.pipe;
        hand = (m, refl, refl);
        queue = refl;
        order = ap (λ h. events v.written ++ (h ++ (m ∷ waits))) (sym v.hand) ∙ o;
        framed = v.framed;
        hand_events = (g.0, tt);
        queue_events = g.1;
      }

module _ (write : List ℕ → List ℕ → Option ℕ) where
  send_raw-TakesAll :
      (buf : List ℕ) (s : Sender)
      → TakesAll write
      → s.is_open ≡ true
      → (send_raw write buf s).0 ≡ record s { sent = s.sent ++ buf }
  unfolding send_raw
  send_raw-TakesAll buf s t o = ground (arith, write_all-TakesAll write buf s t)

events_one : (m : Message) → is_log m ≡ false → events (m ∷ []) ≡ m ∷ []
events_one m h = rw h refl

module _ (before : List ℕ) (asked : List Message) where
  sent :
      (write : List ℕ → List ℕ → Option ℕ) (msg : List ℕ) (q : List (List ℕ)) (running : Bool)
      (pipe : Sender)
      → TakesAll write
      → Accounts before asked (at q running (sending msg) pipe)
      → Accounts before asked (send_held write msg (at q running (sending msg) pipe))
  unfolding send_held
  sent write msg q running pipe t v =
      let (m, framed, here) = v.hand in
      let event : IsEvent m = (subst (All IsEvent) here v.hand_events).0 in
      record {
        written = v.written ++ (m ∷ []);
        in_hand = [];
        waits = v.waits;
        pipe =
            send_raw-TakesAll write msg pipe t (ap (λ p. p.is_open) v.pipe)
            ∙ ap₂ extended framed v.pipe
            ∙ ap holds (
                append_assoc before (frames v.written) (frame m)
                ∙ ap (λ b. before ++ (frames v.written ++ b)) (sym (append-nil (frame m)))
                ∙ ap (◌++◌ before) (sym (frames-append v.written (m ∷ []))));
        hand = refl;
        queue = v.queue;
        order =
            ap (λ es. es ++ v.waits)
              (events-append v.written (m ∷ [])
                ∙ ap (◌++◌ (events v.written)) (events_one m event.1))
            ∙ append_assoc (events v.written) (m ∷ []) v.waits
            ∙ ap (λ h. events v.written ++ (h ++ v.waits)) (sym here)
            ∙ v.order;
        framed = All-append IsFrame v.written (m ∷ []) v.framed (event.0, tt);
        hand_events = tt;
        queue_events = v.queue_events;
      }

map-append : (a b : List Message) → map frame (a ++ b) ≡ map frame a ++ map frame b
map-append [] b = refl
map-append (m ∷ a) b = ap (◌∷◌ (frame m)) (map-append a b)

Event-append :
    (a : List Message) (m : Message) → All IsEvent a → IsEvent m → All IsEvent (a ++ m ∷ [])
Event-append a m p q = All-append IsEvent a (m ∷ []) p (q, tt)

queued-Accounts :
    (before : List ℕ) (asked : List Message) (m : Message) (s : Outbound)
    → IsEvent m
    → Accounts before asked s
    → Accounts before (asked ++ (m ∷ [])) (queue_outbound m s)
unfolding queue_outbound
queued-Accounts before asked m s event v = record {
  written = v.written;
  in_hand = v.in_hand;
  waits = v.waits ++ (m ∷ []);
  pipe = v.pipe;
  hand = v.hand;
  queue = ap (λ q. q ++ (frame m ∷ [])) v.queue ∙ sym (map-append v.waits (m ∷ []));
  order =
      ap (◌++◌ (events v.written)) (sym (append_assoc v.in_hand v.waits (m ∷ [])))
      ∙ sym (append_assoc (events v.written) (v.in_hand ++ v.waits) (m ∷ []))
      ∙ ap (λ ms. ms ++ (m ∷ [])) v.order;
  framed = v.framed;
  hand_events = v.hand_events;
  queue_events = Event-append v.waits m v.queue_events event;
}

module _ (io : Printing) (tid : ℕ) (write : List ℕ → List ℕ → Option ℕ) (t : TakesAll write)
    (before : List ℕ) where
  advance-Accounts :
      (asked : List Message) (q : List (List ℕ)) (running : Bool) (ph : Phase) (pipe : Sender)
      → Accounts before asked (at q running ph pipe)
      → Accounts before asked (advance io tid write (at q running ph pipe))
  unfolding advance
  advance-Accounts asked q running starting pipe v =
      logged before asked io write _ (at q running starting pipe) looping t (λ h e. e) v
  advance-Accounts asked q true looping pipe v =
      logged before asked io write _ (at q true looping pipe) waiting t (λ h e. e) v
  advance-Accounts asked q false looping pipe v =
      rephased before asked (at q false looping pipe) false leaving (λ h e. e) v
  advance-Accounts asked q running waiting pipe v = taken before asked q running pipe v
  advance-Accounts asked q running (holding msg) pipe v =
      logged before asked io write _ (at q running (holding msg) pipe) (sending msg) t (λ h e. e) v
  advance-Accounts asked q running (sending msg) pipe v =
      sent before asked write msg q running pipe t v
  advance-Accounts asked q running (reporting msg ok) pipe v =
      logged before asked io write _ (at q running (reporting msg ok) pipe) looping t (λ h e. e) v
  advance-Accounts asked q running stopping pipe v =
      logged before asked io write _ (at q running stopping pipe) leaving t (λ h e. e) v
  advance-Accounts asked q running leaving pipe v =
      logged before asked io write _ (at q running leaving pipe) exited t (λ h e. e) v
  advance-Accounts asked q running exited pipe v = v

  step-Accounts :
      (asked : List Message) (s : Outbound) (k : Step)
      → All IsEvent (queued (k ∷ []))
      → Accounts before asked s
      → Accounts before (asked ++ queued (k ∷ [])) (outbound_step io tid write s k)
  unfolding outbound_step
  step-Accounts asked s (queues m) g v = queued-Accounts before asked m s g.0 v
  step-Accounts asked s (logs text) g v =
      subst
        (λ a.
          Accounts before a (at s.out_queue s.out_running s.phase (hyprv_log io write text s.pipe)))
        (sym (append-nil asked)) (logged before asked io write text s s.phase t (λ h e. e) v)
  step-Accounts asked s advances g v =
      subst (λ a. Accounts before a (advance io tid write s)) (sym (append-nil asked))
        (advance-Accounts asked s.out_queue s.out_running s.phase s.pipe v)
  step-Accounts asked s stops g v =
      subst (λ a. Accounts before a (at s.out_queue false s.phase s.pipe)) (sym (append-nil asked))
        (rephased before asked s false s.phase (λ h e. e) v)

  queued-first : (k : Step) (ks : List Step) → queued (k ∷ []) ++ queued ks ≡ queued (k ∷ ks)
  queued-first (queues m) ks = refl
  queued-first (logs text) ks = refl
  queued-first advances ks = refl
  queued-first stops ks = refl

  first_events :
      (k : Step) (ks : List Step)
      → All IsEvent (queued (k ∷ ks))
      → All IsEvent (queued (k ∷ [])) × All IsEvent (queued ks)
  first_events (queues m) ks g = ((g.0, tt), g.1)
  first_events (logs text) ks g = (tt, g)
  first_events advances ks g = (tt, g)
  first_events stops ks g = (tt, g)

  pub run-Accounts :
      (asked : List Message) (s : Outbound) (ks : List Step)
      → All IsEvent (queued ks)
      → Accounts before asked s
      → Accounts before (asked ++ queued ks) (outbound_run io tid write s ks)
  unfolding outbound_run
  run-Accounts asked s [] g v = subst (λ a. Accounts before a s) (sym (append-nil asked)) v
  run-Accounts asked s (k ∷ ks) g v =
      let (here, later) = first_events k ks g in
      subst (λ a. Accounts before a (outbound_run io tid write (outbound_step io tid write s k) ks))
        (append_assoc asked (queued (k ∷ [])) (queued ks) ∙ ap (◌++◌ asked) (queued-first k ks))
        (run-Accounts (asked ++ queued (k ∷ [])) (outbound_step io tid write s k) ks later
          (step-Accounts asked s k here v))
