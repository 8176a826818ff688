-- ===== src/Ipc/Outbound/Drain.antt =====
-- A thread that is not stopped sends what is queued.
use hyprv.Prelude.{ℕ, zero, suc, ◌≡◌, refl, sym, ap, ◌∙◌, List, [], ◌∷◌, ◌++◌, map, All}
use mathlib.Core.Path.{ap₂}
use mathlib.Core.List.{append-nil}
use hyprv.Ipc.Frames.{Message, frame, frames, IsFrame}
use hyprv.Ipc.Outbound.{Outbound, Step, advances}
use hyprv.Ipc.Outbound.Log.{events}
use hyprv.Ipc.Outbound.Order.{Hand, Accounts}

-- The pipe has got whole frames, and those that are not log lines are the messages asked for, no more and no fewer.
pub record Delivers (before : List ℕ) (asked : List Message) (s : Outbound) : Type 0 where
  pub messages : List Message
  pub sent : s.pipe.sent ≡ before ++ frames messages
  pub all_events : events messages ≡ asked
  pub framed : All IsFrame messages

none_waits : (waits : List Message) → [] ≡ map frame waits → waits ≡ []
none_waits [] e = refl
none_waits (m ∷ ms) e = absurd cc

-- With no message in hand and none in the queue all has been sent.
pub settled :
    (before : List ℕ) (asked : List Message) (s : Outbound)
    → ((hand : List Message) → Hand s.phase hand → hand ≡ [])
    → s.out_queue ≡ []
    → Accounts before asked s
    → Delivers before asked s
settled before asked s idle e v =
    let empty = none_waits v.waits (sym e ∙ v.queue) in
    record {
      messages = v.written;
      sent = ap (λ p. p.sent) v.pipe;
      all_events =
          sym (append-nil (events v.written))
          ∙ ap₂ (λ h w. events v.written ++ (h ++ w)) (sym (idle v.in_hand v.hand)) (sym empty)
          ∙ v.order;
      framed = v.framed;
    }

-- Rounds of the loop in which the thread takes a message and sends it.
abbrev pub rounds : ℕ → List Step
rounds zero = []
rounds (suc n) = advances ∷ advances ∷ advances ∷ advances ∷ advances ∷ rounds n
