-- ===== src/Examples/Pipes.antt =====
-- Frames through a pipe that hands over three bytes at a time.
use hyprv.Prelude.{◌+◌, ◌%◌, ◌≡◌, refl, ap, true, List, [], ◌∷◌, ◌++◌, arith, take, replicate, All}
use hyprv.Ipc.Pipe.{read_exact, read_exact_full, Reads}
use hyprv.Ipc.Frames.{
  Message, make_message, make_message-IsFrame, frames, IsFrame, Sender, send, receive,
}
use hyprv.Ipc.Frames.Delivery.{receive-frames, send-TakesAll}
use hyprv.Ipc.Outbound.{Printing, Outbound, Step, queues, logs, advances, outbound_run, started}
use hyprv.Ipc.Outbound.Order.{holds}
use hyprv.Prelude.Text.{codes}
use hyprv.Examples.{bursts, takes_all}

abbrev two_messages : List Message
two_messages = make_message 25 (7 ∷ 8 ∷ 9 ∷ 10 ∷ []) ∷ make_message 22 [] ∷ []

two_frames : All IsFrame two_messages
two_frames = (
  make_message-IsFrame 25 (7 ∷ 8 ∷ 9 ∷ 10 ∷ []) (omega arith) (omega arith),
  (make_message-IsFrame 22 [] (omega arith) (omega arith), tt),
)

receive-frames_example :
    receive bursts (replicate 2 true) (frames two_messages ++ (16 ∷ 0 ∷ [])) ≡ take 2 two_messages
receive-frames_example =
    receive-frames bursts 2 two_messages (16 ∷ 0 ∷ []) (frames two_messages ++ (16 ∷ 0 ∷ []))
      two_frames (omega arith) refl

abbrev open_pipe : Sender
open_pipe = record { is_open = true; sent = 1 ∷ [] }

send_done : (send takes_all 25 (7 ∷ []) open_pipe).1 ≡ true
send_done = ap (λ r. r.1) (send-TakesAll takes_all 25 (7 ∷ []) open_pipe (λ sent buf. refl) refl)

read_exact_full_example :
    Reads bursts 4 (1 ∷ 2 ∷ 3 ∷ 4 ∷ 5 ∷ []) (read_exact bursts 4 (1 ∷ 2 ∷ 3 ∷ 4 ∷ 5 ∷ []))
read_exact_full_example = read_exact_full bursts 4 (1 ∷ 2 ∷ 3 ∷ 4 ∷ 5 ∷ []) (omega arith)

-- One digit, and text in ASCII.
abbrev plain_print : Printing
plain_print = record { print = λ n. (48 + n % 10) ∷ []; utf8 = λ t. t; utf8-le = λ t. omega arith }

abbrev five : List Step
five = advances ∷ advances ∷ advances ∷ advances ∷ advances ∷ []

-- The second message comes, and another thread logs a line, while the first is in the thread's hands.
abbrev turns : List Step
turns =
    advances
      ∷ advances
      ∷ queues (make_message 131 (7 ∷ []))
      ∷ advances
      ∷ queues (make_message 134 [])
      ∷ logs (codes "[host] resize")
      ∷ five
    ++ (advances ∷ advances ∷ advances ∷ advances ∷ [])

abbrev both_sent : Outbound
both_sent = outbound_run plain_print 4 takes_all (started plain_print 4 takes_all (holds [])) turns

-- Two messages are queued before the thread has begun.
abbrev early : List Step
early = queues (make_message 131 (7 ∷ [])) ∷ queues (make_message 134 []) ∷ advances ∷ []
