-- ===== src/Ipc/Outbound.antt =====
-- The child's outgoing queue in src/rdphost/RdpHost.cpp: `QueueOutbound` on the thread of the windows,
-- and the sender thread of `StartSenderThread`, which takes one framed message at a time and hands it to
-- `SendRaw`. It logs what it does, and `HyprvLog` (src/rdphost/main.cpp) writes each line into the same pipe, as
-- it does for every other thread. The mutexes make the steps here atomic; any order of them is a run.
pub mod Log
pub mod Order
pub mod Drain
pub mod Arrival
use hyprv.Prelude.{
  ℕ, zero, suc, ◌≤◌, ◌*◌, Bool, true, false, ◌&&◌, Option, none, some, List, [], ◌∷◌, ◌++◌, leb,
  if◌then◌else◌, length,
}
use hyprv.Prelude.Text.{Text, codes}
use hyprv.Ipc.Frames.{Message, frame, Sender, send, send_raw}
use hyprv.Ipc.Notify.{log_message}

-- How the C runtime prints a number, and the conversion to UTF-8, of at most three bytes for a UTF-16 unit.
pub record Printing : Type 0 where
  pub print : ℕ → Text
  pub utf8 : Text → List ℕ
  pub utf8-le : (t : Text) → length (utf8 t) ≤ 3 * length t

-- Where the sender thread is: before its first line; at the top of the loop; in the wait; with a message in
-- its hands, not yet announced or announced; past `SendRaw`; told to stop; past the loop; gone.
pub data Phase : Type 0 where
  starting looping waiting stopping leaving exited : Phase
  holding sending : List ℕ → Phase
  reporting : List ℕ → Bool → Phase

pub record Outbound : Type 0 where
  pub out_queue : List (List ℕ)
  pub out_running : Bool
  pub phase : Phase
  pub pipe : Sender

-- The calls of `QueueOutbound`, of `HyprvLog` by other threads and of `StopSenderThread`, and the next thing that
-- the sender thread does.
pub data Step : Type 0 where
  queues : Message → Step
  logs : Text → Step
  advances : Step
  stops : Step

unfoldable pub queue_outbound : Message → Outbound → Outbound
queue_outbound m s = record s { out_queue = s.out_queue ++ frame m ∷ [] }

-- With nothing to take and no stop the thread stays in the wait.
unfoldable pub take_front : Outbound → Outbound
take_front s =
    if s.out_running
    then elim s.out_queue [
      | [] ↦ s
      | msg ∷ rest ↦ record s { out_queue = rest; phase = holding msg }
    ]
    else record s { phase = stopping }

-- The type in the header of a framed message.
abbrev type_of : List ℕ → ℕ
type_of [] = 255
type_of (b ∷ bs) = if leb 7 (length bs) then b else 255

module _ (io : Printing) (write : List ℕ → List ℕ → Option ℕ) where
  open io use {utf8}

  -- A line that does not fit the buffer of 1024 characters is not logged: `_vsnwprintf_s` then returns -1.
  unfoldable pub hyprv_log : Text → Sender → Sender
  hyprv_log text s =
      if leb 1 (length text) && leb (length text) 1023
      then elim (log_message (utf8 text)) [
        | none ↦ s
        | some m ↦ (send write m.header.kind m.payload s).0
      ]
      else s

module _ (write : List ℕ → List ℕ → Option ℕ) where
  -- Whether `SendRaw` succeeds is only logged.
  unfoldable pub send_held : List ℕ → Outbound → Outbound
  send_held msg s =
      let (pipe, ok) = send_raw write msg s.pipe in
      record s { phase = reporting msg ok; pipe = pipe }

module _ (io : Printing) (tid : ℕ) (write : List ℕ → List ℕ → Option ℕ) where
  open io use {print}

  -- The thread logs a line and goes on to a phase.
  abbrev pub log_to : Text → Phase → Outbound → Outbound
  log_to text ph s = record s { phase = ph; pipe = hyprv_log io write text s.pipe }

  abbrev pub wait_line : Outbound → Text
  wait_line s = codes "[tx] wait, queue size=" ++ print (length s.out_queue)

  abbrev pub sending_line : List ℕ → Text
  sending_line msg =
      codes "[tx] sending type=" ++ print (type_of msg) ++ codes " bytes=" ++ print (length msg)

  abbrev pub sent_line : List ℕ → Bool → Text
  sent_line msg ok =
      codes "[tx] sent type=" ++ print (type_of msg) ++ codes " ok=" ++ print (if ok then 1 else 0)

  unfoldable pub advance : Outbound → Outbound
  advance s = elim s.phase [
    | starting ↦ log_to (codes "[tx] thread started tid=" ++ print tid) looping s
    | looping ↦
        if s.out_running then log_to (wait_line s) waiting s else record s { phase = leaving }
    | waiting ↦ take_front s
    | holding msg ↦ log_to (sending_line msg) (sending msg) s
    | sending msg ↦ send_held write msg s
    | reporting msg ok ↦ log_to (sent_line msg ok) looping s
    | stopping ↦ log_to (codes "[tx] stop requested") leaving s
    | leaving ↦ log_to (codes "[tx] thread exiting") exited s
    | exited ↦ s
  ]

  unfoldable pub outbound_step : Outbound → Step → Outbound
  outbound_step s (queues m) = queue_outbound m s
  outbound_step s (logs text) = record s { pipe = hyprv_log io write text s.pipe }
  outbound_step s advances = advance s
  outbound_step s stops = record s { out_running = false }

  unfoldable pub outbound_run : Outbound → List Step → Outbound
  outbound_run s [] = s
  outbound_run s (k ∷ ks) = outbound_run (outbound_step s k) ks

  -- `StartSenderThread` on a pipe.
  unfoldable pub started : Sender → Outbound
  started pipe = record {
    out_queue = [];
    out_running = true;
    phase = starting;
    pipe = hyprv_log io write (codes "[host] StartSenderThread") pipe;
  }
