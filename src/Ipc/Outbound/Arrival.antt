-- ===== src/Ipc/Outbound/Arrival.antt =====
-- The queue of the child and the receive loop of the parent together.
use hyprv.Prelude.{List}
