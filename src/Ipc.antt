-- ===== src/Ipc.antt =====
-- The parent and the child process of a session, and the pipe between them: src/shared/RdpIpc.h,
-- src/rdphost and src/app/rdp.
pub mod Codec
pub mod Header
pub mod Commands
pub mod Events
pub mod Structs
pub mod Pipe
pub mod Frames
pub mod Handshake
pub mod Host
pub mod Client
pub mod Scale
pub mod Geometry
pub mod Notify
pub mod Sink
pub mod Dispatch
pub mod Outbound
