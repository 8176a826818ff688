-- ===== src/Lib.antt =====
-- A model of hyprv, a Hyper-V client whose remote desktop sessions each run in a child process.
--
-- The application (src/app) spawns one `hyprv-rdphost` (src/rdphost) for each session. The two talk over
-- a named pipe in frames of an 8-byte header and a payload (src/shared/RdpIpc.h): the parent sends
-- commands, the child sends events. The settings (src/app/settings) are kept by the parent in memory.
--
--   * Prelude: lists over the native numbers, Boolean tests, UTF-16 text, 32-bit signed integers.
--   * Ipc: the protocol. Codec, Header, Commands, Events and Structs are src/shared/RdpIpc.h: a packed
--     struct is a record with a layout, `encode` its bytes and `decode` the copy out of a buffer.
--     Pipe is `ReadExact`, the same loop in src/rdphost/IpcClient.cpp and src/app/rdp/RdpHostClient.cpp; Frames
--     is the sends and the receive loops of both; Handshake is `IpcClient::Handshake` against the end of
--     `RdpHostClient::Impl::SpawnAndHandshake`.
--     From parent to child: Client is the messages that `RdpHostClient` builds, Host is
--     `ExtractRdpStrings` and `DispatchIpcMessage` of src/rdphost/main.cpp.
--     From child to parent: Sink and Notify are `DispSink::Invoke` and the event callbacks of
--     src/rdphost/RdpHost.cpp, with the frame of `HyprvLog`,
--     Outbound is the queue that they fill and its sender thread, with the lines that this and other threads
--     log into the same pipe, Dispatch is `RdpHostClient::Impl::DispatchEvent`.
--     Scale and Geometry are the display scale and the caches of window geometry in RdpHostClient.cpp; where a
--     new owner or the end of a session leaves the child's window is an argument.
--   * Settings: src/app/settings/Settings.cpp. Recents, RemoteHosts (with the check of
--     src/app/RemoteHostDialog.xaml.cpp), Options, Confirmations, VmPrefs (over Map, the unordered maps)
--     and General, the other values; Json, the reading of session options from the file; Saving, when
--     the file is written. File is the text of settings.json: Parts and Write are `SaveLocked` up to the
--     finished text, Read and Load are `Load` from the text on, Objects what they use of Windows.Data.Json; Grammar is the
--     grammar of JSON, Tree the tree that the text stands for.
--     A method takes the state it reads and returns the new state and whether it called `MarkDirty`.
--   * Tab: the page of a machine's tab, src/app/VmTabPage.xaml.cpp: the state that its handlers share and
--     what they do with the child, the placeholder and the reconnect timer. Handlers are the methods and the
--     callbacks of `StartConnection` as they run on the user interface's thread, Runs any order of them.
--     A handler that reads the cache of machines twice takes what it finds each time (`World`).
--   * Remote: the page of a remote host's tab, src/app/RemoteHostTabPage.xaml.cpp, in the same way; Options is what
--     `StartConnection` sends and the size of the child's window, Runs any order of the handlers.
--   * Vm: the parts of src/app/vm/VMManager.cpp that do not call the management service. Poll is `PollLoop`
--     with those who wait in `KickPollAndWait`; Pending is the marks of operations under way and the
--     samples of the load, with the end of `UpdateAll`; AdapterRows is what `UpdateAll` takes for a network adapter
--     from a row of a query, the rows being data here, and Adapters how it puts the adapters together; Snapshots is `OrderSnapshotsAsTree`; Texts is what is picked
--     out of identifiers, paths and messages; Interval is the text of an interval.
--   * Examples: concrete runs.
--
-- Parameters. The pipe is the operating system's: a `PipeReader` hands over any part of the pending
-- bytes, and some of them if there are any; a writer says how many bytes it took. How the C runtime prints a
-- number is any function, and a UTF-16 unit takes at most three bytes of UTF-8 (Ipc/Outbound). `_wcsicmp` is taken to
-- tell classes of texts apart and `towlower` is any function (Settings/Crt); conversions between UTF-8
-- and UTF-16 are any functions. A JSON object and the `double` numbers are parameters with their
-- operations (Settings/Json, Settings/General, Settings/File/State and Objects); so is the JSON parser. `std::sort` is a
-- function that neither drops nor doubles an element (Vm/Snapshots). The interleavings of threads (Ipc/Outbound,
-- Settings/Saving, Vm/Poll) are lists of steps, each a part of a method during which no other thread can act.
--
-- Bounds. `read_loop` gets as much fuel as bytes are asked for, and each round that goes on takes at
-- least one. The loop over the stack of
-- snapshots gets one more than the snapshots, the loop that cleans a message one more than its characters; both are shown to be enough. The receive loop runs as many rounds as the list of the values of its flag has. Numbers
-- wrap where the source casts them, the size of a payload among them.
--
-- Not modelled: COM, the ActiveX control and the windows of both processes, the calls of the management
-- service (src/app/vm, src/app/wmi), log lines before the handshake and after the pipe is closed, which go to the debugger,
-- the rest of the user interface, the file settings.json as bytes. Of the tabs' pages
-- the position of the window, the timer that repeats the resize of an enhanced session, and for a machine's tab the options of
-- `StartConnection` and the message for an error code are left out.
mod Prelude
pub mod Ipc
pub mod Settings
pub mod Tab
pub mod Remote
pub mod Vm
mod Examples
