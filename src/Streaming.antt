-- ===== src/Streaming.antt =====
-- internal/streaming: one upstream stream, buffered and broadcast to its subscribers. `Buffer` has the chunks and
-- their buffer (session.go), `Session` the session and its subscribers (session.go, subscriber.go), `Manager` the
-- map of sessions (manager.go); `Window`, `Channels`, `Lifecycle`, `Endings`, `Sharing` and `Keys` have what is
-- proved of them. `Tools` has the assembly of tool calls (tool_detector.go), `Assembly` what is proved of it.
pub mod Buffer
pub mod Window
pub mod Session
pub mod Channels
pub mod Lifecycle
pub mod Endings
pub mod Manager
pub mod Sharing
pub mod Keys
pub mod Tools
pub mod Assembly
mod Tests
