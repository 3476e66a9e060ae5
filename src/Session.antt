-- ===== src/Session.antt =====
-- pkg/monetdroid/session.go: the state of a session, a module for each group of fields that the
-- methods use together.
pub mod Chain
pub mod Queue
pub mod Sending
pub mod BashBuffer
pub mod BashSlot
pub mod Agents
pub mod Todos
