-- ===== src/Runtime.antt =====
-- autoagent/core/runtime: the state that one invocation owns, and the operations on it.
pub mod Value
pub mod Snapshot
pub mod Scope
pub mod Cursor
pub mod Execution
pub mod Output
pub mod Invocation
pub mod Persistence
pub mod Mailbox
pub mod Samples
