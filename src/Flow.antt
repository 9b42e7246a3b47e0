-- ===== src/Flow.antt =====
-- The write and read path of a flow (neat_core.c).
pub mod Stack
pub mod Memory
pub mod State
pub mod Fill
pub mod Flush
pub mod Poll
pub mod Write
pub mod Read
pub mod Callbacks
pub mod Notifications
pub mod Receive
pub mod Writable
pub mod Dispatch
pub mod Filters
pub mod Life
pub mod Multistream
mod Examples
