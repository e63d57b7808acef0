-- ===== src/Tests.antt =====
-- The theorems at concrete inputs, by the part of the program.
pub mod Samples
pub mod Buffer
pub mod Packets
pub mod Formats
pub mod Sources
pub mod Sessions
pub mod Threads
pub mod Json
pub mod Lifecycle
pub mod Servers
pub mod Startup
pub mod Objects
pub mod Histories
pub mod Shares
pub mod Mailboxes
pub mod Logs
