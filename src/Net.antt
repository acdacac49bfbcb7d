-- ===== src/Net.antt =====
-- src/change_lib/net: messages, and the connection that reads and writes them.
pub mod Message
pub mod Connection
pub mod Writer
pub mod Steps
pub mod Reached
pub mod Unfinished
pub mod Drain
pub mod Reader
pub mod Delivery
pub mod Queue
pub mod Waiting
pub mod Handed
pub mod Wakeups
pub mod Types
pub mod Server
pub mod Pointers
pub mod Lifetime
pub mod Client
pub mod Startup
pub mod Tests
pub mod WaitingTests
