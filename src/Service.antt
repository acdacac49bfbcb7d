-- ===== src/Service.antt =====
-- src/change_service: the state of the service, and the server that answers requests with it.
pub mod Library
pub mod Paths
pub mod State
pub mod Server
pub mod Current
pub mod Replies
pub mod Silent
pub mod Marks
pub mod Accepting
pub mod Running
pub mod Process
pub mod Tests
pub mod ProcessTests
