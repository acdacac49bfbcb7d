-- ===== src/Platform.antt =====
-- src/change_lib/platform: the error codes and the files of the two systems.
pub mod Words
pub mod Errors
pub mod Files
pub mod Tests
