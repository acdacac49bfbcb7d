-- ===== src/Windows.antt =====
-- src/change_lib/platform/win32: the service as Windows controls it.
pub mod Service
pub mod Threads
pub mod Reports
pub mod Finishing
pub mod Helper
pub mod SystemInfo
pub mod Properties
pub mod Wmi
pub mod Random
pub mod Text
pub mod Tests
