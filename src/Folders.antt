-- ===== src/Folders.antt =====
-- src/change_lib/known-folders.hpp, known-folders.cpp and helpers.cpp on Linux, with
-- platform/linux/linux_known_folders.cpp.
pub mod Text
pub mod Table
pub mod Lines
pub mod Fixed
pub mod Win32
pub mod File
pub mod Refused
pub mod Tests
