-- ===== src/ConnectionManager.antt =====
-- `ConnectionManager` in connection/ConnectionManager.hpp and src/connection/ConnectionManager.cpp.
pub mod Types
pub mod Operations
pub mod Settings
pub mod Maintenance
pub mod Calls
pub mod Views
pub mod Replay
pub mod Counts
pub mod Sums
pub mod Stale
