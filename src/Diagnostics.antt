-- ===== src/Diagnostics.antt =====
-- `NetworkDiagnostics` in NetworkDiagnostics.hpp and src/NetworkDiagnostics.cpp.
pub mod Types
pub mod Operations
pub mod Quality
pub mod Logs
pub mod Extremes
