-- ===== src/Performance.antt =====
-- `PerformanceMonitor` in performance/PerformanceMonitor.hpp and src/PerformanceMonitor.cpp.
pub mod Types
pub mod Operations
pub mod Events
pub mod Thresholds
pub mod Checks
pub mod Exceeding
pub mod Reports
pub mod Files
pub mod Members
pub mod RoundTrip
