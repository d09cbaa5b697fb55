-- ===== src/Security.antt =====
-- `SecurityManager` in Security.hpp and src/Security.cpp.
pub mod Types
pub mod Operations
pub mod Signing
