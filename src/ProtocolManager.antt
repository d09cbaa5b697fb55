-- ===== src/ProtocolManager.antt =====
-- `ProtocolManager` in protocol/ProtocolManager.hpp and src/ProtocolManager.cpp.
pub mod Types
pub mod Protocols
pub mod Operations
pub mod Sessions
pub mod Stubs
pub mod Refinement
